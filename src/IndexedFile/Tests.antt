-- ===== src/IndexedFile/Tests.antt =====
-- Names and paths by evaluation, and the theorems at inputs of that kind.
use mathlib.Core.Path.{subst}
use documents_backend.Common.{
  true, false, not, Bool-cases, inl, inr, List, if◌then◌else◌, ◌≡◌, refl, All, [], ◌∷◌, ok, err,
  forbidden,
}
use documents_backend.Common.Text.{codes, is_space}
use documents_backend.IndexedFile.Filename.{
  Name, is_empty, is_dot_dot, split, is_reserved, trim_start, trim_end, clean, check_segments,
  sanitize_filename,
}
use documents_backend.IndexedFile.Scope.{
  AbsolutePath, real, missing, FileSystem, name_eq, is_inside, dirname, resolve, nearest_ancestor,
  resolved, resolve_in, resolve_safe_path,
}
use documents_backend.IndexedFile.Contained.{
  NoDots, IsBelow, IsPlaced, IsResolved, All-left, is_inside-below, IsClean,
  resolve_safe_path-IsBelow, sanitize_filename-IsClean,
}

-- What the runs compute with.
machine : Unit {0}
unfolding is_space split is_reserved trim_start trim_end clean check_segments sanitize_filename
    name_eq is_inside dirname resolve nearest_ancestor resolved resolve_in resolve_safe_path
machine = tt

parent-refused : sanitize_filename (codes "a/../b") ≡ err (forbidden "path_outside_scope")
unfolding machine
parent-refused = refl

-- A reserved character or a space beside the dots hides them from the test, which comes first.
hidden_parent : sanitize_filename (codes "a/<../b") ≡ ok (codes "a" ∷ codes ".." ∷ codes "b" ∷ [])
unfolding machine
hidden_parent = refl

spaced_parent : sanitize_filename (codes ".. \\b") ≡ ok (codes ".." ∷ codes "b" ∷ [])
unfolding machine
spaced_parent = refl

sanitize_filename-IsClean_example :
    (false ≡ false)
    × All (λ s. not (is_empty s) ≡ true) (codes "a" ∷ codes "b.md" ∷ [])
    × All IsClean (codes "a" ∷ codes "b.md" ∷ [])
unfolding machine
sanitize_filename-IsClean_example = sanitize_filename-IsClean (codes "a\\ b?.md") refl

-- A file system with one folder and one file in it.
abbrev folder : AbsolutePath
folder = codes "home" ∷ codes "docs" ∷ []

disk : FileSystem
unfolding name_eq is_inside
disk path = if is_inside path folder then real path else missing

folder-NoDots : NoDots folder
folder-NoDots = (refl, (refl, tt))

disk-IsResolved : IsResolved disk
unfolding disk machine
disk-IsResolved path q h = elim (Bool-cases (is_inside path folder)) [
  | inl t ↦
      let (rest, below) = is_inside-below path folder t in
      let same : path ≡ q = cc (rw t at h) in
      rw (← same)
        (All-left (λ n. is_dot_dot n ≡ false) path rest (subst NoDots below folder-NoDots))
  | inr t ↦ absurd (cc (rw t at h))
]

resolve_safe_path-IsBelow_example :
    (kept : List Name) × (scope : AbsolutePath) × (sanitize_filename (codes "new.md") ≡ ok kept)
    × (disk folder ≡ real scope)
    × IsBelow scope (codes "home" ∷ codes "docs" ∷ codes "new.md" ∷ [])
    × IsPlaced disk scope (resolve scope kept) (codes "home" ∷ codes "docs" ∷ codes "new.md" ∷ [])
unfolding machine disk
resolve_safe_path-IsBelow_example =
    resolve_safe_path-IsBelow disk folder (codes "new.md") disk-IsResolved refl

-- The path that the hidden parent leads to is refused.
escape-refused : resolve_safe_path disk folder (codes "<..") ≡ err (forbidden "path_outside_scope")
unfolding machine disk
escape-refused = refl

-- A file whose own name begins with two dots is refused, though it lies in the folder.
dotted-refused :
    resolve_safe_path disk folder (codes "..notes") ≡ err (forbidden "path_outside_scope")
unfolding machine disk
dotted-refused = refl
