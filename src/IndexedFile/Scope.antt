-- ===== src/IndexedFile/Scope.antt =====
-- `isInside`, `realpathOfNearestExistingAncestor` and `resolveSafePath` of
-- src/indexed-file/path.util.ts. An absolute path is the list of its segments; the file system is
-- a parameter that answers `realpath`.
use documents_backend.Common.{
  nat_eq, Bool, true, false, not, ◌&&◌, ◌||◌, List, [], ◌∷◌, ◌++◌, if◌then◌else◌, Failure, Result,
  ok, err, forbidden, fault, throw_if, ◌>>=◌, ◌>>◌,
}
use mathlib.Core.List.{reverse}
use documents_backend.IndexedFile.Filename.{Name, is_dot, is_dot_dot, is_empty, sanitize_filename}

abbrev pub AbsolutePath : Type 0
AbsolutePath = List Name

-- The outcome of `fs.realpath`: the real path, `ENOENT`, or another error.
pub data Real : Type 0 where
  real : AbsolutePath → Real
  missing : Real
  failing : Real

abbrev pub FileSystem : Type 0
FileSystem = AbsolutePath → Real

unfoldable pub name_eq : Name → Name → Bool
name_eq [] [] = true
name_eq (c ∷ cs) (d ∷ ds) = nat_eq c d && name_eq cs ds
name_eq _ _ = false

-- `s.startsWith('..')`.
abbrev pub starts_with_dots : Name → Bool
starts_with_dots (c ∷ d ∷ s) = nat_eq c 46 && nat_eq d 46
starts_with_dots _ = false

-- What `path.relative(parent, child)` says: '' for the same path, the rest of a path below, and
-- '..' first for any other.
unfoldable pub is_inside : AbsolutePath → AbsolutePath → Bool
is_inside [] [] = true
is_inside [] (c ∷ child) = not (starts_with_dots c)
is_inside (p ∷ parent) [] = false
is_inside (p ∷ parent) (c ∷ child) = name_eq p c && is_inside parent child

-- The path above, `path.dirname`.
unfoldable pub dirname : AbsolutePath → AbsolutePath
dirname [] = []
dirname (s ∷ []) = []
dirname (s ∷ t ∷ path) = s ∷ dirname (t ∷ path)

-- `path.resolve(absolute, name)`, segment by segment.
unfoldable pub resolve : AbsolutePath → List Name → AbsolutePath
unfolding dirname
resolve path [] = path
resolve path (s ∷ ss) =
    let next =
      if is_dot s || is_empty s
      then path
      else if is_dot_dot s
      then dirname path
      else path ++ s ∷ [] in
    resolve next ss

-- The loop up the ancestors of a path, whose segments stand here from the last to the first. The
-- root is its own ancestor.
unfoldable pub nearest_ancestor : FileSystem → List Name → Result AbsolutePath
nearest_ancestor fs [] = elim (fs []) [ real p ↦ ok p | missing ↦ ok [] | failing ↦ err fault ]
nearest_ancestor fs (s ∷ above) = elim (fs (reverse (s ∷ above))) [
  | real p ↦ ok p
  | missing ↦ nearest_ancestor fs above
  | failing ↦ err fault
]

abbrev pub outside : Failure
outside = forbidden "path_outside_scope"

unfoldable pub resolved : AbsolutePath → AbsolutePath → Real → Result AbsolutePath
resolved scope absolute missing = ok absolute
resolved scope absolute failing = err fault
resolved scope absolute (real p) = if is_inside scope p then ok p else err outside

unfoldable pub resolve_in : FileSystem → AbsolutePath → AbsolutePath → Result AbsolutePath
resolve_in fs scope absolute = do
  throw_if (not (is_inside scope absolute)) outside
  ancestor ← nearest_ancestor fs (reverse absolute)
  throw_if (not (is_inside scope ancestor)) outside
  resolved scope absolute (fs absolute)

-- `fs.realpath(folderScope)`, which throws if there is no such folder.
abbrev pub scope_of : Real → Result AbsolutePath
scope_of (real scope) = ok scope
scope_of _ = err fault

unfoldable pub resolve_safe_path : FileSystem → AbsolutePath → Name → Result AbsolutePath
resolve_safe_path fs folder name = sanitize_filename name >>= λ sanitized.
    scope_of (fs folder) >>= λ scope. resolve_in fs scope (resolve scope sanitized)
