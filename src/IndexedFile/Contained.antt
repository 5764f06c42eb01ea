-- ===== src/IndexedFile/Contained.antt =====
-- What `sanitizeFilename` and `resolveSafePath` of src/indexed-file/path.util.ts let pass.
use mathlib.Core.List.{reverse}
use mathlib.Core.Path.{subst}
use documents_backend.Common.{
  filter, ℕ, nat_eq_iff, Bool, true, false, not, ◌||◌, if◌then◌else◌, ◌⊎◌, ◌≡◌, refl, List, [], ◌∷◌,
  ◌++◌, map, arith, All, inl, inr, Bool-cases, ok, err, fault, >>=-eq-ok, throw_if-eq-ok,
}
use documents_backend.Common.Text.{is_space}
use documents_backend.IndexedFile.Filename.{
  Name, to_slash, split, is_empty, is_dot, is_dot_dot, is_reserved, trim_start, trim_end,
  trim_before, clean, is_segment, cleaned, check_segments, sanitize_filename,
}
use documents_backend.IndexedFile.Scope.{
  AbsolutePath, Real, real, missing, failing, FileSystem, name_eq, is_inside, dirname, resolve,
  nearest_ancestor, resolved, resolve_in, scope_of, resolve_safe_path,
}

name_eq_sound : (s t : Name) → name_eq s t ≡ true → s ≡ t
unfolding name_eq
name_eq_sound [] [] h = refl
name_eq_sound [] (d ∷ t) h = cc
name_eq_sound (c ∷ s) [] h = cc
name_eq_sound (c ∷ s) (d ∷ t) h =
    let heads : c ≡ d = (nat_eq_iff c d).0 (ground arith) in
    let tails = name_eq_sound s t (ground arith) in rw (heads, tails) refl

-- No segment of the path is '..'.
abbrev pub NoDots : List Name → Type 0
NoDots path = All (λ s. is_dot_dot s ≡ false) path

-- The path lies below the scope, or is the scope, and does not leave it again.
abbrev pub IsBelow : AbsolutePath → AbsolutePath → Type 0
IsBelow scope path = (rest : List Name) × (path ≡ scope ++ rest) × NoDots rest

-- The nearest folder above a path that exists has the real path. The segments of the path stand from
-- the last to the first.
pub data LeadsTo (fs : FileSystem) : List Name → AbsolutePath → Type 0 where
  here : {path : List Name} {q : AbsolutePath} → fs (reverse path) ≡ real q → LeadsTo fs path q
  above :
      {s : Name} {path : List Name} {q : AbsolutePath}
      → fs (reverse (s ∷ path)) ≡ missing
      → LeadsTo fs path q
      → LeadsTo fs (s ∷ path) q
  root : fs [] ≡ missing → LeadsTo fs [] []

-- Where a file is that is asked for by a path: at its real path, if it exists, and at the path
-- itself, if it does not and the nearest folder above it lies in the scope.
pub data IsPlaced (fs : FileSystem) (scope asked : AbsolutePath) : AbsolutePath → Type 0 where
  existing : {p : AbsolutePath} → fs asked ≡ real p → IsPlaced fs scope asked p
  new_file :
      {q : AbsolutePath}
      → fs asked ≡ missing
      → LeadsTo fs (reverse asked) q
      → IsBelow scope q
      → IsPlaced fs scope asked asked

All-right : {A : Type 0} (P : A → Type 0) (xs ys : List A) → All P (xs ++ ys) → All P ys
All-right P [] ys h = h
All-right P (x ∷ xs) ys (_, h) = All-right P xs ys h

pub All-left : {A : Type 0} (P : A → Type 0) (xs ys : List A) → All P (xs ++ ys) → All P xs
All-left P [] ys h = tt
All-left P (x ∷ xs) ys (first, h) = (first, All-left P xs ys h)

All-append : {A : Type 0} (P : A → Type 0) (xs ys : List A) → All P xs → All P ys → All P (xs ++ ys)
All-append P [] ys h k = k
All-append P (x ∷ xs) ys (first, h) k = (first, All-append P xs ys h k)

dirname-NoDots : (path : AbsolutePath) → NoDots path → NoDots (dirname path)
unfolding dirname
dirname-NoDots [] h = tt
dirname-NoDots (s ∷ []) h = tt
dirname-NoDots (s ∷ t ∷ path) (first, h) = (first, dirname-NoDots (t ∷ path) h)

step-NoDots :
    (path : AbsolutePath) (s : Name)
    → NoDots path
    → NoDots (
        if is_dot s || is_empty s
        then path
        else if is_dot_dot s
        then dirname path
        else path ++ s ∷ [])
step-NoDots path s h = elim (Bool-cases (is_dot s || is_empty s)) [
  | inl t ↦ rw t h
  | inr t ↦ rw t (elim (Bool-cases (is_dot_dot s)) [
    | inl d ↦ rw d (dirname-NoDots path h)
    | inr d ↦ rw d (All-append (λ n. is_dot_dot n ≡ false) path (s ∷ []) h (d, tt))
  ])
]

-- What `path.resolve` adds to a path without '..' has none.
resolve-NoDots : (ss : List Name) (path : AbsolutePath) → NoDots path → NoDots (resolve path ss)
unfolding resolve
resolve-NoDots [] path h = h
resolve-NoDots (s ∷ ss) path h = resolve-NoDots ss _ (step-NoDots path s h)

pub is_inside-below :
    (scope path : AbsolutePath)
    → is_inside scope path ≡ true
    → (rest : List Name) × (path ≡ scope ++ rest)
unfolding is_inside
is_inside-below [] path h = (path, refl)
is_inside-below (p ∷ scope) [] h = cc
is_inside-below (p ∷ scope) (c ∷ path) h =
    let heads = name_eq_sound p c (ground arith) in
    let (rest, tails) = is_inside-below scope path (ground arith) in (rest, rw (heads, tails) refl)

is_inside-IsBelow :
    (scope path : AbsolutePath) → is_inside scope path ≡ true → NoDots path → IsBelow scope path
is_inside-IsBelow scope path h dots =
    let (rest, same) = is_inside-below scope path h in
    (rest, same, All-right (λ n. is_dot_dot n ≡ false) scope rest (subst NoDots same dots))

-- The real paths of a file system have no segment '..'.
abbrev pub IsResolved : FileSystem → Type 0
IsResolved fs = (path q : AbsolutePath) → fs path ≡ real q → NoDots q

module _ (fs : FileSystem) (resolves : IsResolved fs) where
  nearest_ancestor-found :
      (s : Name) (path : List Name) {q : AbsolutePath} (r : Real)
      → fs (reverse (s ∷ path)) ≡ r
      → nearest_ancestor fs (s ∷ path) ≡ ok q
      → (r ≡ real q) ⊎ ((r ≡ missing) × (nearest_ancestor fs path ≡ ok q))
  unfolding nearest_ancestor
  nearest_ancestor-found s path (real p) e h = inl (cc (rw (e, nearest_ancestor) at h))
  nearest_ancestor-found s path missing e h = inr (refl, rw (e, nearest_ancestor) at h)
  nearest_ancestor-found s path failing e h = absurd (cc (rw (e, nearest_ancestor) at h))

  nearest_ancestor-LeadsTo :
      (path : List Name) {q : AbsolutePath}
      → nearest_ancestor fs path ≡ ok q
      → LeadsTo fs path q × NoDots q
  unfolding nearest_ancestor
  nearest_ancestor-LeadsTo [] {q} h = root_LeadsTo (fs []) refl h
    where
      root_LeadsTo :
          (r : Real)
          → fs [] ≡ r
          → elim r [ real p ↦ ok p | missing ↦ ok [] | failing ↦ err fault ] ≡ ok q
          → LeadsTo fs [] q × NoDots q
      root_LeadsTo (real p) e h =
          let same : p ≡ q = cc in (here (rw (← same) e), resolves [] _ (rw (← same) e))
      root_LeadsTo missing e h = let same : [] ≡ q = cc in rw (← same) (root e, tt)
      root_LeadsTo failing e h = cc
  nearest_ancestor-LeadsTo (s ∷ path) h =
      elim (nearest_ancestor-found s path (fs (reverse (s ∷ path))) refl h) [
        | inl e ↦ (here e, resolves _ _ e)
        | inr (e, rest) ↦
            let (leads, dots) = nearest_ancestor-LeadsTo path rest in (above e leads, dots)
      ]

  resolved-IsPlaced :
      (scope asked ancestor : AbsolutePath) (r : Real) {p : AbsolutePath}
      → fs asked ≡ r
      → is_inside scope asked ≡ true
      → NoDots asked
      → LeadsTo fs (reverse asked) ancestor
      → IsBelow scope ancestor
      → resolved scope asked r ≡ ok p
      → IsBelow scope p × IsPlaced fs scope asked p
  unfolding resolved
  resolved-IsPlaced scope asked ancestor missing {p} e inside dots leads below h =
      let same : asked ≡ p = cc in
      rw (← same) (is_inside-IsBelow scope asked inside dots, new_file e leads below)
  resolved-IsPlaced scope asked ancestor failing e inside dots leads below h = cc
  resolved-IsPlaced scope asked ancestor (real q) {p} e inside dots leads below h =
      elim (Bool-cases (is_inside scope q)) [
        | inl t ↦
            let same : q ≡ p = ground arith in
            rw (← same) (is_inside-IsBelow scope q t (resolves asked q e), existing e)
        | inr t ↦ absurd (ground arith)
      ]

  resolve_in-IsPlaced :
      (scope asked : AbsolutePath) {p : AbsolutePath}
      → NoDots asked
      → resolve_in fs scope asked ≡ ok p
      → IsBelow scope p × IsPlaced fs scope asked p
  unfolding resolve_in
  resolve_in-IsPlaced scope asked {p} dots h =
      let (_, e) = throw_if-eq-ok (not (is_inside scope asked)) _ _ h in
      let (ancestor, found, e₁) = >>=-eq-ok (nearest_ancestor fs (reverse asked)) _ e in
      let (_, e₂) = throw_if-eq-ok (not (is_inside scope ancestor)) _ _ e₁ in
      let (leads, resolved_dots) = nearest_ancestor-LeadsTo (reverse asked) found in
      let below = is_inside-IsBelow scope ancestor (ground arith) resolved_dots in
      resolved-IsPlaced scope asked ancestor (fs asked) refl (ground arith) dots leads below e₂

scope_of-real : (r : Real) {scope : AbsolutePath} → scope_of r ≡ ok scope → r ≡ real scope
scope_of-real (real q) h = cc
scope_of-real missing h = cc
scope_of-real failing h = cc

-- If the real paths of the file system have no '..', a path that is resolved is the real path of the
-- file that the name asks for, or, if there is no such file, its path and then the nearest folder
-- above it that exists has its real path in the scope's real folder, and the path itself lies in
-- that folder with no '..' below it.
pub resolve_safe_path-IsBelow :
    (fs : FileSystem) (folder : AbsolutePath) (name : Name) {p : AbsolutePath}
    → IsResolved fs
    → resolve_safe_path fs folder name ≡ ok p
    → (kept : List Name) × (scope : AbsolutePath) × (sanitize_filename name ≡ ok kept)
      × (fs folder ≡ real scope)
      × IsBelow scope p
      × IsPlaced fs scope (resolve scope kept) p
unfolding resolve_safe_path
resolve_safe_path-IsBelow fs folder name {p} resolves h =
    let (kept, cleaned_name, e) = >>=-eq-ok (sanitize_filename name) _ h in
    let (scope, found, e₁) = >>=-eq-ok (scope_of (fs folder)) _ e in
    let there = scope_of-real (fs folder) found in
    let dots = resolve-NoDots kept scope (resolves folder scope there) in
    let (below, placed) = resolve_in-IsPlaced fs resolves scope (resolve scope kept) dots e₁ in
    (kept, scope, cleaned_name, there, below, placed)

-- A kept element passes the test.
filter-All : {A : Type 0} (p : A → Bool) (xs : List A) → All (λ x. p x ≡ true) (filter p xs)
filter-All p [] = tt
filter-All p (x ∷ xs) = elim (Bool-cases (p x)) [
  | inl t ↦ rw t (t, filter-All p xs)
  | inr t ↦ rw t (filter-All p xs)
]

-- What holds of every element of a list holds of what a second filter keeps.
filter-kept :
    {A : Type 0} (P : A → Type 0) (p : A → Bool) (xs : List A) → All P xs → All P (filter p xs)
filter-kept P p [] h = tt
filter-kept P p (x ∷ xs) (h, hs) = elim (Bool-cases (p x)) [
  | inl t ↦ rw t (h, filter-kept P p xs hs)
  | inr t ↦ rw t (filter-kept P p xs hs)
]

trim_start-kept : (P : ℕ → Type 0) (s : Name) → All P s → All P (trim_start s)
unfolding trim_start
trim_start-kept P [] h = tt
trim_start-kept P (c ∷ s) (h, hs) = elim (Bool-cases (is_space c)) [
  | inl t ↦ rw t (trim_start-kept P s hs)
  | inr t ↦ rw t (h, hs)
]

trim_before-kept : (P : ℕ → Type 0) (c : ℕ) (s : Name) → P c → All P s → All P (trim_before c s)
trim_before-kept P c [] h hs = elim (Bool-cases (is_space c)) [
  | inl t ↦ rw t tt
  | inr t ↦ rw t (h, tt)
]
trim_before-kept P c (d ∷ s) h hs = (h, hs)

trim_end-kept : (P : ℕ → Type 0) (s : Name) → All P s → All P (trim_end s)
unfolding trim_end
trim_end-kept P [] h = tt
trim_end-kept P (c ∷ s) (h, hs) = trim_before-kept P c (trim_end s) h (trim_end-kept P s hs)

-- No character of the segment is reserved.
abbrev pub IsClean : Name → Type 0
IsClean s = All (λ c. not (is_reserved c) ≡ true) s

clean-IsClean : (s : Name) → IsClean (clean s)
unfolding clean
clean-IsClean s = trim_end-kept _ _ (trim_start-kept _ _ (filter-All (λ c. not (is_reserved c)) s))

map-clean : (segments : List Name) → All IsClean (map clean segments)
map-clean [] = tt
map-clean (s ∷ segments) = (clean-IsClean s, map-clean segments)

check_segments-ok :
    (segments : List Name) {kept : List Name}
    → check_segments segments ≡ ok kept
    → (kept ≡ cleaned segments) × (is_empty kept ≡ false)
unfolding check_segments
check_segments-ok segments {kept} h = (ground arith, ground arith)

-- A name that is accepted comes out as at least one segment; no segment is empty, and none has a
-- reserved character.
pub sanitize_filename-IsClean :
    (name : Name) {kept : List Name}
    → sanitize_filename name ≡ ok kept
    → (is_empty kept ≡ false) × All (λ s. not (is_empty s) ≡ true) kept × All IsClean kept
unfolding sanitize_filename
sanitize_filename-IsClean name {kept} h =
    let segments = filter is_segment (split (map to_slash name)) in
    let checked : check_segments segments ≡ ok kept = ground arith in
    let (made, some_kept) = check_segments-ok segments checked in
    (
      some_kept,
      rw made (filter-All (λ s. not (is_empty s)) (map clean segments)),
      rw made (filter-kept IsClean (λ s. not (is_empty s)) _ (map-clean segments)),
    )
