-- ===== src/IndexedFile/Filename.antt =====
-- `sanitizeFilename` of src/indexed-file/path.util.ts. A name is the list of its code units, and
-- a path the list of its segments: the text that is returned is these, joined by slashes.
use documents_backend.Common.{
  filter, ℕ, leb, nat_eq, Bool, true, false, not, ◌&&◌, ◌||◌, List, [], ◌∷◌, map, any,
  if◌then◌else◌, Result, ok, err, forbidden,
}
use documents_backend.Common.Text.{is_space}

abbrev pub Name : Type 0
Name = List ℕ

abbrev pub slash : ℕ
slash = 47

-- `name.replace(/\\/g, '/')`.
abbrev pub to_slash : ℕ → ℕ
to_slash c = if nat_eq c 92 then slash else c

-- The first segment and those after it.
abbrev prepend : ℕ → List Name → List Name
prepend c [] = (c ∷ []) ∷ []
prepend c (s ∷ ss) = (c ∷ s) ∷ ss

-- `normalized.split('/')`.
unfoldable pub split : Name → List Name
split [] = [] ∷ []
split (c ∷ cs) = let rest = split cs in if nat_eq c slash then [] ∷ rest else prepend c rest

abbrev pub is_empty {ℓ} : {A : Type ℓ} → List A → Bool
is_empty [] = true
is_empty _ = false

abbrev pub is_dot : Name → Bool
is_dot (c ∷ []) = nat_eq c 46
is_dot _ = false

abbrev pub is_dot_dot : Name → Bool
is_dot_dot (c ∷ d ∷ []) = nat_eq c 46 && nat_eq d 46
is_dot_dot _ = false

-- The class `RESERVED_CHARS`.
unfoldable pub is_reserved : ℕ → Bool
is_reserved c =
    nat_eq c 60
    || nat_eq c 62
    || nat_eq c 58
    || nat_eq c 34
    || nat_eq c 124
    || nat_eq c 63
    || nat_eq c 42
    || leb c 31

unfoldable pub trim_start : Name → Name
trim_start [] = []
trim_start (c ∷ cs) = if is_space c then trim_start cs else c ∷ cs

-- A character is kept if one after it is kept, or if it is no space itself.
abbrev pub trim_before : ℕ → Name → Name
trim_before c [] = if is_space c then [] else c ∷ []
trim_before c (d ∷ ds) = c ∷ d ∷ ds

unfoldable pub trim_end : Name → Name
trim_end [] = []
trim_end (c ∷ cs) = trim_before c (trim_end cs)

unfoldable pub clean : Name → Name
clean s = trim_end (trim_start (filter (λ c. not (is_reserved c)) s))

abbrev pub is_segment : Name → Bool
is_segment s = not (is_empty s) && not (is_dot s)

-- What is left of a segment, if anything is.
abbrev pub cleaned : List Name → List Name
cleaned segments = filter (λ s. not (is_empty s)) (map clean segments)

unfoldable pub check_segments : List Name → Result (List Name)
check_segments segments =
    if is_empty segments
    then err (forbidden "invalid_filename")
    else if any is_dot_dot segments
    then err (forbidden "path_outside_scope")
    else if is_empty (cleaned segments)
    then err (forbidden "invalid_filename")
    else ok (cleaned segments)

unfoldable pub sanitize_filename : Name → Result (List Name)
sanitize_filename name =
    if is_empty name
    then err (forbidden "invalid_filename")
    else check_segments (filter is_segment (split (map to_slash name)))
