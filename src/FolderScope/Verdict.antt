-- ===== src/FolderScope/Verdict.antt =====
-- Which folders `validateFolderScope` of src/assistant/folder-scope.validator.ts accepts, and which
-- it refuses as forbidden.
use mathlib.Core.Path.{subst}
use documents_backend.Common.{
  String, Bool, true, false, ◌≡◌, ◌≢◌, refl, sym, ◌∙◌, ◌↔◌, ◌⊎◌, List, [], ◌∷◌, All, any, str_eq,
  eq_iff, inl, inr, if◌then◌else◌, Bool-cases, arith, ok,
}
use documents_backend.FolderScope.{
  Answer, there, missing, failing, Host, not_absolute, not_found, forbidden_path,
  posix_forbidden_roots, windows_forbidden_roots, Validation, accepted, refused, backslashed,
  is_forbidden_path, check_folder, check_real, validate_folder_scope,
}

-- The input leads to a folder: it is an absolute path whose links end at the folder.
pub record LeadsTo (host : Host) (input folder : String) : Type 0 where
  pub is_path : host.is_absolute input ≡ true
  pub is_real : host.realpath input ≡ there folder
  pub is_folder : host.stat folder ≡ there true

-- The folder is none of those of the system. A Windows path is compared with backslashes, and its
-- case does not matter.
abbrev pub IsNoSystemFolder : Bool → Host → String → Type 0
IsNoSystemFolder true host folder =
    All (λ root. host.to_lower (backslashed folder) ≢ host.to_lower root)
      ("C:\\" ∷ "C:\\Windows" ∷ "C:\\Program Files" ∷ "C:\\Program Files (x86)" ∷ [])
IsNoSystemFolder false host folder =
    All (λ root. folder ≢ root)
      ("/" ∷ "/etc" ∷ "/bin" ∷ "/sbin" ∷ "/usr" ∷ "/var" ∷ "/boot" ∷ "/sys" ∷ "/proc" ∷ "/dev"
        ∷ "/lib" ∷ "/lib64" ∷ [])

abbrev pub IsOpen : Host → String → Type 0
IsOpen host folder = (folder ≢ "~") × IsNoSystemFolder host.windows host folder

str_eq-no : (s t : String) → (str_eq s t ≡ false) ↔ (s ≢ t)
str_eq-no s t = ground (arith, eq_iff s t)

any-All :
    {A : Type 0} (p : A → Bool) (P : A → Type 0) (xs : List A)
    → ((x : A) → (p x ≡ false) ↔ P x)
    → (any p xs ≡ false) ↔ All P xs
any-All p P [] h = (λ _. tt, λ _. refl)
any-All p P (x ∷ xs) h =
    let rest = any-All p P xs h in
    (
      λ none. ((h x).0 (ground arith), rest.0 (ground arith)),
      λ (first, others). let a = (h x).1 first in let b = rest.1 others in ground arith,
    )

module _ (host : Host) where
  listed-IsNoSystemFolder :
      (windows : Bool) (folder : String)
      → ((if windows
            then any
                (λ root. str_eq (host.to_lower (backslashed folder)) (host.to_lower root))
                windows_forbidden_roots
            else any (λ root. str_eq root folder) posix_forbidden_roots)
          ≡ false)
        ↔ IsNoSystemFolder windows host folder
  listed-IsNoSystemFolder true folder =
      any-All (λ root. str_eq (host.to_lower (backslashed folder)) (host.to_lower root))
        (λ root. host.to_lower (backslashed folder) ≢ host.to_lower root) windows_forbidden_roots
        (λ root. str_eq-no (host.to_lower (backslashed folder)) (host.to_lower root))
  listed-IsNoSystemFolder false folder =
      any-All (λ root. str_eq root folder) (λ root. folder ≢ root) posix_forbidden_roots
        (λ root.
          let (forth, back) = str_eq-no root folder in
          (λ e same. forth e (sym same), λ differ. back (λ same. differ (sym same))))

  is_forbidden_path-IsOpen :
      (folder : String) → (is_forbidden_path host folder ≡ false) ↔ IsOpen host folder
  unfolding is_forbidden_path
  is_forbidden_path-IsOpen folder =
      let listed = listed-IsNoSystemFolder host.windows folder in
      elim (Bool-cases (str_eq folder "~")) [
        | inl t ↦
            let home = (eq_iff folder "~").0 t in
            (λ open_. absurd (cc (rw t at open_)), λ (not_home, _). absurd (not_home home))
        | inr t ↦
            let not_home = (str_eq-no folder "~").0 t in
            (λ open_. (not_home, listed.0 (rw t at open_)), λ (_, h). rw t (listed.1 h))
      ]

module _ (host : Host) (input : String) where
  check_folder-accepted :
      (folder : String) {accepted_as : String} (answer : Answer Bool)
      → check_folder host folder answer ≡ ok (accepted accepted_as)
      → (answer ≡ there true) × (folder ≡ accepted_as) × (is_forbidden_path host folder ≡ false)
  check_folder-accepted folder missing h = cc
  check_folder-accepted folder failing h = cc
  check_folder-accepted folder (there false) h = cc
  check_folder-accepted folder (there true) h = elim (Bool-cases (is_forbidden_path host folder)) [
    | inl t ↦ absurd (cc (rw t at h))
    | inr t ↦ (refl, cc (rw t at h), t)
  ]

  check_folder-forbidden :
      (folder : String) (answer : Answer Bool)
      → check_folder host folder answer ≡ ok (refused forbidden_path)
      → (answer ≡ there true) × (is_forbidden_path host folder ≡ true)
  check_folder-forbidden folder missing h = cc
  check_folder-forbidden folder failing h = cc
  check_folder-forbidden folder (there false) h = cc
  check_folder-forbidden folder (there true) h = elim (Bool-cases (is_forbidden_path host folder)) [
    | inl t ↦ (refl, t)
    | inr t ↦ absurd (cc (rw t at h))
  ]

  check_real-there :
      (answer : Answer String) {result : Validation}
      → check_real host answer ≡ ok result
      → result ≢ refused not_found
      → (folder : String) × (answer ≡ there folder)
        × (check_folder host folder (host.stat folder) ≡ ok result)
  check_real-there missing h differ = absurd (differ (cc))
  check_real-there failing h differ = cc
  check_real-there (there folder) h differ = (folder, refl, h)

  -- The call comes past the first two refusals.
  validated-real :
      {result : Validation}
      → validate_folder_scope host input ≡ ok result
      → input ≢ "~"
      → result ≢ refused not_absolute
      → (host.is_absolute input ≡ true) × (check_real host (host.realpath input) ≡ ok result)
  unfolding validate_folder_scope
  validated-real h not_home differ =
      let other = (str_eq-no input "~").1 not_home in
      elim (Bool-cases (host.is_absolute input)) [
        | inl a ↦ (a, rw (other, a) at h)
        | inr a ↦ absurd (differ (cc (rw (other, a) at h)))
      ]

  validated-not_home :
      {folder : String} → validate_folder_scope host input ≡ ok (accepted folder) → input ≢ "~"
  unfolding validate_folder_scope
  validated-not_home h home = cc (rw ((eq_iff input "~").1 home) at h)

  validate_leading :
      (folder : String)
      → input ≢ "~"
      → LeadsTo host input folder
      → validate_folder_scope host input ≡ check_folder host folder (there true)
  unfolding validate_folder_scope
  validate_leading folder not_home l =
      rw ((str_eq-no input "~").1 not_home, l.is_path, l.is_real, l.is_folder) refl

  accepted-IsOpen :
      (folder : String)
      → validate_folder_scope host input ≡ ok (accepted folder)
      → (input ≢ "~") × LeadsTo host input folder × IsOpen host folder
  accepted-IsOpen folder h =
      let not_home = validated-not_home h in
      let (absolute, e) = validated-real h not_home (λ e. cc) in
      let (found, is_real, e₁) = check_real-there (host.realpath input) e (λ e. cc) in
      let (dir, same, allowed) = check_folder-accepted found (host.stat found) e₁ in
      (
        not_home,
        subst (LeadsTo host input) same
            (record { is_path = absolute; is_real = is_real; is_folder = dir }),
        subst (IsOpen host) same ((is_forbidden_path-IsOpen host found).0 allowed),
      )

  forbidden-not-IsOpen :
      validate_folder_scope host input ≡ ok (refused forbidden_path)
      → (input ≡ "~") ⊎ ((folder : String) × LeadsTo host input folder × ¬ IsOpen host folder)
  forbidden-not-IsOpen h = elim (Bool-cases (str_eq input "~")) [
    | inl t ↦ inl ((eq_iff input "~").0 t)
    | inr t ↦
        let (absolute, e) = validated-real h ((str_eq-no input "~").0 t) (λ e. cc) in
        let (found, is_real, e₁) = check_real-there (host.realpath input) e (λ e. cc) in
        let (dir, closed) = check_folder-forbidden found (host.stat found) e₁ in
        inr (
          found,
          record { is_path = absolute; is_real = is_real; is_folder = dir },
          λ open_.
              let no = (is_forbidden_path-IsOpen host found).1 open_ in absurd (cc (closed, no)),
        )
  ]

  not-IsOpen-forbidden :
      (input ≡ "~") ⊎ ((folder : String) × LeadsTo host input folder × ¬ IsOpen host folder)
      → validate_folder_scope host input ≡ ok (refused forbidden_path)
  unfolding validate_folder_scope
  not-IsOpen-forbidden h = elim (Bool-cases (str_eq input "~")) [
    | inl t ↦ rw t refl
    | inr t ↦ elim h [
      | inl home ↦ absurd ((str_eq-no input "~").0 t home)
      | inr (folder, leads, closed) ↦ elim (Bool-cases (is_forbidden_path host folder)) [
        | inl f ↦ validate_leading folder ((str_eq-no input "~").0 t) leads ∙ rw f refl
        | inr f ↦ absurd (closed ((is_forbidden_path-IsOpen host folder).0 f))
      ]
    ]
  ]

  -- A folder is accepted exactly when it is the real end of an absolute path other than '~', is a
  -- folder and is none of those of the system; and the answer is that it is forbidden exactly when
  -- the path is '~' or leads to one of those.
  pub validate_folder_scope-IsOpen :
      (folder : String)
      → ((validate_folder_scope host input ≡ ok (accepted folder))
          ↔ ((input ≢ "~") × LeadsTo host input folder × IsOpen host folder))
        × ((validate_folder_scope host input ≡ ok (refused forbidden_path)) ↔ (
            (input ≡ "~") ⊎ ((closed : String) × LeadsTo host input closed × ¬ IsOpen host closed)))
  validate_folder_scope-IsOpen folder = (
    (
      accepted-IsOpen folder,
      λ (not_home, leads, open_).
          validate_leading folder not_home leads
          ∙ rw ((is_forbidden_path-IsOpen host folder).1 open_) refl,
    ),
    (forbidden-not-IsOpen, not-IsOpen-forbidden),
  )
