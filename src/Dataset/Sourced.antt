-- ===== src/Dataset/Sourced.antt =====
-- The sources of datasets in src/dataset/dataset.service.ts stay as they were validated.
use documents_backend.Common.{
  ℕ, Bool, true, false, not, ◌≡◌, refl, ap, ◌∙◌, Option, none, some, List, [], ◌∷◌, ◌++◌, All,
  All-append, All-find, nat_eq, is_some, get_or, or_else, if◌then◌else◌, arith, inl, inr, ◌⊎◌,
  Bool-cases, ok, >>=-eq-ok, throw_if-eq-ok,
}
use documents_backend.Common.Dict.{Dict}
use documents_backend.Dataset.Types.{Runtime}
use documents_backend.Dataset.Store.{
  SourceMode, manual, project_resources, resource_selection, ConfigValue, Dataset, Store,
  find_dataset, save_dataset,
}
use documents_backend.Dataset.Records.{found-eq-ok}
use documents_backend.Dataset.Source.{
  nonzero, new_project, normalize_source_config, validate_source_config, CreateDataset,
  UpdateDataset, assigned, resourced, names_source, create_dataset, update_dataset,
}

-- The source passes its validation with the project of the dataset.
abbrev pub IsSourced : Dataset → Type 0
IsSourced d = validate_source_config d.source_mode d.source_config d.project ≡ ok tt

unit_same : (u : Unit {0}) → u ≡ tt
unit_same tt = refl

-- A project number of 0 counts as none, before and after it is stored.
nonzero-again : (p : Option ℕ) → is_some (nonzero (nonzero p)) ≡ is_some (nonzero p)
nonzero-again none = refl
nonzero-again (some n) = elim (Bool-cases (nat_eq n 0)) [
  | inl t ↦ rw t refl
  | inr t ↦ rw t (rw t refl)
]

validate-nonzero :
    (mode : SourceMode) (config : Dict ConfigValue) (p : Option ℕ)
    → validate_source_config mode config (nonzero p) ≡ validate_source_config mode config p
unfolding validate_source_config
validate-nonzero manual config p = refl
validate-nonzero project_resources config p = rw (nonzero-again p) refl
validate-nonzero resource_selection config p = refl

-- The update does not take the project away.
abbrev pub KeepsProject : UpdateDataset → Type 0
KeepsProject dto =
    (dto.project_id ≡ none)
    ⊎ ((p : Option ℕ) × (dto.project_id ≡ some p) × (is_some (nonzero p) ≡ true))

-- The project that an update stores passes as the one that its validation saw.
validate-new_project :
    (mode : SourceMode) (config : Dict ConfigValue) (o : Option (Option ℕ)) (old : Option ℕ)
    → validate_source_config mode config (new_project o old)
      ≡ validate_source_config mode config (get_or o (new_project o old))
validate-new_project mode config none old = refl
validate-new_project mode config (some p) old = validate-nonzero mode config p

resourced-IsSourced :
    (dto : UpdateDataset) (old : Dataset) {d : Dataset}
    → resourced dto (assigned dto old) ≡ ok d
    → IsSourced d
resourced-IsSourced dto old {d} e =
    let now = assigned dto old in
    let mode = get_or dto.source_mode now.source_mode in
    let config =
      normalize_source_config mode (or_else dto.source_config (some now.source_config)) in
    let (u, valid, e₁) =
      >>=-eq-ok (validate_source_config mode config (get_or dto.project_id now.project)) _ e in
    let kept =
      validate-new_project mode config dto.project_id old.project ∙ (valid ∙ ap ok (unit_same u)) in
    let same : record now { source_mode = mode; source_config = config } ≡ d = cc in
    rw (← same) kept

-- A dataset whose project is not taken away keeps a source that passed.
new_project-IsSourced :
    (mode : SourceMode) (config : Dict ConfigValue) (o : Option (Option ℕ)) (old : Option ℕ)
    → (o ≡ none) ⊎ ((p : Option ℕ) × (o ≡ some p) × (is_some (nonzero p) ≡ true))
    → validate_source_config mode config old ≡ ok tt
    → validate_source_config mode config (new_project o old) ≡ ok tt
unfolding validate_source_config
new_project-IsSourced manual config o old kept h = refl
new_project-IsSourced resource_selection config o old kept h = h
new_project-IsSourced project_resources config o old (inl none_given) h = rw none_given h
new_project-IsSourced project_resources config o old (inr (p, given, there)) h =
    rw given (rw (nonzero-again p, there) (throw_if-eq-ok (not (is_some (nonzero old))) _ _ h).1)

made-IsSourced :
    (b : Bool) (dto : UpdateDataset) (old : Dataset) {saved : Dataset}
    → (b ≡ true) ⊎ KeepsProject dto
    → (if b then resourced dto (assigned dto old) else ok (assigned dto old)) ≡ ok saved
    → IsSourced old
    → IsSourced saved
made-IsSourced true dto old kept e h = resourced-IsSourced dto old e
made-IsSourced false dto old (inl k) e h = cc
made-IsSourced false dto old {saved} (inr k) e h =
    let same : assigned dto old ≡ saved = cc in
    rw (← same)
      (new_project-IsSourced old.source_mode old.source_config dto.project_id old.project k h)

module _ (R : Runtime) where
  -- A dataset that is created has a source that passed its validation.
  create_dataset-IsSourced :
      (dto : CreateDataset) (s : Store R) {d : Dataset} {t : Store R}
      → create_dataset R dto s ≡ ok (d, t)
      → IsSourced d
  unfolding create_dataset
  create_dataset-IsSourced dto s {d} {t} e =
      let mode = get_or dto.source_mode manual in
      let config = normalize_source_config mode dto.source_config in
      let (u, valid, e₁) = >>=-eq-ok (validate_source_config mode config dto.project_id) _ e in
      let kept = validate-nonzero mode config dto.project_id ∙ valid in
      ground (arith, kept, unit_same u)

  update_dataset-IsSourced :
      (id : ℕ) (dto : UpdateDataset) (s : Store R) {d : Dataset} {t : Store R}
      → update_dataset R id dto s ≡ ok (d, t)
      → (names_source dto ≡ true) ⊎ KeepsProject dto
      → (old : Dataset) × (find_dataset id s ≡ some old) × (IsSourced old → IsSourced d)
  unfolding update_dataset
  update_dataset-IsSourced id dto s {d} {t} e kept =
      let (old, there, e₁) = found-eq-ok _ (find_dataset id s) _ e in
      let now = assigned dto old in
      let (saved, made, e₂) =
        >>=-eq-ok (if names_source dto then resourced dto now else ok now) _ e₁ in
      let same : saved ≡ d = cc in
      (old, there, λ h. rw (← same) (made-IsSourced (names_source dto) dto old kept made h))

save_dataset-All :
    (P : Dataset → Type 0) (d : Dataset) (datasets : List Dataset)
    → P d
    → All P datasets
    → All P (save_dataset d datasets)
unfolding save_dataset
save_dataset-All P d [] h hs = tt
save_dataset-All P d (x ∷ datasets) h (here, hs) = elim (Bool-cases (nat_eq x.id d.id)) [
  | inl t ↦ rw t (h, hs)
  | inr t ↦ rw t (here, save_dataset-All P d datasets h hs)
]

-- The requests that write a source, or a project beside one.
pub data SourceStep {R : Runtime} (s : Store R) : Store R → Type 0 where
  created :
      (dto : CreateDataset) {d : Dataset} {t : Store R}
      → create_dataset R dto s ≡ ok (d, t)
      → SourceStep s t
  updated :
      (id : ℕ) (dto : UpdateDataset) {d : Dataset} {t : Store R}
      → update_dataset R id dto s ≡ ok (d, t)
      → (names_source dto ≡ true) ⊎ KeepsProject dto
      → SourceStep s t

module _ {R : Runtime} where
  abbrev pub AllSourced : Store R → Type 0
  AllSourced s = All IsSourced s.datasets

  created_store :
      (dto : CreateDataset) (s : Store R) {d : Dataset} {t : Store R}
      → create_dataset R dto s ≡ ok (d, t)
      → t.datasets ≡ s.datasets ++ d ∷ []
  unfolding create_dataset
  created_store dto s {d} {t} e =
      let mode = get_or dto.source_mode manual in
      let config = normalize_source_config mode dto.source_config in
      let (u, valid, e₁) = >>=-eq-ok (validate_source_config mode config dto.project_id) _ e in
      ground arith

  updated_store :
      (id : ℕ) (dto : UpdateDataset) (s : Store R) {d : Dataset} {t : Store R}
      → update_dataset R id dto s ≡ ok (d, t)
      → t.datasets ≡ save_dataset d s.datasets
  unfolding update_dataset
  updated_store id dto s {d} {t} e =
      let (old, there, e₁) = found-eq-ok _ (find_dataset id s) _ e in
      let now = assigned dto old in
      let (saved, made, e₂) =
        >>=-eq-ok (if names_source dto then resourced dto now else ok now) _ e₁ in
      ground arith

  -- While every source in the table has passed its validation, a dataset that is created, and one
  -- that is updated with its source or without losing its project, leave it so.
  pub SourceStep-AllSourced :
      (s : Store R) {t : Store R} → SourceStep s t → AllSourced s → AllSourced t
  SourceStep-AllSourced s (created dto {d} e) h =
      rw (created_store dto s e)
        (All-append IsSourced s.datasets (d ∷ []) h (create_dataset-IsSourced R dto s e, tt))
  SourceStep-AllSourced s (updated id dto {d} e kept) h =
      let (old, there, sourced) = update_dataset-IsSourced R id dto s e kept in
      rw (updated_store id dto s e) (
        save_dataset-All IsSourced d s.datasets (sourced (All-find IsSourced _ s.datasets h there))
          h)
