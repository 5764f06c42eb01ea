-- ===== src/Dataset/Source.antt =====
-- The operations of src/dataset/dataset.service.ts on datasets, with their sources.
use documents_backend.Common.{
  ℕ, suc, String, Bool, true, false, not, ◌&&◌, ◌||◌, Option, none, some, List, [], ◌∷◌, ◌++◌, all,
  filter, nat_eq, str_eq, get_or, or_else, is_some, if◌then◌else◌, Result, ok, bad_request,
  throw_if, ◌>>=◌, ◌>>◌,
}
use documents_backend.Common.Dict.{Dict, lookup}
use documents_backend.Dataset.Types.{Runtime, Value, DatasetField}
use documents_backend.Dataset.Store.{
  SourceMode, manual, project_resources, resource_selection, ConfigItem, text_item, finite_number,
  ConfigValue, array, Dataset, Store, find_dataset, save_dataset, delete_where,
}
use documents_backend.Dataset.Records.{is_nil, found, Imported, import_validated_records}

-- A number of a request that is not 0: `if (id)`.
abbrev pub nonzero : Option ℕ → Option ℕ
nonzero none = none
nonzero (some n) = if nat_eq n 0 then none else some n

-- `text || null`.
abbrev pub nonempty : Option String → Option String
nonempty none = none
nonempty (some s) = if str_eq s "" then none else some s

abbrev is_text_item : ConfigItem → Bool
is_text_item text_item = true
is_text_item _ = false

abbrev is_finite_number : ConfigItem → Bool
is_finite_number finite_number = true
is_finite_number _ = false

unfoldable pub normalize_source_config : SourceMode → Option (Dict ConfigValue) → Dict ConfigValue
normalize_source_config manual raw = []
normalize_source_config _ raw = get_or raw []

-- A `resourceTypeFilter` that is there is an array of texts.
abbrev pub is_type_filter : Option ConfigValue → Bool
is_type_filter none = true
is_type_filter (some (array items)) = all is_text_item items
is_type_filter (some _) = false

abbrev pub is_id_list : Option ConfigValue → Bool
is_id_list (some (array items)) = not (is_nil items) && all is_finite_number items
is_id_list _ = false

unfoldable pub validate_source_config : SourceMode → Dict ConfigValue → Option ℕ → Result (Unit {0})
validate_source_config manual config project_id = ok tt
validate_source_config project_resources config project_id =
    throw_if (not (is_some (nonzero project_id)))
      (bad_request "sourceMode 'project_resources' requires the dataset to have a projectId")
    >> throw_if (not (is_type_filter (lookup "resourceTypeFilter" config)))
        (bad_request "sourceConfig.resourceTypeFilter must be an array of strings")
validate_source_config resource_selection config project_id =
    throw_if (not (is_id_list (lookup "resourceIds" config))) (
      bad_request
        "sourceMode 'resource_selection' requires sourceConfig.resourceIds to be a non-empty number[]")

pub record CreateDataset : Type 0 where
  pub name : String
  pub description : Option String
  pub project_id : Option ℕ
  pub schema : List DatasetField
  pub source_mode : Option SourceMode
  pub source_config : Option (Dict ConfigValue)

-- A field of an update that is there may be null.
pub record UpdateDataset : Type 0 where
  pub name : Option String
  pub description : Option (Option String)
  pub project_id : Option (Option ℕ)
  pub schema : Option (List DatasetField)
  pub source_mode : Option SourceMode
  pub source_config : Option (Dict ConfigValue)

abbrev pub new_description : Option (Option String) → Option String → Option String
new_description none old = old
new_description (some description) old = nonempty description

abbrev pub new_project : Option (Option ℕ) → Option ℕ → Option ℕ
new_project none old = old
new_project (some project) old = nonzero project

-- The assignments of the fields that an update has.
abbrev pub assigned : UpdateDataset → Dataset → Dataset
assigned dto d = record d {
  name = get_or dto.name d.name;
  description = new_description dto.description d.description;
  schema = get_or dto.schema d.schema;
  project = new_project dto.project_id d.project;
}

-- What happens if the update names a mode or a configuration.
abbrev pub resourced : UpdateDataset → Dataset → Result Dataset
resourced dto d =
    let mode = get_or dto.source_mode d.source_mode in
    let config = normalize_source_config mode (or_else dto.source_config (some d.source_config)) in
    validate_source_config mode config (get_or dto.project_id d.project)
    >> ok (record d { source_mode = mode; source_config = config })

abbrev pub names_source : UpdateDataset → Bool
names_source dto = is_some dto.source_mode || is_some dto.source_config

module _ (R : Runtime) where
  abbrev pub insert_dataset : Dataset → Store R → Store R
  insert_dataset d s = record s { datasets = s.datasets ++ d ∷ []; next = suc s.next }

  unfoldable pub create_dataset : CreateDataset → Store R → Result (Dataset × Store R)
  create_dataset dto s =
      let mode = get_or dto.source_mode manual in
      let config = normalize_source_config mode dto.source_config in
      let d : Dataset = record {
        id = s.next;
        name = dto.name;
        description = nonempty dto.description;
        project = nonzero dto.project_id;
        schema = dto.schema;
        source_mode = mode;
        source_config = config;
      } in
      validate_source_config mode config dto.project_id >> ok (d, insert_dataset d s)

  unfoldable pub update_dataset : ℕ → UpdateDataset → Store R → Result (Dataset × Store R)
  update_dataset id dto s = found "Dataset not found" (find_dataset id s) >>= λ dataset.
      let d = assigned dto dataset in
      (if names_source dto then resourced dto d else ok d) >>= λ saved.
      ok (saved, record s { datasets = save_dataset saved s.datasets })

  -- A dataset goes with its records and relations, and these with their links.
  unfoldable pub remove_dataset : ℕ → Store R → Result (Store R)
  remove_dataset id s = found "Dataset not found" (find_dataset id s) >>= λ _.
      ok
        (record (delete_where (λ r. not (nat_eq r.dataset id))
          (λ r. not (nat_eq r.source_dataset id || nat_eq r.target_dataset id)) (λ _. true) s) {
            datasets = filter (λ d. not (nat_eq d.id id)) s.datasets;
          })

  unfoldable pub create_from_csv :
      String
      → List DatasetField
      → List (Dict (Value R))
      → Option ℕ
      → Store R
      → (Dataset × Imported) × Store R
  create_from_csv name schema rows project_id s =
      let d : Dataset = record {
        id = s.next;
        name = name;
        description = none;
        project = nonzero project_id;
        schema = schema;
        source_mode = manual;
        source_config = [];
      } in
      let (imported, after) = import_validated_records R s.next schema rows (insert_dataset d s) in
      ((d, imported), after)
