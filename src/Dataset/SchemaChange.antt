-- ===== src/Dataset/SchemaChange.antt =====
-- `analyzeSchemaChange` of src/dataset/dataset.service.ts. A cell in the database is never NaN.
use documents_backend.Common.{
  ℕ, suc, String, Bool, true, false, not, ◌&&◌, ◌≡◌, ◌↔◌, Option, none, some, List, [], ◌∷◌, any,
  filter, find_last, length, nat_eq, str_eq, is_some, arith, Eq, ◌!=◌, if◌then◌else◌, Result, ok,
  ◌>>=◌,
}
use documents_backend.Common.Dict.{lookup}
use documents_backend.Dataset.Types.{
  Runtime, Value, to_number, to_text, is_blank, FieldType, text, number, boolean, date, datetime,
  time, select, DatasetField, DatasetRecord,
}
use documents_backend.Dataset.Validation.{is_boolean_value, is_time}
use documents_backend.Dataset.Store.{Store, find_dataset}
use documents_backend.Dataset.Records.{is_nil, found}

abbrev pub type_eq : FieldType → FieldType → Bool
type_eq text text = true
type_eq number number = true
type_eq boolean boolean = true
type_eq date date = true
type_eq datetime datetime = true
type_eq time time = true
type_eq select select = true
type_eq _ _ = false

pub type_eq_iff : (t u : FieldType) → (type_eq t u ≡ true) ↔ (t ≡ u)
type_eq_iff t u = ground arith

instance abbrev pub eq_field_type : Eq FieldType
eq_field_type = record { same = type_eq; same_iff = type_eq_iff }

pub record RemovedField : Type 0 where
  pub key : String
  pub name : String
  pub affected_records : ℕ

pub record TypeChange : Type 0 where
  pub key : String
  pub name : String
  pub old_type : FieldType
  pub new_type : FieldType
  pub incompatible_records : ℕ

pub record SchemaReport : Type 0 where
  pub removed_fields : List RemovedField
  pub type_changes : List TypeChange
  pub safe : Bool

-- `newKeys.has(key)`.
abbrev pub has_key : String → List DatasetField → Bool
has_key key schema = any (λ f. str_eq f.key key) schema

-- `oldFieldMap.get(key)`: of two columns with one key the map holds the later.
abbrev pub map_get : String → List DatasetField → Option DatasetField
map_get key schema = find_last (λ f. str_eq f.key key) schema

module _ (R : Runtime) where
  abbrev pub of_dataset : ℕ → List (DatasetRecord R) → List (DatasetRecord R)
  of_dataset id records = filter (λ r. nat_eq r.dataset id) records

  -- The cell is there, and neither null nor empty.
  abbrev pub has_value : String → DatasetRecord R → Bool
  has_value key r = not (is_blank R (lookup key r.data_))

  abbrev pub is_value_compatible : FieldType → Value R → Bool
  is_value_compatible number value = is_some (to_number R value)
  is_value_compatible boolean value = is_boolean_value R value
  is_value_compatible date value = R.is_date (to_text R value)
  is_value_compatible datetime value = R.is_date (to_text R value)
  is_value_compatible time value = is_time (to_text R value)
  is_value_compatible _ value = true

  abbrev pub is_compatible_cell : FieldType → Option (Value R) → Bool
  is_compatible_cell type none = true
  is_compatible_cell type (some value) = is_value_compatible type value

  unfoldable pub count_incompatible_records : String → FieldType → List (DatasetRecord R) → ℕ
  count_incompatible_records key type [] = 0
  count_incompatible_records key type (r ∷ records) =
      let rest = count_incompatible_records key type records in
      if has_value key r && not (is_compatible_cell type (lookup key r.data_))
      then suc rest
      else rest

  -- The report on one column that the new schema lacks, if a record has a value in it.
  abbrev pub removed : DatasetField → ℕ → List RemovedField → List RemovedField
  removed field count rest =
      if nat_eq count 0
      then rest
      else record { key = field.key; name = field.name; affected_records = count } ∷ rest

  unfoldable pub removed_fields :
      List DatasetField → List DatasetField → List (DatasetRecord R) → List RemovedField
  removed_fields new [] records = []
  removed_fields new (field ∷ old) records =
      let rest = removed_fields new old records in
      if has_key field.key new
      then rest
      else removed field (length (filter (has_value field.key) records)) rest

  -- The report on one column of the new schema that was there with another type.
  abbrev pub changed :
      DatasetField
      → Option DatasetField
      → List (DatasetRecord R)
      → List TypeChange
      → List TypeChange
  changed field none records rest = rest
  changed field (some old_field) records rest =
      if old_field.type != field.type
      then record {
        key = field.key;
        name = field.name;
        old_type = old_field.type;
        new_type = field.type;
        incompatible_records = count_incompatible_records field.key field.type records;
      }
        ∷ rest
      else rest

  unfoldable pub type_changes :
      List DatasetField → List DatasetField → List (DatasetRecord R) → List TypeChange
  type_changes [] old records = []
  type_changes (field ∷ new) old records =
      changed field (map_get field.key old) records (type_changes new old records)

  abbrev pub report_on :
      List DatasetField → List DatasetField → List (DatasetRecord R) → SchemaReport
  report_on old new records =
      let gone = removed_fields new old records in
      let changes = type_changes new old records in
      record { removed_fields = gone; type_changes = changes; safe = is_nil gone && is_nil changes }

  unfoldable pub analyze_schema_change : ℕ → List DatasetField → Store R → Result SchemaReport
  analyze_schema_change id new s = found "Dataset not found" (find_dataset id s) >>= λ dataset.
      ok (report_on dataset.schema new (of_dataset id s.records))
