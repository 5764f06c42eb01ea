-- ===== src/Dataset/Cleaning.antt =====
-- `cleanRecordData` of src/dataset/dataset.service.ts.
use documents_backend.Common.{
  String, Option, none, some, List, [], ◌∷◌, str_eq, find, if◌then◌else◌,
}
use documents_backend.Common.Dict.{Dict}
use documents_backend.Dataset.Types.{
  Runtime, Value, null, nan, bool, num, to_number, is_blank, FieldType, number, boolean,
  DatasetField,
}
use documents_backend.Dataset.Validation.{is_true_value}

-- `schema.find(f => f.key === key)`.
abbrev pub field_of : List DatasetField → String → Option DatasetField
field_of schema key = find (λ f. str_eq f.key key) schema

module _ (R : Runtime) where
  abbrev pub number_or_nan : Option R.Num → Value R
  number_or_nan none = nan
  number_or_nan (some n) = num n

  unfoldable pub clean_typed : FieldType → Value R → Value R
  clean_typed number value = number_or_nan (to_number R value)
  clean_typed boolean value = bool (is_true_value R value)
  clean_typed _ value = value

  unfoldable pub clean_value : DatasetField → Value R → Value R
  clean_value field value = if is_blank R (some value) then null else clean_typed field.type value

  -- What is left of a cell: nothing, if its key is not in the schema.
  abbrev pub clean_cell : Option DatasetField → Value R → Option (Value R)
  clean_cell none value = none
  clean_cell (some field) value = some (clean_value field value)

  abbrev pub keep_cell : String → Option (Value R) → Dict (Value R) → Dict (Value R)
  keep_cell key none rest = rest
  keep_cell key (some value) rest = (key, value) ∷ rest

  -- The entries of an object have distinct keys, so an assignment to `clean[key]` adds at the end.
  unfoldable pub clean_record_data : List DatasetField → Dict (Value R) → Dict (Value R)
  clean_record_data schema [] = []
  clean_record_data schema ((key, value) ∷ entries) =
      keep_cell key (clean_cell (field_of schema key) value) (clean_record_data schema entries)
