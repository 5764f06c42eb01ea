-- ===== src/Dataset/Validation.antt =====
-- `validateRecordData` of src/dataset/dataset.service.ts.
use Prim.Native.String.{◌++◌ as ◌<>◌}
use documents_backend.Common.{
  ℕ, String, Bool, true, false, ◌&&◌, ◌||◌, Option, none, some, List, [], ◌∷◌, ◌++◌, any, str_eq,
  is_some, if◌then◌else◌,
}
use documents_backend.Common.Dict.{Dict, lookup}
use documents_backend.Common.Text.{codes, fits, is_digit, is_colon}
use documents_backend.Dataset.Types.{
  Runtime, Value, bool, str, to_number, to_text, is_blank, FieldType, text, number, boolean, date,
  datetime, time, select, DatasetField,
}

-- `\d{2}:\d{2}` and the same with seconds.
abbrev minutes_pattern : List (ℕ → Bool)
minutes_pattern = is_digit ∷ is_digit ∷ is_colon ∷ is_digit ∷ is_digit ∷ []

abbrev seconds_pattern : List (ℕ → Bool)
seconds_pattern = minutes_pattern ++ is_colon ∷ is_digit ∷ is_digit ∷ []

unfoldable pub is_time : String → Bool
is_time s = fits minutes_pattern (codes s) || fits seconds_pattern (codes s)

-- `options.join(', ')`.
unfoldable pub joined : List String → String
joined [] = ""
joined (s ∷ []) = s
joined (s ∷ t ∷ ss) = s <> (", " <> joined (t ∷ ss))

-- `options.includes(value)`.
abbrev pub includes : List String → String → Bool
includes options s = any (λ o. str_eq o s) options

abbrev pub complaint : DatasetField → String → String
complaint field rest = "Field \"" <> (field.name <> ("\" " <> rest))

module _ (R : Runtime) where
  -- `value === true` and `value === 'true'`, and the same of false.
  abbrev pub is_true_value : Value R → Bool
  is_true_value (bool b) = b
  is_true_value (str s) = str_eq s "true"
  is_true_value _ = false

  abbrev pub is_boolean_value : Value R → Bool
  is_boolean_value (bool b) = true
  is_boolean_value (str s) = str_eq s "true" || str_eq s "false"
  is_boolean_value _ = false

  abbrev pub is_option : Option (List String) → String → Bool
  is_option none s = true
  is_option (some options) s = includes options s

  abbrev pub option_list : Option (List String) → String
  option_list none = ""
  option_list (some options) = joined options

  -- The message of one case of the `switch`, if its test fails.
  abbrev unless : Bool → String → List String
  unless true message = []
  unless false message = message ∷ []

  unfoldable pub type_errors : DatasetField → FieldType → Value R → List String
  type_errors field text value = []
  type_errors field number value =
      unless (is_some (to_number R value)) (complaint field "must be a valid number")
  type_errors field boolean value =
      unless (is_boolean_value value) (complaint field "must be a boolean")
  type_errors field date value =
      unless (R.is_date (to_text R value)) (complaint field "must be a valid date")
  type_errors field datetime value =
      unless (R.is_date (to_text R value)) (complaint field "must be a valid datetime")
  type_errors field time value =
      unless (is_time (to_text R value))
        (complaint field "must be a valid time (HH:mm or HH:mm:ss)")
  type_errors field select value =
      unless (is_option field.options (to_text R value))
        (complaint field ("must be one of: " <> option_list field.options))

  abbrev typed_errors : DatasetField → Option (Value R) → List String
  typed_errors field none = []
  typed_errors field (some value) = type_errors field field.type value

  unfoldable pub field_errors : DatasetField → Option (Value R) → List String
  field_errors field value =
      if field.required && is_blank R value
      then complaint field "is required" ∷ []
      else if is_blank R value
      then []
      else typed_errors field value

  unfoldable pub validate_record_data : List DatasetField → Dict (Value R) → List String
  validate_record_data [] data_ = []
  validate_record_data (field ∷ schema) data_ =
      field_errors field (lookup field.key data_) ++ validate_record_data schema data_
