-- ===== src/Dataset/Csv/Infer.antt =====
-- `inferSchema` and `mapRowsToRecords` of src/dataset/dataset-csv.service.ts, and the imports of
-- src/dataset/dataset.controller.ts that they serve.
use Prim.Native.Char.{code}
use Prim.Native.String.{◌++◌ as ◌<>◌}
use documents_backend.Common.{
  ℕ, zero, suc, String, Bool, true, false, ◌&&◌, ◌||◌, Option, none, some, List, [], ◌∷◌, map, all,
  leb, nat_eq, str_eq, is_some, if◌then◌else◌, Result, ok, err, bad_request,
}
use documents_backend.Common.Dict.{Dict, insert}
use documents_backend.Common.Text.{codes, is_digit}
use documents_backend.Dataset.Types.{
  Runtime, Value, str, FieldType, text, number, boolean, date, DatasetField,
}
use documents_backend.Dataset.Store.{Dataset, Store}
use documents_backend.Dataset.Records.{Imported}
use documents_backend.Dataset.Source.{create_from_csv}

-- `[a-z0-9]`.
abbrev is_key_char : ℕ → Bool
is_key_char c = leb b'a' c && leb c b'z' || leb b'0' c && leb c b'9'

-- `.replace(/[^a-z0-9]+/g, '_')`. The flag says that the character before was replaced.
unfoldable pub underscored : Bool → String → String
underscored replaced String.[] = ""
underscored replaced (String.◌∷◌ c s) =
    let kept = String.◌∷◌ c (underscored false s) in
    let rest = underscored true s in
    if is_key_char (code c) then kept else if replaced then rest else "_" <> rest

-- `.replace(/^_|_$/g, '')`.
abbrev strip_first : String → String
strip_first String.[] = ""
strip_first (String.◌∷◌ c s) = if nat_eq (code c) b'_' then s else String.◌∷◌ c s

unfoldable pub strip_last : String → String
strip_last String.[] = ""
strip_last (String.◌∷◌ c String.[]) = if nat_eq (code c) b'_' then "" else String.◌∷◌ c ""
strip_last (String.◌∷◌ c (String.◌∷◌ d s)) = String.◌∷◌ c (strip_last (String.◌∷◌ d s))

-- `^\d{4}-\d{2}-\d{2}`.
abbrev is_hyphen : ℕ → Bool
is_hyphen c = nat_eq c b'-'

unfoldable pub starts_as_date : List ℕ → Bool
starts_as_date (a ∷ b ∷ c ∷ d ∷ e ∷ f ∷ g ∷ h ∷ i ∷ j ∷ rest) =
    is_digit a
    && is_digit b
    && is_digit c
    && is_digit d
    && is_hyphen e
    && is_digit f
    && is_digit g
    && is_hyphen h
    && is_digit i
    && is_digit j
starts_as_date _ = false

-- `values.slice(0, n)`.
abbrev pub take {ℓ} : {A : Type ℓ} → ℕ → List A → List A
take zero xs = []
take (suc n) [] = []
take (suc n) (x ∷ xs) = x ∷ take n xs

-- `row[i]`.
abbrev pub cell {ℓ} : {A : Type ℓ} → ℕ → List A → Option A
cell i [] = none
cell zero (x ∷ xs) = some x
cell (suc i) (x ∷ xs) = cell i xs

abbrev pub keep_value : Option String → List String → List String
keep_value none rest = rest
keep_value (some v) rest = if str_eq v "" then rest else v ∷ rest

-- The values of a column that are there and not empty.
unfoldable pub column : ℕ → List (List String) → List String
column i [] = []
column i (row ∷ rows) = keep_value (cell i row) (column i rows)

abbrev pub is_bool_text : String → Bool
is_bool_text v = str_eq v "true" || str_eq v "false"

module _ (R : Runtime) where
  unfoldable pub to_field_key : String → String
  unfolding underscored strip_last
  to_field_key header = strip_last (strip_first (underscored false (R.fold header)))

  abbrev pub is_number_text : String → Bool
  is_number_text v = is_some (R.parse v)

  abbrev pub is_date_text : String → Bool
  is_date_text v = starts_as_date (codes v) && R.is_date v

  unfoldable pub detect_sample : List String → FieldType
  detect_sample sample =
      if all is_bool_text sample
      then boolean
      else if all is_number_text sample
      then number
      else if all is_date_text sample
      then date
      else text

  unfoldable pub detect_type : List String → FieldType
  detect_type [] = text
  detect_type (v ∷ values) = detect_sample (take 100 (v ∷ values))

  abbrev pub inferred_field : String → List String → DatasetField
  inferred_field header values = record {
    key = to_field_key header;
    name = header;
    type = detect_type values;
    required = false;
    options = none;
  }

  -- The columns from number `i` on.
  unfoldable pub infer_from : ℕ → List String → List (List String) → List DatasetField
  infer_from i [] rows = []
  infer_from i (header ∷ headers) rows =
      inferred_field header (column i rows) ∷ infer_from (suc i) headers rows

  abbrev pub infer_schema : List String → List (List String) → List DatasetField
  infer_schema headers rows = infer_from 0 headers rows

  -- The columns and the cells of a row side by side. A column without a key takes none, and a cell
  -- beyond the columns is dropped.
  unfoldable pub map_row : List DatasetField → List String → Dict (Value R) → Dict (Value R)
  map_row [] row data_ = data_
  map_row (field ∷ schema) [] data_ = data_
  map_row (field ∷ schema) (v ∷ row) data_ =
      map_row schema row (if str_eq field.key "" then data_ else insert field.key (str v) data_)

  abbrev pub map_rows_to_records : List DatasetField → List (List String) → List (Dict (Value R))
  map_rows_to_records schema rows = map (λ row. map_row schema row []) rows

  -- What both imports of the controller do with the headers and the rows.
  unfoldable pub create_from_table :
      String
      → List String
      → List (List String)
      → Option ℕ
      → Store R
      → Result ((Dataset × Imported) × Store R)
  create_from_table name [] rows project_id s = err (bad_request "No headers provided")
  create_from_table name (header ∷ headers) rows project_id s =
      let schema = infer_schema (header ∷ headers) rows in
      ok (create_from_csv R name schema (map_rows_to_records schema rows) project_id s)

  -- The rows of a file as the third-party reader gives them: the first one holds the headers.
  unfoldable pub import_from_file :
      String → List (List String) → Option ℕ → Store R → Result ((Dataset × Imported) × Store R)
  import_from_file name [] project_id s = err (bad_request "CSV file is empty or has no headers")
  import_from_file name ([] ∷ rows) project_id s =
      err (bad_request "CSV file is empty or has no headers")
  import_from_file name ((header ∷ headers) ∷ rows) project_id s =
      let schema = infer_schema (header ∷ headers) rows in
      ok (create_from_csv R name schema (map_rows_to_records schema rows) project_id s)
