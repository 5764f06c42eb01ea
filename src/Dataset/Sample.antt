-- ===== src/Dataset/Sample.antt =====
-- A small engine and small tables for the tests.
use documents_backend.Common.{
  ℕ, zero, suc, ◌-◌, String, Bool, true, false, not, nat_eq, ◌&&◌, Option, none, some, List, [],
  ◌∷◌, leb, str_eq, if◌then◌else◌,
}
use documents_backend.Common.Dict.{Dict}
use documents_backend.Common.Text.{codes}
use documents_backend.Dataset.Types.{
  Runtime, Value, FieldType, text, number, boolean, DatasetField, DatasetRecord, extracted,
}
use documents_backend.Dataset.Store.{manual, Dataset}

-- Numbers are naturals with at most one digit each, 9 stands for one that is not finite, and one
-- date is known.
unfoldable pub digit_of : List ℕ → Option ℕ
digit_of (c ∷ []) = if leb b'0' c && leb c b'9' then some (c - b'0') else none
digit_of _ = none

unfoldable pub digit_text : ℕ → String
digit_text zero = "0"
digit_text (suc zero) = "1"
digit_text _ = "7"

abbrev pub engine : Runtime
engine = record {
  Num = ℕ;
  Json = Unit {0};
  zero = 0;
  one = 1;
  parse = λ s. digit_of (codes s);
  num_text = digit_text;
  json_text = λ j. "";
  num_json = digit_text;
  quote = λ s. s;
  json_json = λ j. "[]";
  is_finite = λ n. not (nat_eq n 9);
  fold = λ s. s;
  is_date = λ s. str_eq s "2024-05-01";
}

abbrev pub column_of : String → FieldType → Bool → DatasetField
column_of key type required = record {
  key = key;
  name = key;
  type = type;
  required = required;
  options = none;
}

abbrev pub schema : List DatasetField
schema =
    column_of "name" text true ∷ column_of "age" number false ∷ column_of "ok" boolean false ∷ []

abbrev pub table : ℕ → String → List DatasetField → Dataset
table id name fields = record {
  id = id;
  name = name;
  description = none;
  project = none;
  schema = fields;
  source_mode = manual;
  source_config = [];
}

abbrev pub row : ℕ → ℕ → Dict (Value engine) → DatasetRecord engine
row id dataset data_ = record {
  id = id;
  dataset = dataset;
  data_ = data_;
  cell_metadata = [];
  source_resource_id = none;
  extraction_status = extracted;
  extraction_error = none;
}
