-- ===== src/Dataset/Types.antt =====
-- The rows of src/dataset (dataset.entity.ts, dataset-record.entity.ts, cell-anchor.type.ts), and
-- the values of a cell. What JavaScript computes on numbers other than comparing them is a
-- parameter, as are arrays and objects, which the program only turns to text.
use documents_backend.Common.{ℕ, String, Bool, true, false, Option, none, some, List, str_eq}
use documents_backend.Common.Dict.{Dict}

-- The numbers other than NaN, and the arrays and objects, of the language.
pub record Runtime : Type 1 where
  pub Num : Type 0
  pub Json : Type 0
  pub zero : Num
  pub one : Num
  -- `Number(text)`, nothing for NaN.
  pub parse : String → Option Num
  pub num_text : Num → String
  pub json_text : Json → String
  -- `JSON.stringify` of a number, of a text, and of an array or object.
  pub num_json : Num → String
  pub quote : String → String
  pub json_json : Json → String
  pub is_finite : Num → Bool
  -- `text.toLowerCase().normalize('NFD')` without the combining marks.
  pub fold : String → String
  -- `!isNaN(Date.parse(text))`, which the language leaves to the implementation.
  pub is_date : String → Bool

-- A value of a cell. A cell that is `undefined` has no entry.
pub data Value (R : Runtime) : Type 0 where
  null : Value R
  nan : Value R
  bool : Bool → Value R
  num : R.Num → Value R
  str : String → Value R
  other : R.Json → Value R

module _ (R : Runtime) where
  -- `Number(value)`, nothing for NaN.
  abbrev pub to_number : Value R → Option R.Num
  to_number null = some R.zero
  to_number nan = none
  to_number (bool false) = some R.zero
  to_number (bool true) = some R.one
  to_number (num n) = some n
  to_number (str s) = R.parse s
  to_number (other j) = R.parse (R.json_text j)

  -- `String(value)`.
  abbrev pub to_text : Value R → String
  to_text null = "null"
  to_text nan = "NaN"
  to_text (bool false) = "false"
  to_text (bool true) = "true"
  to_text (num n) = R.num_text n
  to_text (str s) = s
  to_text (other j) = R.json_text j

  -- `JSON.stringify(value)`.
  abbrev pub stringify : Value R → String
  stringify null = "null"
  stringify nan = "null"
  stringify (bool false) = "false"
  stringify (bool true) = "true"
  stringify (num n) = R.num_json n
  stringify (str s) = R.quote s
  stringify (other j) = R.json_json j

  -- `undefined`, `null` or ''.
  abbrev pub is_blank : Option (Value R) → Bool
  is_blank none = true
  is_blank (some null) = true
  is_blank (some (str s)) = str_eq s ""
  is_blank (some _) = false

pub data FieldType : Type 0 where
  text number boolean date datetime time select : FieldType

-- A column. What its values are linked to, and its description, are read elsewhere.
pub record DatasetField : Type 0 where
  pub key : String
  pub name : String
  pub type : FieldType
  pub required : Bool
  pub options : Option (List String)

pub record CellAnchor : Type 0 where
  pub source_resource_id : ℕ
  pub page : Option ℕ
  pub quote : String
  pub extracted_at : String
  pub model : String
  pub prompt_version : String
  pub edited_by_user : Bool

pub data ExtractionStatus : Type 0 where
  pending in_progress extracted failed : ExtractionStatus

pub record DatasetRecord (R : Runtime) : Type 0 where
  pub id : ℕ
  pub dataset : ℕ
  pub data_ : Dict (Value R)
  pub cell_metadata : Dict CellAnchor
  pub source_resource_id : Option ℕ
  pub extraction_status : ExtractionStatus
  pub extraction_error : Option String
