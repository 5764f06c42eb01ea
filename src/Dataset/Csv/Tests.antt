-- ===== src/Dataset/Csv/Tests.antt =====
-- Import and export by evaluation, and the theorems at inputs of that kind.
use mathlib.Core.List.{reverse}
use documents_backend.Common.{
  true, ℕ, ◌≤◌, String, false, ◌≡◌, refl, Option, none, some, List, [], ◌∷◌, length, arith, ok,
}
use documents_backend.Common.Dict.{lookup, insert}
use documents_backend.Common.Text.{codes, is_digit}
use documents_backend.Dataset.Types.{str, text, number, DatasetRecord, CellAnchor}
use documents_backend.Dataset.Validation.{type_errors, field_errors, validate_record_data}
use documents_backend.Dataset.Cleaning.{clean_typed, clean_value, clean_record_data}
use documents_backend.Dataset.Store.{Dataset, Store}
use documents_backend.Dataset.Records.{
  to_jsonb_cells, sort_rows, insert_records, import_validated_records,
}
use documents_backend.Dataset.Source.{insert_dataset, create_from_csv}
use documents_backend.Dataset.Sample.{table, digit_of, digit_text, engine, column_of, row}
use documents_backend.Dataset.Csv.Infer.{
  starts_as_date, underscored, strip_last, column, to_field_key, detect_sample, detect_type,
  infer_from, infer_schema, map_row, create_from_table, import_from_file,
}
use documents_backend.Dataset.Csv.Detected.{length-column}
use documents_backend.Dataset.Csv.Imported.{cleaned_rows, create_from_table_complete}
use documents_backend.Dataset.Csv.Export.{
  Text, ResourceTitle, title_of, export_csv, csv_filename, doubled, escape, join, decimal_from,
  decimal, anchored_header, anchored_cells, csv_filename, export_records_csv,
}
use documents_backend.Dataset.Csv.Reader.{cut, read_csv}
use documents_backend.Dataset.Csv.RoundTrip.{names, texts, read_csv-export_csv}

-- What the runs compute with.
machine : Unit {0}
unfolding digit_of digit_text lookup insert is_digit type_errors field_errors validate_record_data
    clean_typed clean_value clean_record_data to_jsonb_cells sort_rows insert_records
    import_validated_records create_from_csv starts_as_date underscored strip_last column
    to_field_key detect_sample detect_type infer_from map_row create_from_table import_from_file
    doubled escape join decimal_from decimal anchored_header anchored_cells csv_filename
    export_records_csv cut read_csv names texts
machine = tt

field_key : to_field_key engine "(unit price)" ≡ "unit_price"
unfolding machine
field_key = refl

-- Two headers with one key make two columns that share a cell.
shared_key : to_field_key engine "price-a" ≡ to_field_key engine "price a"
unfolding machine
shared_key = refl

abbrev rows : List (List String)
rows = ("ann" ∷ "3" ∷ []) ∷ ("bob" ∷ "" ∷ "extra" ∷ []) ∷ ("cy" ∷ []) ∷ []

abbrev empty_store : Store engine
empty_store = record { datasets = []; records = []; relations = []; links = []; next = 1 }

infers :
    infer_schema engine ("name" ∷ "n" ∷ []) rows
    ≡ column_of "name" text false ∷ column_of "n" number false ∷ []
unfolding machine
infers = refl

short : (i : ℕ) → length (column i rows) ≤ 100
short i = let h = length-column i rows in omega arith

create_from_table_complete_example :
    (d : Dataset) × (t : Store engine) × (create_from_table engine "people"
        ("name" ∷ "n" ∷ [])
        rows
        none
        empty_store
      ≡ ok ((d, record { imported = 3; errors = [] }), t))
    × (d.schema ≡ infer_schema engine ("name" ∷ "n" ∷ []) rows)
    × (t
        ≡ insert_records engine d.id
            (cleaned_rows engine d.schema rows)
            (insert_dataset engine d empty_store))
unfolding machine
create_from_table_complete_example =
    create_from_table_complete engine "people" "name" ("n" ∷ []) rows none empty_store short
      (refl, (refl, tt), (refl, tt, tt))

abbrev anchor : CellAnchor
anchor = record {
  source_resource_id = 1;
  page = some 12;
  quote = "said \"no\"";
  extracted_at = "";
  model = "";
  prompt_version = "";
  edited_by_user = false;
}

abbrev person : DatasetRecord engine
person = record (row 5 1 (("name", str "Ada, \"Lady\"") ∷ [])) {
  cell_metadata = ("name", anchor) ∷ [];
}

abbrev titled : Option (ℕ → Text)
titled = some (λ n. codes "Book")

exports :
    export_records_csv engine (column_of "name" text false ∷ []) (person ∷ []) titled
    ≡ codes
        "name,name_source,name_page,name_quote\n\"Ada, \"\"Lady\"\"\",Book,12,\"said \"\"no\"\"\""
unfolding machine
exports = refl

abbrev library_store : Store engine
library_store = record {
  datasets = table 1 "my people" (column_of "name" text false ∷ []) ∷ [];
  records = record person { dataset = 1 } ∷ [];
  relations = [];
  links = [];
  next = 6;
}

abbrev book : ResourceTitle
book = record { id = 1; title = some "Book"; name = none }

read_csv-export_csv_example :
    read_csv (
      codes
        "name,name_source,name_page,name_quote\n\"Ada, \"\"Lady\"\"\",Book,12,\"said \"\"no\"\"\"")
    ≡ (codes "name" ∷ codes "name_source" ∷ codes "name_page" ∷ codes "name_quote" ∷ [])
      ∷ (codes "Ada, \"Lady\"" ∷ codes "Book" ∷ codes "12" ∷ codes "said \"no\"" ∷ [])
      ∷ []
unfolding machine title_of export_csv
read_csv-export_csv_example =
    read_csv-export_csv engine reverse 1 true (book ∷ []) library_store
      {file = codes "my_people.csv"} (table 1 "my people" (column_of "name" text false ∷ []))
      (column_of "name" text false) [] refl refl refl
