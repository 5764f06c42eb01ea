-- ===== src/Dataset/Tests.antt =====
-- The datasets by evaluation, and the theorems at inputs of that kind.
use mathlib.Core.List.{Memᴰ}
use documents_backend.Common.{
  true, false, ◌≡◌, refl, ◌↔◌, none, some, List, [], ◌∷◌, All, ok, err, bad_request,
}
use documents_backend.Common.Dict.{Dict, lookup, insert, adjust}
use documents_backend.Common.Text.{fits, is_digit, is_colon}
use documents_backend.Dataset.Types.{
  Value, null, bool, num, str, text, number, boolean, date, DatasetField, DatasetRecord, CellAnchor,
}
use documents_backend.Dataset.Validation.{
  is_time, joined, type_errors, field_errors, validate_record_data,
}
use documents_backend.Dataset.Cleaning.{field_of, clean_typed, clean_value, clean_record_data}
use documents_backend.Dataset.Conforms.{Conforms, validate_record_data-Conforms}
use documents_backend.Dataset.Cleaned.{Stored, clean_record_data-Stored}
use documents_backend.Dataset.Store.{
  project_resources, Dataset, Store, find_dataset, find_record, save_record, save_dataset,
  delete_where,
}
use documents_backend.Dataset.Records.{
  to_jsonb_cells, create_record, sort_rows, insert_records, import_validated_records,
  bulk_create_records, mark_cells, record_in, update_record, remove_record, bulk_delete_records,
}
use documents_backend.Dataset.Source.{
  normalize_source_config, validate_source_config, CreateDataset, UpdateDataset, create_dataset,
  update_dataset, remove_dataset, create_from_csv,
}
use documents_backend.Dataset.Relations.{
  create_relation, remove_relation, link_records, unlink_records, get_linked_records, incoming,
}
use documents_backend.Dataset.Sample.{digit_of, digit_text, engine, column_of, schema, table, row}
use documents_backend.Dataset.Edited.{IsEdited, update_record-IsEdited}
use documents_backend.Dataset.Sourced.{AllSourced, created, SourceStep-AllSourced}
use documents_backend.Dataset.SchemaChange.{
  removed_fields, type_changes, analyze_schema_change, count_incompatible_records,
}
use documents_backend.Dataset.Safe.{analyze_schema_change-safe}
use documents_backend.Dataset.Linked.{IsLinked}
use documents_backend.Dataset.Linked.Runs.{done, then_step, record_created, linked, Run-IsLinked}

-- What the runs compute with.
machine : Unit {0}
unfolding digit_of digit_text lookup insert adjust fits is_digit is_colon is_time joined type_errors
    field_errors validate_record_data clean_typed clean_value clean_record_data save_record
    save_dataset delete_where to_jsonb_cells create_record sort_rows insert_records
    import_validated_records bulk_create_records mark_cells update_record remove_record
    bulk_delete_records normalize_source_config validate_source_config create_dataset update_dataset
    remove_dataset create_from_csv create_relation remove_relation link_records unlink_records
    get_linked_records removed_fields type_changes count_incompatible_records analyze_schema_change
machine = tt

abbrev sent : Dict (Value engine)
sent = ("name", str "Ada") ∷ ("age", str "7") ∷ ("ok", str "true") ∷ ("extra", null) ∷ []

abbrev stored_data : Dict (Value engine)
stored_data = ("name", str "Ada") ∷ ("age", num 7) ∷ ("ok", bool true) ∷ []

cleans : clean_record_data engine schema sent ≡ stored_data
unfolding machine
cleans = refl

reports :
    validate_record_data engine schema (("age", str "x") ∷ [])
    ≡ "Field \"name\" is required" ∷ "Field \"age\" must be a valid number" ∷ []
unfolding machine
reports = refl

validate_record_data-Conforms_example :
    (validate_record_data engine schema sent ≡ [])
    ↔ All (λ f. Conforms engine f (lookup f.key sent)) schema
validate_record_data-Conforms_example = validate_record_data-Conforms engine schema sent

clean_record_data-Stored_example :
    (f : DatasetField) × (given : Value engine) × (field_of schema "age" ≡ some f)
    × (lookup "age" sent ≡ some given)
    × Stored engine f f.type given (num 7)
unfolding machine
clean_record_data-Stored_example = clean_record_data-Stored engine schema sent "age" refl refl

-- Two datasets with a relation between them, and a record in the second.
abbrev store : Store engine
store = record {
  datasets = table 1 "people" schema ∷ table 2 "pets" [] ∷ [];
  records = row 3 2 [] ∷ [];
  relations =
      record { id = 4; name = none; source_dataset = 1; target_dataset = 2; relation_type = "owns" }
      ∷ [];
  links = [];
  next = 5;
}

-- The person is created, linked to the pet, and removed, and the link goes too.
abbrev with_person : Store engine
with_person = record store { records = row 3 2 [] ∷ row 5 1 stored_data ∷ []; next = 6 }

abbrev with_link : Store engine
with_link = record with_person {
  links = record { id = 6; relation = 4; source_record = 5; target_record = 3 } ∷ [];
  next = 7;
}

unlinked :
    remove_record engine 1 5 with_link
    ≡ ok (record with_link { records = row 3 2 [] ∷ []; links = [] })
unfolding machine
unlinked = refl

sees : get_linked_records engine 3 with_link ≡ (5, incoming) ∷ []
unfolding machine
sees = refl

wrong_side :
    link_records engine 4 3 5 with_person
    ≡ err (bad_request "Source record does not belong to the source dataset of this relation")
unfolding machine
wrong_side = refl

Run-IsLinked_example : IsLinked with_link
unfolding machine
Run-IsLinked_example =
    Run-IsLinked store (then_step (then_step done (record_created 1 sent refl)) (linked 4 5 3 refl))
      tt

abbrev anchor : CellAnchor
anchor = record {
  source_resource_id = 1;
  page = none;
  quote = "seven";
  extracted_at = "";
  model = "";
  prompt_version = "";
  edited_by_user = false;
}

-- A record of two cells that were extracted.
abbrev extracted_person : DatasetRecord engine
extracted_person = record (row 5 1 (("name", str "Ada") ∷ ("age", num 1) ∷ [])) {
  cell_metadata = ("name", anchor) ∷ ("age", anchor) ∷ [];
}

abbrev edited_person : DatasetRecord engine
edited_person = record (row 5 1 stored_data) {
  cell_metadata = ("name", anchor) ∷ ("age", record anchor { edited_by_user = true }) ∷ [];
}

abbrev before_edit : Store engine
before_edit = record store { records = extracted_person ∷ [] }

update_record-IsEdited_example :
    (dataset : Dataset) × (old : DatasetRecord engine) × (find_dataset 1 before_edit ≡ some dataset)
    × (record_in engine 1 5 before_edit ≡ some old)
    × IsEdited engine dataset.schema sent old edited_person
    × (find_record 5 (edited_person ∷ []) ≡ some edited_person)
unfolding machine
update_record-IsEdited_example =
    update_record-IsEdited engine 1 5 sent before_edit {r = edited_person}
      {t = record before_edit { records = edited_person ∷ [] }} refl

-- A dataset over the resources of a project.
abbrev sourced : CreateDataset
sourced = record {
  name = "papers";
  description = none;
  project_id = some 9;
  schema = [];
  source_mode = some project_resources;
  source_config = none;
}

abbrev papers : Dataset
papers = record (table 5 "papers" []) { project = some 9; source_mode = project_resources }

SourceStep-AllSourced_example : AllSourced (record store {
  datasets = table 1 "people" schema ∷ table 2 "pets" [] ∷ papers ∷ [];
  next = 6;
})
unfolding machine
SourceStep-AllSourced_example =
    SourceStep-AllSourced store (created sourced refl) (refl, (refl, tt))

-- An update that only takes the project away is not validated.
abbrev no_project : UpdateDataset
no_project = record {
  name = none;
  description = none;
  project_id = some none;
  schema = none;
  source_mode = none;
  source_config = none;
}

project_taken :
    update_dataset engine 5 no_project (record store { datasets = papers ∷ [] })
    ≡ ok (
      record papers { project = none },
      record store { datasets = record papers { project = none } ∷ [] },
    )
unfolding machine
project_taken = refl

-- A new schema with the same types under other names.
abbrev renamed : List DatasetField
renamed =
    record (column_of "age" number false) { name = "years" }
    ∷ column_of "name" text true
    ∷ column_of "ok" boolean false
    ∷ []

analyze_schema_change-safe_example :
    (g : DatasetField) × (field_of renamed "age" ≡ some g)
    × (g.type ≡ number)
    × (lookup "age" (clean_record_data engine renamed stored_data) ≡ some (num 7))
unfolding machine
analyze_schema_change-safe_example =
    analyze_schema_change-safe engine 1 renamed with_person
      {report = record { removed_fields = []; type_changes = []; safe = true }}
      (table 1 "people" schema) (column_of "age" number false) (column_of "age" number false)
      (row 5 1 stored_data) (num 7) refl refl refl (Memᴰ.tail (Memᴰ.head refl)) refl
      (Memᴰ.tail (Memᴰ.head refl)) refl refl refl (7, refl)

-- A number that is not finite passes the validation and is saved as null.
infinite_lost :
    create_record engine 1 (("name", str "Ada") ∷ ("age", str "9") ∷ []) store
    ≡ ok (
      row 5 1 (("name", str "Ada") ∷ ("age", num 9) ∷ []),
      record store {
        records = row 3 2 [] ∷ row 5 1 (("name", str "Ada") ∷ ("age", null) ∷ []) ∷ [];
        next = 6;
      },
    )
unfolding machine
infinite_lost = refl

unsafe_change :
    analyze_schema_change engine 1 (column_of "age" date false ∷ []) with_person
    ≡ ok (record {
      removed_fields =
          record { key = "name"; name = "name"; affected_records = 1 }
          ∷ record { key = "ok"; name = "ok"; affected_records = 1 }
          ∷ [];
      type_changes =
          record {
            key = "age";
            name = "age";
            old_type = number;
            new_type = date;
            incompatible_records = 1;
          }
          ∷ [];
      safe = false;
    })
unfolding machine
unsafe_change = refl
