-- ===== src/Dataset/Csv/Imported.antt =====
-- An import by src/dataset/dataset.controller.ts takes every row: the schema that
-- src/dataset/dataset-csv.service.ts infers accepts what it was inferred from.
use mathlib.Core.List.{Memᴰ}
use documents_backend.Common.{
  ℕ, suc, ◌+◌, ◌≤◌, String, false, ◌≡◌, refl, sym, ap, ◌∙◌, Option, none, some, List, [], ◌∷◌, map,
  length, All, All-map2, str_eq, eq_iff, if◌then◌else◌, arith, inl, inr, Bool-cases, ok,
}
use documents_backend.Common.Dict.{Dict, lookup, insert, lookup-insert}
use documents_backend.Dataset.Types.{Runtime, Value, str, DatasetField}
use documents_backend.Dataset.Validation.{validate_record_data}
use documents_backend.Dataset.Cleaning.{clean_record_data}
use documents_backend.Dataset.Conforms.{Conforms, blank, validate_record_data-Conforms}
use documents_backend.Dataset.Store.{Dataset, Store, manual}
use documents_backend.Dataset.Records.{sort_rows, insert_records, import_validated_records}
use documents_backend.Dataset.Source.{create_from_csv, insert_dataset, nonzero}
use documents_backend.Dataset.Csv.Detected.{inferred_field-Conforms}
use documents_backend.Dataset.Csv.Infer.{
  cell, column, inferred_field, infer_from, infer_schema, to_field_key, map_row,
  map_rows_to_records, create_from_table,
}

at_start : (i : ℕ) → i ≡ i + 0
at_start i = omega arith

module _ (R : Runtime) where
  -- No column has the key.
  abbrev pub Lacks : String → List DatasetField → Type 0
  Lacks k schema = All (λ f. str_eq f.key k ≡ false) schema

  -- No two columns have the same key, and none an empty one.
  abbrev pub KeysDiffer : List DatasetField → Type 0
  KeysDiffer [] = Unit
  KeysDiffer (f ∷ schema) = (str_eq f.key "" ≡ false) × Lacks f.key schema × KeysDiffer schema

  -- A row writes nothing under a key that no column has.
  lookup-map_row :
      (schema : List DatasetField) (row : List String) (data_ : Dict (Value R)) (k : String)
      → Lacks k schema
      → lookup k (map_row R schema row data_) ≡ lookup k data_
  unfolding map_row
  lookup-map_row [] row data_ k h = refl
  lookup-map_row (f ∷ schema) [] data_ k h = refl
  lookup-map_row (f ∷ schema) (v ∷ row) data_ k h =
      let next = if str_eq f.key "" then data_ else insert f.key (str v) data_ in
      lookup-map_row schema row next k h.1 ∙ elim (Bool-cases (str_eq f.key "")) [
        | inl t ↦ rw t refl
        | inr t ↦ rw t (lookup-insert f.key k (str v) data_ ∙ rw h.0 refl)
      ]

  -- Under keys that are not yet written every inferred column has a blank.
  infer_from-blank :
      (headers : List String) (i : ℕ) (rows : List (List String)) (data_ : Dict (Value R))
      → All (λ f. lookup f.key data_ ≡ none) (infer_from R i headers rows)
      → All (λ f. Conforms R f (lookup f.key data_)) (infer_from R i headers rows)
  unfolding infer_from
  infer_from-blank [] i rows data_ free = tt
  infer_from-blank (header ∷ headers) i rows data_ (here, free) =
      (rw here (blank refl refl), infer_from-blank headers (suc i) rows data_ free)

  map_row-none :
      (schema : List DatasetField) (data_ : Dict (Value R)) → map_row R schema [] data_ ≡ data_
  unfolding map_row
  map_row-none [] data_ = refl
  map_row-none (f ∷ schema) data_ = refl

  map_row-step :
      (f : DatasetField) (schema : List DatasetField) (v : String) (row : List String)
      (data_ : Dict (Value R))
      → str_eq f.key "" ≡ false
      → map_row R (f ∷ schema) (v ∷ row) data_ ≡ map_row R schema row (insert f.key (str v) data_)
  unfolding map_row
  map_row-step f schema v row data_ named = rw named refl

  still_free :
      (schema : List DatasetField) (k : String) (v : Value R) (data_ : Dict (Value R))
      → Lacks k schema
      → All (λ f. lookup f.key data_ ≡ none) schema
      → All (λ f. lookup f.key (insert k v data_) ≡ none) schema
  still_free schema k v data_ =
      All-map2 _ _ _ schema λ f other free.
        ground (arith, lookup-insert k f.key v data_, eq_iff k f.key, eq_iff f.key k)

  abbrev pub AllConform : List DatasetField → Dict (Value R) → Type 0
  AllConform schema data_ = All (λ f. Conforms R f (lookup f.key data_)) schema

  AllConform-same :
      (schema : List DatasetField) (old new : Dict (Value R))
      → new ≡ old
      → AllConform schema old
      → AllConform schema new
  AllConform-same schema old new same h = rw same h

  -- The cells of one row conform to the columns that were inferred from all rows.
  infer_from-Conforms :
      (headers : List String) (i : ℕ) (rows : List (List String)) (whole row : List String)
      (data_ : Dict (Value R))
      → ((j : ℕ) → length (column j rows) ≤ 100)
      → Memᴰ whole rows
      → ((j : ℕ) → cell j row ≡ cell (i + j) whole)
      → KeysDiffer (infer_from R i headers rows)
      → All (λ f. lookup f.key data_ ≡ none) (infer_from R i headers rows)
      → AllConform (infer_from R i headers rows) (map_row R (infer_from R i headers rows) row data_)
  unfolding infer_from
  infer_from-Conforms [] i rows whole row data_ bound m same differ free = tt
  infer_from-Conforms (header ∷ headers) i rows whole [] data_ bound m same differ free =
      let columns = infer_from R i (header ∷ headers) rows in
      let empty = infer_from-blank (header ∷ headers) i rows data_ free in
      AllConform-same columns data_ (map_row R columns [] data_) (map_row-none columns data_) empty
  infer_from-Conforms (header ∷ headers) i rows whole (v ∷ row) data_ bound m same differ free =
      let k = to_field_key R header in
      let columns = infer_from R (suc i) headers rows in
      let next = insert k (str v) data_ in
      let step =
        map_row-step (inferred_field R header (column i rows)) columns v row data_ differ.0 in
      let own : lookup k (map_row R columns row next) ≡ some (str v) =
        lookup-map_row columns row next k differ.1
        ∙ (lookup-insert k k (str v) data_ ∙ ground (arith, eq_iff k k)) in
      let here : cell i whole ≡ some v = ap (λ j. cell j whole) (at_start i) ∙ sym (same 0) in
      let conforms = inferred_field-Conforms R header i rows whole (bound i) m in
      let rest =
        infer_from-Conforms headers (suc i) rows whole row next bound m
          (λ j. same (suc j) ∙ ap (λ n. cell n whole) (omega arith)) differ.2
          (still_free columns k (str v) data_ differ.1 free.1) in
      AllConform-same (infer_from R i (header ∷ headers) rows) (map_row R columns row next) _ step
        (rw own (rw here at conforms), rest)

  All-mem : {A : Type 0} (P : A → Type 0) (xs : List A) → ((x : A) → Memᴰ x xs → P x) → All P xs
  All-mem P [] f = tt
  All-mem P (x ∷ xs) f = (f x (Memᴰ.head refl), All-mem P xs (λ y m. f y (Memᴰ.tail m)))

  nothing_written :
      (schema : List DatasetField) → All (λ f. lookup {V = Value R} f.key [] ≡ none) schema
  unfolding lookup
  nothing_written [] = tt
  nothing_written (f ∷ schema) = (refl, nothing_written schema)

  abbrev IsAccepted : List DatasetField → List String → Type 0
  IsAccepted schema row = validate_record_data R schema (map_row R schema row []) ≡ []

  rows-IsAccepted :
      (headers : List String) (rows : List (List String))
      → ((i : ℕ) → length (column i rows) ≤ 100)
      → KeysDiffer (infer_schema R headers rows)
      → All (IsAccepted (infer_schema R headers rows)) rows
  rows-IsAccepted headers rows bound differ =
      let schema = infer_schema R headers rows in
      All-mem (IsAccepted schema) rows λ row m.
        (validate_record_data-Conforms R schema (map_row R schema row [])).1 (
          infer_from-Conforms headers 0 rows row row [] bound m
            (λ j. ap (λ n. cell n row) (omega arith)) differ (nothing_written schema))

  abbrev pub cleaned_rows : List DatasetField → List (List String) → List (Dict (Value R))
  cleaned_rows schema rows = map (λ row. clean_record_data R schema (map_row R schema row [])) rows

  sort_rows-accepted :
      (schema : List DatasetField) (i : ℕ) (rows : List (List String))
      → All (IsAccepted schema) rows
      → sort_rows R schema i (map_rows_to_records R schema rows) ≡ (cleaned_rows schema rows, [])
  unfolding sort_rows
  sort_rows-accepted schema i [] h = refl
  sort_rows-accepted schema i (row ∷ rows) (here, later) =
      rw (here, sort_rows-accepted schema (i + 1) rows later) refl

  length-map : {A B : Type 0} (f : A → B) (xs : List A) → length (map f xs) ≡ length xs
  length-map f [] = refl
  length-map f (x ∷ xs) = ap suc (length-map f xs)

  -- If no column of a table has more than a hundred values, and the headers give distinct keys that
  -- are not empty, then a dataset is made of it with a record for every row: no row is refused by
  -- the schema that was inferred from the rows themselves.
  pub create_from_table_complete :
      (name header : String) (headers : List String) (rows : List (List String))
      (project_id : Option ℕ) (s : Store R)
      → ((i : ℕ) → length (column i rows) ≤ 100)
      → KeysDiffer (infer_schema R (header ∷ headers) rows)
      → (d : Dataset) × (t : Store R) × (create_from_table R name
            (header ∷ headers)
            rows
            project_id
            s
          ≡ ok ((d, record { imported = length rows; errors = [] }), t))
        × (d.schema ≡ infer_schema R (header ∷ headers) rows)
        × (t ≡ insert_records R d.id (cleaned_rows d.schema rows) (insert_dataset R d s))
  unfolding create_from_table create_from_csv import_validated_records
  create_from_table_complete name header headers rows project_id s bound differ =
      let schema = infer_schema R (header ∷ headers) rows in
      let sorted =
        sort_rows-accepted schema 0 rows (rows-IsAccepted (header ∷ headers) rows bound differ) in
      let d : Dataset = record {
        id = s.next;
        name = name;
        description = none;
        project = nonzero project_id;
        schema = schema;
        source_mode = manual;
        source_config = [];
      } in
      (
        d,
        insert_records R s.next (cleaned_rows schema rows) (insert_dataset R d s),
        rw (sorted, length-map (λ row. clean_record_data R schema (map_row R schema row [])) rows)
            refl,
        refl,
        refl,
      )
