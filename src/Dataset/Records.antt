-- ===== src/Dataset/Records.antt =====
-- The operations of src/dataset/dataset.service.ts on records. A handler that returns gives its
-- result and the tables after it.
use documents_backend.Common.{
  ℕ, suc, ◌+◌, String, Bool, true, false, not, ◌&&◌, Option, none, some, List, [], ◌∷◌, ◌++◌,
  filter, any, length, nat_eq, is_some, if◌then◌else◌, Result, ok, err, invalid, not_found, ◌≡◌,
  refl, arith, throw_if, ◌>>=◌, ◌>>◌, ◌==◌, eq_option, eq_string,
}
use mathlib.Core.Option
use documents_backend.Common.Dict.{Dict, lookup, adjust}
use documents_backend.Dataset.Types.{
  Runtime, Value, null, nan, bool, num, str, other, DatasetField, CellAnchor, DatasetRecord,
  extracted, stringify,
}
use documents_backend.Dataset.Validation.{validate_record_data}
use documents_backend.Dataset.Cleaning.{clean_record_data}
use documents_backend.Dataset.Store.{Store, find_dataset, find_record, save_record, delete_where}

abbrev pub is_nil {ℓ} : {A : Type ℓ} → List A → Bool
is_nil [] = true
is_nil _ = false

-- A row that was found, or the failure.
abbrev pub found {ℓ} : {A : Type ℓ} → String → Option A → Result A
found message none = err (not_found message)
found message (some a) = ok a

-- A handler that returned has found its row.
pub found-eq-ok {ℓ κ} :
    {A : Type ℓ} {B : Type κ} (message : String) (o : Option A) (rest : A → Result B) {b : B}
    → (found message o >>= rest) ≡ ok b
    → (a : A) × (o ≡ some a) × (rest a ≡ ok b)
found-eq-ok message none rest h = cc
found-eq-ok message (some a) rest h = (a, refl, h)

-- What an import reports of a row that is refused.
pub record RowError : Type 0 where
  pub row : ℕ
  pub messages : List String

pub record Imported : Type 0 where
  pub imported : ℕ
  pub errors : List RowError

-- `{ ...existingAnchor, editedByUser: true }`.
abbrev pub mark_edited : CellAnchor → CellAnchor
mark_edited anchor = record anchor { edited_by_user = true }

module _ (R : Runtime) where
  -- A value as the column of type jsonb gives it back: JSON has neither NaN nor an infinite number.
  abbrev pub to_jsonb : Value R → Value R
  to_jsonb null = null
  to_jsonb nan = null
  to_jsonb (bool b) = bool b
  to_jsonb (num n) = if R.is_finite n then num n else null
  to_jsonb (str s) = str s
  to_jsonb (other j) = other j

  unfoldable pub to_jsonb_cells : Dict (Value R) → Dict (Value R)
  to_jsonb_cells [] = []
  to_jsonb_cells ((key, value) ∷ cells) = (key, to_jsonb value) ∷ to_jsonb_cells cells

  -- The row of a record that is saved. The object itself keeps its cells as they are.
  abbrev pub persisted : DatasetRecord R → DatasetRecord R
  persisted r = record r { data_ = to_jsonb_cells r.data_ }

  -- `recordRepository.create` with the values that every caller gives.
  abbrev pub new_record : ℕ → ℕ → Dict (Value R) → DatasetRecord R
  new_record id dataset data_ = record {
    id = id;
    dataset = dataset;
    data_ = data_;
    cell_metadata = [];
    source_resource_id = none;
    extraction_status = extracted;
    extraction_error = none;
  }

  abbrev pub insert_record : ℕ → Dict (Value R) → Store R → Store R
  insert_record dataset data_ s = record s {
    records = s.records ++ persisted (new_record s.next dataset data_) ∷ [];
    next = suc s.next;
  }

  unfoldable pub create_record : ℕ → Dict (Value R) → Store R → Result (DatasetRecord R × Store R)
  create_record dataset_id data_ s =
      found "Dataset not found" (find_dataset dataset_id s) >>= λ dataset.
      let errors = validate_record_data R dataset.schema data_ in
      throw_if (not (is_nil errors)) (invalid errors)
      >> (let clean = clean_record_data R dataset.schema data_ in
          ok (new_record s.next dataset_id clean, insert_record dataset_id clean s))

  -- What the loop over the rows gives: the clean data of the accepted ones, and the errors.
  abbrev sorted_row :
      List DatasetField
      → ℕ
      → Dict (Value R)
      → List String
      → List (Dict (Value R)) × List RowError
      → List (Dict (Value R)) × List RowError
  sorted_row schema row data_ [] (accepted, errors) =
      (clean_record_data R schema data_ ∷ accepted, errors)
  sorted_row schema row data_ (e ∷ messages) (accepted, errors) =
      (accepted, record { row = row; messages = e ∷ messages } ∷ errors)

  -- The rows are numbered from `i + 1`.
  unfoldable pub sort_rows :
      List DatasetField → ℕ → List (Dict (Value R)) → List (Dict (Value R)) × List RowError
  sort_rows schema i [] = ([], [])
  sort_rows schema i (data_ ∷ rows) =
      sorted_row schema (i + 1) data_ (validate_record_data R schema data_)
        (sort_rows schema (i + 1) rows)

  -- `recordRepository.save(imported)`: the rows in their order.
  unfoldable pub insert_records : ℕ → List (Dict (Value R)) → Store R → Store R
  insert_records dataset [] s = s
  insert_records dataset (data_ ∷ rows) s =
      insert_records dataset rows (insert_record dataset data_ s)

  unfoldable pub import_validated_records :
      ℕ → List DatasetField → List (Dict (Value R)) → Store R → Imported × Store R
  import_validated_records dataset_id schema rows s =
      let (accepted, errors) = sort_rows schema 0 rows in
      (record { imported = length accepted; errors = errors }, insert_records dataset_id accepted s)

  unfoldable pub bulk_create_records :
      ℕ → List (Dict (Value R)) → Store R → Result (Imported × Store R)
  bulk_create_records dataset_id rows s =
      found "Dataset not found" (find_dataset dataset_id s) >>= λ dataset.
      ok (import_validated_records dataset_id dataset.schema rows s)

  -- `JSON.stringify(oldValue) === JSON.stringify(newValue)`; nothing is written for `undefined`.
  abbrev pub same_json : Option (Value R) → Option (Value R) → Bool
  same_json old new = Option.map (stringify R) old == Option.map (stringify R) new

  -- The cell was sent, and its value changes.
  abbrev pub is_changed : String → Dict (Value R) → Dict (Value R) → Dict (Value R) → Bool
  is_changed key sent previous clean =
      is_some (lookup key sent) && not (same_json (lookup key previous) (lookup key clean))

  -- The loop over the columns that marks the anchors of edited cells.
  unfoldable pub mark_cells :
      List DatasetField
      → Dict (Value R)
      → Dict (Value R)
      → Dict (Value R)
      → Dict CellAnchor
      → Dict CellAnchor
  mark_cells [] sent previous clean anchors = anchors
  mark_cells (field ∷ schema) sent previous clean anchors = mark_cells schema sent previous clean (
      if is_changed field.key sent previous clean
      then adjust field.key mark_edited anchors
      else anchors)

  abbrev pub edited : List DatasetField → Dict (Value R) → DatasetRecord R → DatasetRecord R
  edited schema sent r =
      let clean = clean_record_data R schema sent in
      record r {
        data_ = clean;
        cell_metadata = mark_cells schema sent r.data_ clean r.cell_metadata;
      }

  -- `recordRepository.findOne` by the primary key and the dataset.
  abbrev pub in_dataset : ℕ → Option (DatasetRecord R) → Option (DatasetRecord R)
  in_dataset dataset_id none = none
  in_dataset dataset_id (some r) = if nat_eq r.dataset dataset_id then some r else none

  pub in_dataset-found :
      (d : ℕ) (o : Option (DatasetRecord R)) {r : DatasetRecord R}
      → in_dataset d o ≡ some r
      → o ≡ some r
  in_dataset-found d none h = cc
  in_dataset-found d (some x) h = ground arith

  abbrev pub record_in : ℕ → ℕ → Store R → Option (DatasetRecord R)
  record_in dataset_id record_id s = in_dataset dataset_id (find_record record_id s.records)

  unfoldable pub update_record :
      ℕ → ℕ → Dict (Value R) → Store R → Result (DatasetRecord R × Store R)
  update_record dataset_id record_id data_ s =
      found "Dataset not found" (find_dataset dataset_id s) >>= λ dataset.
      found "Record not found" (record_in dataset_id record_id s) >>= λ r.
      let errors = validate_record_data R dataset.schema data_ in
      throw_if (not (is_nil errors)) (invalid errors)
      >> (let saved = edited dataset.schema data_ r in
          ok (saved, record s { records = save_record (persisted saved) s.records }))

  unfoldable pub remove_record : ℕ → ℕ → Store R → Result (Store R)
  remove_record dataset_id record_id s =
      found "Record not found" (record_in dataset_id record_id s) >>= λ r.
      ok (delete_where (λ x. not (nat_eq x.id record_id)) (λ _. true) (λ _. true) s)

  abbrev pub is_one_of : List ℕ → ℕ → Bool
  is_one_of ids id = any (λ i. nat_eq i id) ids

  -- The count of the deleted records, and the tables.
  unfoldable pub bulk_delete_records : ℕ → List ℕ → Store R → Result (ℕ × Store R)
  bulk_delete_records dataset_id record_ids s =
      found "Dataset not found" (find_dataset dataset_id s) >>= λ _.
      if is_nil record_ids
      then ok (0, s)
      else (let chosen =
            λ (r : DatasetRecord R). nat_eq r.dataset dataset_id && is_one_of record_ids r.id in
          ok (
            length (filter chosen s.records),
            delete_where (λ r. not (chosen r)) (λ _. true) (λ _. true) s,
          ))
