-- ===== src/Dataset/Edited.antt =====
-- What `updateRecord` of src/dataset/dataset.service.ts leaves: the new data, and the anchors of the
-- cells with a mark on those that were edited.
use mathlib.Core.Option
use documents_backend.Common.{
  ℕ, String, Bool, true, false, not, ◌&&◌, ◌||◌, ◌≡◌, refl, ◌∙◌, Option, none, some, List, [], ◌∷◌,
  any, find-holds, nat_eq, nat_eq_iff, str_eq, eq_iff, if◌then◌else◌, arith, inl, inr, Bool-cases,
  Result, ok, throw_if-eq-ok,
}
use documents_backend.Common.Dict.{Dict, lookup, adjust, lookup-adjust}
use documents_backend.Dataset.Types.{Runtime, Value, DatasetField, CellAnchor, DatasetRecord}
use documents_backend.Dataset.Validation.{validate_record_data}
use documents_backend.Dataset.Cleaning.{clean_record_data}
use documents_backend.Dataset.Store.{Dataset, Store, find_dataset, find_record, save_record}
use documents_backend.Dataset.Records.{
  persisted, is_nil, found-eq-ok, mark_edited, is_changed, mark_cells, edited, in_dataset-found,
  record_in, update_record,
}

is_nil-eq : {A : Type 0} (xs : List A) → not (is_nil xs) ≡ false → xs ≡ []
is_nil-eq [] h = refl
is_nil-eq (x ∷ xs) h = cc

abbrev marked : Bool → Option CellAnchor → Option CellAnchor
marked true anchor = Option.map mark_edited anchor
marked false anchor = anchor

-- A second mark changes nothing.
marked-again :
    (a b : Bool) (anchor : Option CellAnchor) → marked a (marked b anchor) ≡ marked (b || a) anchor
marked-again true true none = refl
marked-again true true (some anchor) = refl
marked-again true false anchor = refl
marked-again false true anchor = refl
marked-again false false anchor = refl

-- The key is one of a column.
abbrev pub is_column : String → List DatasetField → Bool
is_column k schema = any (λ f. str_eq f.key k) schema

lookup-next :
    (c : Bool) (key k : String) (anchors : Dict CellAnchor)
    → lookup k (if c then adjust key mark_edited anchors else anchors)
      ≡ marked (str_eq key k && c) (lookup k anchors)
lookup-next true key k anchors = ground (arith, lookup-adjust key k mark_edited anchors)
lookup-next false key k anchors = ground arith

module _ (R : Runtime) where
  lookup-mark_cells :
      (schema : List DatasetField) (sent previous clean : Dict (Value R))
      (anchors : Dict CellAnchor) (k : String)
      → lookup k (mark_cells R schema sent previous clean anchors)
        ≡ marked (is_column k schema && is_changed R k sent previous clean) (lookup k anchors)
  unfolding mark_cells
  lookup-mark_cells [] sent previous clean anchors k = refl
  lookup-mark_cells (field ∷ schema) sent previous clean anchors k =
      let c = is_changed R field.key sent previous clean in
      let next = if c then adjust field.key mark_edited anchors else anchors in
      let now = lookup-next c field.key k anchors in
      lookup-mark_cells schema sent previous clean next k
      ∙ rw now (elim (Bool-cases (str_eq field.key k)) [
        | inl t ↦
            let same = (eq_iff field.key k).0 t in
            rw t (
              rw same (
                marked-again (is_column k schema && is_changed R k sent previous clean)
                  (is_changed R k sent previous clean) (lookup k anchors)
                ∙ ground arith))
        | inr t ↦ rw t refl
      ])

  -- A saved record is found under its number.
  find-save_record :
      (r : DatasetRecord R) (records : List (DatasetRecord R)) (x : DatasetRecord R)
      → find_record r.id records ≡ some x
      → find_record r.id (save_record r records) ≡ some r
  unfolding save_record
  find-save_record r [] x h = cc
  find-save_record r (z ∷ records) x h = elim (Bool-cases (nat_eq z.id r.id)) [
    | inl t ↦ rw t (ground (arith, nat_eq_iff r.id r.id))
    | inr t ↦ let rest = find-save_record r records x (ground arith) in ground (arith, rest)
  ]

  -- What an update leaves of a record: its cells are the clean ones that were sent, and its anchors
  -- are kept, with a mark on those of the columns that were sent with a new value.
  pub record IsEdited (schema : List DatasetField) (sent : Dict (Value R))
      (old new : DatasetRecord R) : Type 0 where
    pub accepted : validate_record_data R schema sent ≡ []
    pub clean : new.data_ ≡ clean_record_data R schema sent
    pub anchors :
        (k : String)
        → lookup k new.cell_metadata
          ≡ marked
              (is_column k schema && is_changed R k sent old.data_ new.data_)
              (lookup k old.cell_metadata)
    pub same_row : (new.id ≡ old.id) × (new.dataset ≡ old.dataset)

  edited-IsEdited :
      (schema : List DatasetField) (sent : Dict (Value R)) (old : DatasetRecord R)
      → validate_record_data R schema sent ≡ []
      → IsEdited schema sent old (edited R schema sent old)
  edited-IsEdited schema sent old valid = record {
    accepted = valid;
    clean = refl;
    anchors =
        lookup-mark_cells schema sent old.data_ (clean_record_data R schema sent) old.cell_metadata;
    same_row = (refl, refl);
  }

  abbrev stored_result :
      List DatasetField
      → Dict (Value R)
      → DatasetRecord R
      → Store R
      → Result (DatasetRecord R × Store R)
  stored_result schema sent old s =
      let saved = edited R schema sent old in
      ok (saved, record s { records = save_record (persisted R saved) s.records })

  IsEdited-result :
      (schema : List DatasetField) (sent : Dict (Value R)) (old : DatasetRecord R) (s : Store R)
      {r : DatasetRecord R} {t : Store R}
      → validate_record_data R schema sent ≡ []
      → find_record old.id s.records ≡ some old
      → stored_result schema sent old s ≡ ok (r, t)
      → IsEdited schema sent old r × (find_record r.id t.records ≡ some (persisted R r))
  IsEdited-result schema sent old s {r} {t} valid row e =
      let saved = edited R schema sent old in
      let same_r : saved ≡ r = cc in
      let same_t : record s { records = save_record (persisted R saved) s.records } ≡ t = cc in
      (
        rw (← same_r) (edited-IsEdited schema sent old valid),
        cc (find-save_record (persisted R saved) s.records old row),
      )

  -- An update that returns a record has found the dataset and a record of it, has accepted the data,
  -- sets the clean data, marks the anchors of exactly the cells that were sent and change, and leaves
  -- the record it returns in the table, as JSON keeps its cells.
  pub update_record-IsEdited :
      (d n : ℕ) (sent : Dict (Value R)) (s : Store R) {r : DatasetRecord R} {t : Store R}
      → update_record R d n sent s ≡ ok (r, t)
      → (dataset : Dataset) × (old : DatasetRecord R) × (find_dataset d s ≡ some dataset)
        × (record_in R d n s ≡ some old)
        × IsEdited dataset.schema sent old r
        × (find_record r.id t.records ≡ some (persisted R r))
  unfolding update_record
  update_record-IsEdited d n sent s {r} {t} e =
      let (dataset, there, e₁) = found-eq-ok _ (find_dataset d s) _ e in
      let (old, read, e₂) = found-eq-ok _ (record_in R d n s) _ e₁ in
      let errors = validate_record_data R dataset.schema sent in
      let (none_left, e₃) = throw_if-eq-ok (not (is_nil errors)) _ _ e₂ in
      let number = (nat_eq_iff old.id n).0 (
        find-holds (λ y. nat_eq y.id n) s.records
          (in_dataset-found R d (find_record n s.records) read)) in
      let row : find_record old.id s.records ≡ some old =
        rw number (in_dataset-found R d (find_record n s.records) read) in
      let (same, kept) =
        IsEdited-result dataset.schema sent old s (is_nil-eq errors (ground arith)) row e₃ in
      (dataset, old, there, read, same, kept)
