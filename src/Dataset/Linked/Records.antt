-- ===== src/Dataset/Linked/Records.antt =====
-- Every operation on records of src/dataset/dataset.service.ts keeps the links sound.
use documents_backend.Common.{
  ℕ, Bool, true, not, ◌&&◌, ◌≡◌, refl, some, List, [], ◌∷◌, find-holds, nat_eq, nat_eq_iff, arith,
  inl, inr, Bool-cases, ok, throw_if-eq-ok,
}
use documents_backend.Common.Dict.{Dict}
use documents_backend.Dataset.Types.{Runtime, Value, DatasetRecord}
use documents_backend.Dataset.Store.{Store, find_dataset, find_record, save_record, delete_where}
use documents_backend.Dataset.Records.{
  is_nil, found-eq-ok, Imported, insert_record, create_record, persisted, sort_rows, insert_records,
  import_validated_records, bulk_create_records, edited, in_dataset-found, record_in, update_record,
  remove_record, bulk_delete_records, is_one_of,
}
use documents_backend.Dataset.Validation.{validate_record_data}
use documents_backend.Dataset.Cleaning.{clean_record_data}
use documents_backend.Dataset.Linked.{
  IsLinked, Kept-append, IsLinked-Kept, delete_where-IsLinked, save_record-Kept, refl-Steady,
}

module _ {R : Runtime} where
  insert_record-IsLinked :
      (d : ℕ) (data_ : Dict (Value R)) (s : Store R)
      → IsLinked s
      → IsLinked (insert_record R d data_ s)
  insert_record-IsLinked d data_ s =
      IsLinked-Kept s (insert_record R d data_ s) (Kept-append s.records _)
        (refl-Steady s.relations) refl

  pub insert_records-IsLinked :
      (d : ℕ) (rows : List (Dict (Value R))) (s : Store R)
      → IsLinked s
      → IsLinked (insert_records R d rows s)
  unfolding insert_records
  insert_records-IsLinked d [] s h = h
  insert_records-IsLinked d (data_ ∷ rows) s h =
      insert_records-IsLinked d rows (insert_record R d data_ s)
        (insert_record-IsLinked d data_ s h)

  pub create_record-IsLinked :
      (d : ℕ) (data_ : Dict (Value R)) (s : Store R) {r : DatasetRecord R} {t : Store R}
      → create_record R d data_ s ≡ ok (r, t)
      → IsLinked s
      → IsLinked t
  unfolding create_record
  create_record-IsLinked d data_ s {t} e h =
      let (dataset, _, e₁) = found-eq-ok _ (find_dataset d s) _ e in
      let (_, e₂) =
        throw_if-eq-ok (not (is_nil (validate_record_data R dataset.schema data_))) _ _ e₁ in
      let same : insert_record R d (clean_record_data R dataset.schema data_) s ≡ t = cc in
      rw (← same) (insert_record-IsLinked d _ s h)

  pub bulk_create_records-IsLinked :
      (d : ℕ) (rows : List (Dict (Value R))) (s : Store R) {i : Imported} {t : Store R}
      → bulk_create_records R d rows s ≡ ok (i, t)
      → IsLinked s
      → IsLinked t
  unfolding bulk_create_records import_validated_records
  bulk_create_records-IsLinked d rows s {t} e h =
      let (dataset, _, e₁) = found-eq-ok _ (find_dataset d s) _ e in
      let accepted = (sort_rows R dataset.schema 0 rows).0 in
      let same : insert_records R d accepted s ≡ t = cc in
      rw (← same) (insert_records-IsLinked d accepted s h)

  pub update_record-IsLinked :
      (d n : ℕ) (data_ : Dict (Value R)) (s : Store R) {r : DatasetRecord R} {t : Store R}
      → update_record R d n data_ s ≡ ok (r, t)
      → IsLinked s
      → IsLinked t
  unfolding update_record
  update_record-IsLinked d n data_ s {t} e h =
      let (dataset, _, e₁) = found-eq-ok _ (find_dataset d s) _ e in
      let (r, there, e₂) = found-eq-ok _ (record_in R d n s) _ e₁ in
      let (_, e₃) =
        throw_if-eq-ok (not (is_nil (validate_record_data R dataset.schema data_))) _ _ e₂ in
      let saved = persisted R (edited R dataset.schema data_ r) in
      let same : record s { records = save_record saved s.records } ≡ t = cc in
      let read = in_dataset-found R d (find_record n s.records) there in
      let own : (x : DatasetRecord R)
          → find_record r.id s.records ≡ some x
          → x.dataset ≡ saved.dataset =
        λ x e.
          let number = (nat_eq_iff r.id n).0 (find-holds (λ y. nat_eq y.id n) s.records read) in
          let once : r ≡ x = cc in rw once refl in
      rw (← same) (
        IsLinked-Kept s (record s { records = save_record saved s.records })
          (save_record-Kept saved s.records own) (refl-Steady s.relations) refl h)

  pub remove_record-IsLinked :
      (d n : ℕ) (s : Store R) {t : Store R} → remove_record R d n s ≡ ok t → IsLinked s → IsLinked t
  unfolding remove_record
  remove_record-IsLinked d n s {t} e h =
      let (_, _, e₁) = found-eq-ok _ (record_in R d n s) _ e in
      let kept = delete_where-IsLinked (λ x. not (nat_eq x.id n)) (λ _. true) (λ _. true) s h in
      ground (arith, kept)

  pub bulk_delete_records-IsLinked :
      (d : ℕ) (ids : List ℕ) (s : Store R) {n : ℕ} {t : Store R}
      → bulk_delete_records R d ids s ≡ ok (n, t)
      → IsLinked s
      → IsLinked t
  unfolding bulk_delete_records
  bulk_delete_records-IsLinked d ids s {t = t'} e h =
      let (_, _, e₁) = found-eq-ok _ (find_dataset d s) _ e in
      elim (Bool-cases (is_nil ids)) [
        | inl none_chosen ↦ let same : s ≡ t' = ground arith in rw (← same) h
        | inr t ↦
            let chosen : DatasetRecord R → Bool = λ r. nat_eq r.dataset d && is_one_of R ids r.id in
            let after = delete_where (λ r. not (chosen r)) (λ _. true) (λ _. true) s in
            let same : after ≡ t' = ground arith in
            rw (← same) (delete_where-IsLinked (λ r. not (chosen r)) (λ _. true) (λ _. true) s h)
      ]
