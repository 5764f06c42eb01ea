-- ===== src/Dataset/Linked/Runs.antt =====
-- The operations of src/dataset/dataset.service.ts that change the tables, as steps, and what every
-- sequence of them keeps.
use documents_backend.Common.{ℕ, String, ◌≡◌, Option, List, ok}
use documents_backend.Common.Dict.{Dict}
use documents_backend.Dataset.Types.{Runtime, Value, DatasetField, DatasetRecord}
use documents_backend.Dataset.Store.{Dataset, Relation, Link, Store}
use documents_backend.Dataset.Records.{
  Imported, create_record, bulk_create_records, update_record, remove_record, bulk_delete_records,
}
use documents_backend.Dataset.Source.{
  CreateDataset, UpdateDataset, create_dataset, update_dataset, remove_dataset, create_from_csv,
}
use documents_backend.Dataset.Relations.{
  CreateRelation, create_relation, remove_relation, link_records, unlink_records,
}
use documents_backend.Dataset.Linked.Records.{
  create_record-IsLinked, bulk_create_records-IsLinked, update_record-IsLinked,
  remove_record-IsLinked, bulk_delete_records-IsLinked,
}
use documents_backend.Dataset.Linked.Tables.{
  create_dataset-IsLinked, update_dataset-IsLinked, remove_dataset-IsLinked,
  create_from_csv-IsLinked, create_relation-IsLinked, remove_relation-IsLinked,
  unlink_records-IsLinked, link_records-IsLinked,
}
use documents_backend.Dataset.Linked.{IsLinked}

-- One request that changes the tables and returns.
pub data Step {R : Runtime} (s : Store R) : Store R → Type 0 where
  record_created :
      (d : ℕ) (data_ : Dict (Value R)) {r : DatasetRecord R} {t : Store R}
      → create_record R d data_ s ≡ ok (r, t)
      → Step s t
  records_created :
      (d : ℕ) (rows : List (Dict (Value R))) {i : Imported} {t : Store R}
      → bulk_create_records R d rows s ≡ ok (i, t)
      → Step s t
  record_updated :
      (d n : ℕ) (data_ : Dict (Value R)) {r : DatasetRecord R} {t : Store R}
      → update_record R d n data_ s ≡ ok (r, t)
      → Step s t
  record_removed : (d n : ℕ) {t : Store R} → remove_record R d n s ≡ ok t → Step s t
  records_removed :
      (d : ℕ) (ids : List ℕ) {n : ℕ} {t : Store R}
      → bulk_delete_records R d ids s ≡ ok (n, t)
      → Step s t
  dataset_created :
      (dto : CreateDataset) {d : Dataset} {t : Store R}
      → create_dataset R dto s ≡ ok (d, t)
      → Step s t
  dataset_updated :
      (id : ℕ) (dto : UpdateDataset) {d : Dataset} {t : Store R}
      → update_dataset R id dto s ≡ ok (d, t)
      → Step s t
  dataset_removed : (id : ℕ) {t : Store R} → remove_dataset R id s ≡ ok t → Step s t
  dataset_imported :
      (name : String) (schema : List DatasetField) (rows : List (Dict (Value R)))
      (project : Option ℕ)
      → Step s (create_from_csv R name schema rows project s).1
  relation_created :
      (dto : CreateRelation) {r : Relation} {t : Store R}
      → create_relation R dto s ≡ ok (r, t)
      → Step s t
  relation_removed : (id : ℕ) {t : Store R} → remove_relation R id s ≡ ok t → Step s t
  linked :
      (id source target : ℕ) {l : Link} {t : Store R}
      → link_records R id source target s ≡ ok (l, t)
      → Step s t
  unlinked : (id link : ℕ) {t : Store R} → unlink_records R id link s ≡ ok t → Step s t

-- A sequence of requests.
pub data Run {R : Runtime} (s : Store R) : Store R → Type 0 where
  done : Run s s
  then_step : {t u : Store R} → Run s t → Step t u → Run s u

module _ {R : Runtime} where
  Step-IsLinked : (s : Store R) {t : Store R} → Step s t → IsLinked s → IsLinked t
  Step-IsLinked s (record_created d data_ e) = create_record-IsLinked d data_ s e
  Step-IsLinked s (records_created d rows e) = bulk_create_records-IsLinked d rows s e
  Step-IsLinked s (record_updated d n data_ e) = update_record-IsLinked d n data_ s e
  Step-IsLinked s (record_removed d n e) = remove_record-IsLinked d n s e
  Step-IsLinked s (records_removed d ids e) = bulk_delete_records-IsLinked d ids s e
  Step-IsLinked s (dataset_created dto e) = create_dataset-IsLinked dto s e
  Step-IsLinked s (dataset_updated id dto e) = update_dataset-IsLinked id dto s e
  Step-IsLinked s (dataset_removed id e) = remove_dataset-IsLinked id s e
  Step-IsLinked s (dataset_imported name schema rows project) =
      create_from_csv-IsLinked name schema rows project s
  Step-IsLinked s (relation_created dto e) = create_relation-IsLinked dto s e
  Step-IsLinked s (relation_removed id e) = remove_relation-IsLinked id s e
  Step-IsLinked s (linked id source target e) = link_records-IsLinked id source target s e
  Step-IsLinked s (unlinked id link e) = unlink_records-IsLinked id link s e

  -- After every sequence of requests that starts with sound links, each link has its relation and
  -- its two records, and these belong to the datasets that the relation joins.
  pub Run-IsLinked : (s : Store R) {t : Store R} → Run s t → IsLinked s → IsLinked t
  Run-IsLinked s done h = h
  Run-IsLinked s (then_step {t} run step) h = Step-IsLinked t step (Run-IsLinked s run h)
