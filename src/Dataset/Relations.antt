-- ===== src/Dataset/Relations.antt =====
-- The operations of src/dataset/dataset.service.ts on relations and on the links of records.
use documents_backend.Common.{
  ℕ, suc, String, Bool, true, false, not, ◌&&◌, ◌||◌, Option, none, some, List, [], ◌∷◌, ◌++◌, map,
  filter, find, nat_eq, is_some, if◌then◌else◌, Result, ok, fault, bad_request, throw_if, ◌>>=◌,
  ◌>>◌,
}
use documents_backend.Dataset.Types.{Runtime, DatasetRecord}
use documents_backend.Dataset.Store.{
  Relation, Link, Store, find_dataset, find_record, find_relation, delete_where,
}
use documents_backend.Dataset.Records.{found}
use documents_backend.Dataset.Source.{nonempty}

pub record CreateRelation : Type 0 where
  pub name : Option String
  pub source_dataset_id : ℕ
  pub target_dataset_id : ℕ
  pub relation_type : String

pub data Direction : Type 0 where
  outgoing incoming : Direction

module _ (R : Runtime) where
  unfoldable pub create_relation : CreateRelation → Store R → Result (Relation × Store R)
  create_relation dto s =
      found "Source dataset not found" (find_dataset dto.source_dataset_id s) >>= λ _.
      found "Target dataset not found" (find_dataset dto.target_dataset_id s) >>= λ _.
      let relation : Relation = record {
        id = s.next;
        name = nonempty dto.name;
        source_dataset = dto.source_dataset_id;
        target_dataset = dto.target_dataset_id;
        relation_type = dto.relation_type;
      } in
      ok (relation, record s { relations = s.relations ++ relation ∷ []; next = suc s.next })

  unfoldable pub remove_relation : ℕ → Store R → Result (Store R)
  remove_relation relation_id s =
      found "Relation not found" (find_relation relation_id s.relations) >>= λ _.
      ok (delete_where (λ _. true) (λ r. not (nat_eq r.id relation_id)) (λ _. true) s)

  -- The record is there and belongs to the dataset.
  abbrev pub belongs : Option (DatasetRecord R) → ℕ → Bool
  belongs none dataset = false
  belongs (some r) dataset = nat_eq r.dataset dataset

  -- The table has one link for a relation and two records (`@Unique`).
  abbrev pub is_linked : ℕ → ℕ → ℕ → List Link → Bool
  is_linked relation source target links = is_some (
      find
        (λ l.
          nat_eq l.relation relation
          && nat_eq l.source_record source
          && nat_eq l.target_record target)
        links)

  abbrev pub new_link : ℕ → ℕ → ℕ → ℕ → Link
  new_link id relation source target = record {
    id = id;
    relation = relation;
    source_record = source;
    target_record = target;
  }

  unfoldable pub link_records : ℕ → ℕ → ℕ → Store R → Result (Link × Store R)
  link_records relation_id source target s = do
    relation ← found "Relation not found" (find_relation relation_id s.relations)
    throw_if (not (belongs (find_record source s.records) relation.source_dataset))
        (bad_request "Source record does not belong to the source dataset of this relation")
    throw_if (not (belongs (find_record target s.records) relation.target_dataset))
        (bad_request "Target record does not belong to the target dataset of this relation")
    throw_if (is_linked relation_id source target s.links) fault
    ok (
      new_link s.next relation_id source target,
      record s {
        links = s.links ++ new_link s.next relation_id source target ∷ [];
        next = suc s.next;
      },
    )

  unfoldable pub unlink_records : ℕ → ℕ → Store R → Result (Store R)
  unlink_records relation_id link_id s =
      found "Link not found"
        (find (λ l. nat_eq l.id link_id && nat_eq l.relation relation_id) s.links)
      >>= λ _. ok (delete_where (λ _. true) (λ _. true) (λ l. not (nat_eq l.id link_id)) s)

  -- A link as a record sees it: the record at its other end and the direction.
  abbrev pub seen_from : ℕ → Link → ℕ × Direction
  seen_from record_id l =
      if nat_eq l.source_record record_id
      then (l.target_record, outgoing)
      else (l.source_record, incoming)

  unfoldable pub get_linked_records : ℕ → Store R → List (ℕ × Direction)
  get_linked_records record_id s =
      map (seen_from record_id)
        (filter (λ l. nat_eq l.source_record record_id || nat_eq l.target_record record_id) s.links)
