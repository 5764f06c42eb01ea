-- ===== src/Dataset/Store.antt =====
-- The tables of src/dataset (dataset.entity.ts, dataset-record.entity.ts, dataset-relation.entity.ts,
-- dataset-record-link.entity.ts). The database numbers the rows that are inserted; what it deletes
-- along with a row is what the entities declare with `onDelete: 'CASCADE'`.
use documents_backend.Common.{
  ℕ, String, Bool, false, ◌&&◌, Option, none, some, List, [], ◌∷◌, find, filter, nat_eq,
  if◌then◌else◌,
}
use documents_backend.Common.Dict.{Dict}
use documents_backend.Dataset.Types.{Runtime, DatasetField, DatasetRecord}

pub data SourceMode : Type 0 where
  manual project_resources resource_selection : SourceMode

-- The items and the values of a `sourceConfig`, as far as they are looked at.
pub data ConfigItem : Type 0 where
  text_item finite_number other_item : ConfigItem

pub data ConfigValue : Type 0 where
  array : List ConfigItem → ConfigValue
  other_value : ConfigValue

pub record Dataset : Type 0 where
  pub id : ℕ
  pub name : String
  pub description : Option String
  pub project : Option ℕ
  pub schema : List DatasetField
  pub source_mode : SourceMode
  pub source_config : Dict ConfigValue

pub record Relation : Type 0 where
  pub id : ℕ
  pub name : Option String
  pub source_dataset : ℕ
  pub target_dataset : ℕ
  pub relation_type : String

pub record Link : Type 0 where
  pub id : ℕ
  pub relation : ℕ
  pub source_record : ℕ
  pub target_record : ℕ

pub record Store (R : Runtime) : Type 0 where
  pub datasets : List Dataset
  pub records : List (DatasetRecord R)
  pub relations : List Relation
  pub links : List Link
  pub next : ℕ

-- The row is there and stays.
abbrev pub holds {ℓ} : {A : Type ℓ} → (A → Bool) → Option A → Bool
holds p none = false
holds p (some a) = p a

abbrev pub find_relation : ℕ → List Relation → Option Relation
find_relation id relations = find (λ r. nat_eq r.id id) relations

-- `repository.save` of a dataset that was read.
unfoldable pub save_dataset : Dataset → List Dataset → List Dataset
save_dataset d [] = []
save_dataset d (x ∷ datasets) =
    if nat_eq x.id d.id then d ∷ datasets else x ∷ save_dataset d datasets

module _ {R : Runtime} where
  abbrev pub find_dataset : ℕ → Store R → Option Dataset
  find_dataset id s = find (λ d. nat_eq d.id id) s.datasets

  abbrev pub find_record : ℕ → List (DatasetRecord R) → Option (DatasetRecord R)
  find_record id records = find (λ r. nat_eq r.id id) records

  -- `repository.save` of a row that was read.
  unfoldable pub save_record : DatasetRecord R → List (DatasetRecord R) → List (DatasetRecord R)
  save_record r [] = []
  save_record r (x ∷ records) = if nat_eq x.id r.id then r ∷ records else x ∷ save_record r records

  -- The rows that a deletion leaves: a link goes with its relation and with either record.
  unfoldable pub delete_where :
      (DatasetRecord R → Bool) → (Relation → Bool) → (Link → Bool) → Store R → Store R
  delete_where keep_record keep_relation keep_link s = record s {
    records = filter keep_record s.records;
    relations = filter keep_relation s.relations;
    links =
        filter
          (λ l.
            keep_link l
            && holds keep_relation (find_relation l.relation s.relations)
            && holds keep_record (find_record l.source_record s.records)
            && holds keep_record (find_record l.target_record s.records))
          s.links;
  }
