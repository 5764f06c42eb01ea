-- ===== src/Entity/Tests.antt =====
-- Runs of `merge` of src/entity/entity.service.ts and of the merges under review, and the theorems
-- on them at concrete rows.
use documents_backend.Common.{false, true, ◌≡◌, refl, ℕ, none, some, [], ◌∷◌, arith, ok}
use documents_backend.Entity.Store.{document, project, global, Entity, Store, find_entity}
use documents_backend.Common.Dict.{lookup, insert}
use documents_backend.Common.Text.{is_space}
use documents_backend.Entity.Merge.{
  alias_key, plain, add_alias, set_aliases, add_aliases, is_written, add_translations,
  merge_translations, represent, merge_found, merge,
}
use documents_backend.Entity.Linked.{IsKeyed}
use documents_backend.Entity.Pending.{
  pending, under_review, confirmed, PendingEntity, Review, success_of, find_entry, merge_entity,
  cancel_merge,
}
use documents_backend.Entity.Cancelled.{cancel_merge-merge_entity}
use documents_backend.Entity.United.{IsUnited, merge-IsUnited, merge-IsKeyed}

-- What the runs below unfold.
machine : Unit {0}
unfolding lookup insert alias_key add_alias set_aliases add_aliases is_written is_space
    add_translations merge_translations represent merge_found merge merge_entity cancel_merge
machine = tt

abbrev city : Entity
city = record {
  id = 1;
  name = "Barcelona";
  description = none;
  is_global = false;
  translations = some (("fr", "Barcelone") ∷ []);
  aliases = none;
  entity_type = 1;
}

abbrev short : Entity
short = record {
  id = 2;
  name = "BCN";
  description = none;
  is_global = true;
  translations = some (("fr", "") ∷ ("es", "Barna") ∷ []);
  aliases = some (plain "en" "Barcelona" ∷ plain "ca" "Can Fanga" ∷ []);
  entity_type = 1;
}

abbrev store : Store
store = record {
  entities = city ∷ short ∷ [];
  resource_entities =
      record { resource_id = 7; entity_id = 1 }
      ∷ record { resource_id = 7; entity_id = 2 }
      ∷ record { resource_id = 8; entity_id = 2 }
      ∷ [];
  entity_projects = record { entity_id = 2; project_id = 3 } ∷ [];
  knowledge_entries = record { id = 4; entity = some 2 } ∷ [];
}

abbrev merged : Entity
merged = record city {
  translations = some (("fr", "Barcelone") ∷ ("es", "Barna") ∷ []);
  aliases = some (
      plain "en" "BCN"
      ∷ plain "en" "Barcelona"
      ∷ plain "ca" "Can Fanga"
      ∷ plain "es" "Barna"
      ∷ plain "fr" "Barcelone"
      ∷ []);
}

-- The projects and the entries of the source are not moved to the target.
abbrev joined : Store
joined = record {
  entities = merged ∷ [];
  resource_entities =
      record { resource_id = 7; entity_id = 1 } ∷ record { resource_id = 8; entity_id = 1 } ∷ [];
  entity_projects = [];
  knowledge_entries = record { id = 4; entity = none } ∷ [];
}

merges : merge 2 1 store ≡ ok (merged, joined)
unfolding machine
merges = refl

-- An entity that is merged with itself is deleted with its links.
abbrev self_merged : Store
self_merged = record {
  entities = short ∷ [];
  resource_entities =
      record { resource_id = 7; entity_id = 2 } ∷ record { resource_id = 8; entity_id = 2 } ∷ [];
  entity_projects = store.entity_projects;
  knowledge_entries = store.knowledge_entries;
}

merges_itself :
    merge 1 1 store
    ≡ ok (
      record city { aliases = some (plain "en" "Barcelona" ∷ plain "fr" "Barcelone" ∷ []) },
      self_merged,
    )
unfolding machine
merges_itself = refl

merge-IsUnited_example : IsUnited 2 1 store (merge 2 1 store)
merge-IsUnited_example = merge-IsUnited 2 1 store (ground arith)

merge-IsKeyed_example : IsKeyed joined.resource_entities
unfolding machine
merge-IsKeyed_example =
    merge-IsKeyed 2 1 store {merged = merged} {after = joined} (ground arith)
      (refl, (refl, (refl, tt))) merges

abbrev entry : PendingEntity
entry = record {
  id = 5;
  resource_id = 7;
  name = "Gaudi";
  description = none;
  language = some "es";
  translations = none;
  aliases = none;
  scope = document;
  status = pending;
  merged_target_type = none;
  merged_target_id = none;
  merged_at = none;
  entity_type = some 1;
}

abbrev architect : PendingEntity
architect = record entry {
  id = 6;
  name = "Antoni Gaudi";
  aliases = some (record (plain "en" "the architect") { scope = some project } ∷ []);
}

abbrev review : Review
review = record { entries = entry ∷ architect ∷ []; library = store }

cancel_merge-merge_entity_example :
    (after : Review) × (cancel_merge 5 (merge_entity 5 under_review 6 document 9 review).1
      ≡ success_of "Merge cancelled successfully" after)
    × ((id : ℕ) → find_entry id after ≡ find_entry id review)
    × (after.library ≡ store)
cancel_merge-merge_entity_example =
    cancel_merge-merge_entity entry architect
      (record (plain "en" "the architect") { scope = some project } ∷ []) 9 review refl refl refl
      (ground arith) (ground arith) refl refl

-- With another scope for the alias, it stays after the merge was taken back.
keeps_alias :
    find_entry 6 (cancel_merge 5 (merge_entity 5 under_review 6 global 9 review).1).1
    ≡ some (record architect {
      aliases = some (
          record (plain "en" "the architect") { scope = some project }
          ∷ record (plain "en" "Gaudi") { scope = some global }
          ∷ []);
    })
unfolding machine
keeps_alias = refl

-- An alias that the library's entity had before goes with the one that is taken back.
abbrev twin : PendingEntity
twin = record entry { name = "Can Fanga" }

loses_alias :
    find_entity 2
      (cancel_merge 5
        (merge_entity 5 confirmed 2 document 9 (record review { entries = twin ∷ [] })).1).1.library
    ≡ some (record short { aliases = some (plain "en" "Barcelona" ∷ []) })
unfolding machine
loses_alias = refl
