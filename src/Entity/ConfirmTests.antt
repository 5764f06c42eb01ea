-- ===== src/Entity/ConfirmTests.antt =====
-- Runs of the confirmation and the retranslation of src/pending-entity/pending-entity.service.ts,
-- and their theorems at them.
use documents_backend.Common.{
  String, ◌≢◌, ◌&&◌, ◌||◌, Option, str_eq, ℕ, suc, ◌+◌, ◌<◌, true, false, ◌≡◌, refl, none, some,
  List, [], ◌∷◌, any, find, nat_eq, arith, All, err, fault, if◌then◌else◌,
}
use documents_backend.Entity.Store.{project, Entity, EntityProject, Store, is_on}
use documents_backend.Entity.Merge.{plain}
use documents_backend.Entity.Service.{
  Catalog, can_insert, insert_projects, create_of_type, update_existing, update_entity,
}
use documents_backend.Entity.Pending.{Reply, pending, PendingEntity, Review, success_of, find_entry}
use documents_backend.Entity.Confirm.{materialize, confirm_entity, confirm_all, global_dto}
use documents_backend.Common.Dict.{insert}
use documents_backend.Entity.Entries.{Translation, is_wanted, retranslate_entity}
use documents_backend.Entity.Retranslated.{languages_of, retranslate_entity-asks}
use documents_backend.Entity.Confirmed.{IsAnswered, confirm_all-IsAnswered}
use documents_backend.Entity.Materialized.{IsMade, IsFresh, confirm_entity-IsMade}

-- What the runs compute with.
machine : Unit {0}
unfolding can_insert insert_projects create_of_type update_existing materialize confirm_entity
    confirm_all
machine = tt

-- A number above those of all entities and of all their projects.
abbrev sum_ids : List Entity → ℕ
sum_ids [] = 0
sum_ids (e ∷ es) = e.id + sum_ids es

abbrev sum_joined : List EntityProject → ℕ
sum_joined [] = 0
sum_joined (x ∷ xs) = x.entity_id + sum_joined xs

abbrev next_id : Store → ℕ
next_id s = suc (sum_ids s.entities + sum_joined s.entity_projects)

unused : (n : ℕ) (es : List Entity) → sum_ids es < n → find (λ e. nat_eq e.id n) es ≡ none
unused n [] h = refl
unused n (e ∷ es) h = let rest = unused n es (omega arith) in ground (arith, rest)

unjoined :
    (n : ℕ) (xs : List EntityProject)
    → sum_joined xs < n
    → any (λ x. nat_eq x.entity_id n) xs ≡ false
unjoined n [] h = refl
unjoined n (x ∷ xs) h = let rest = unjoined n xs (omega arith) in ground (arith, rest)

abbrev catalog : Catalog
catalog = record {
  type_name = λ type. if nat_eq type 1 then some "PERSON" else none;
  has_project = λ p. nat_eq p 3;
  resource = λ r. if nat_eq r 7 then some (some 3) else none;
  new_id = next_id;
}

catalog-IsFresh : IsFresh catalog
catalog-IsFresh = record {
  unused = λ s. unused (next_id s) s.entities (omega arith);
  unjoined = λ s. unjoined (next_id s) s.entity_projects (omega arith);
}

abbrev entry : PendingEntity
entry = record {
  id = 5;
  resource_id = 7;
  name = "Gaudi";
  description = none;
  language = some "es";
  translations = none;
  aliases = some (plain "en" "the architect" ∷ []);
  scope = project;
  status = pending;
  merged_target_type = none;
  merged_target_id = none;
  merged_at = none;
  entity_type = some 1;
}

abbrev untyped : PendingEntity
untyped = record entry { id = 6; name = "Batllo"; entity_type = none }

abbrev known : Entity
known = record {
  id = 1;
  name = "Gaudi";
  description = none;
  is_global = false;
  translations = none;
  aliases = none;
  entity_type = 1;
}

abbrev empty : Store
empty = record {
  entities = [];
  resource_entities = [];
  entity_projects = [];
  knowledge_entries = [];
}

abbrev library : Store
library = record empty { entities = known ∷ [] }

confirm_entity-IsMade_example :
    (after : Review) × (n : ℕ) × (confirm_entity catalog 5
        (record { entries = entry ∷ untyped ∷ []; library = library })
      ≡ success_of "Entity confirmed successfully" after)
    × (find_entry 5 after ≡ none)
    × IsMade entry 1 n after.library
    × (any (is_on 7 n) after.library.resource_entities ≡ true)
confirm_entity-IsMade_example =
    confirm_entity-IsMade catalog 5 (record { entries = entry ∷ untyped ∷ []; library = library })
      entry 1 "PERSON" (some 3) catalog-IsFresh (refl, tt) refl refl refl refl refl
      (λ q e. ground (arith, e))

-- The aliases of the entry are not given to an entity that is there.
drops_aliases :
    (confirm_entity catalog 5 (record { entries = entry ∷ []; library = library })).1.library
    ≡ record empty {
      entities = known ∷ [];
      resource_entities = record { resource_id = 7; entity_id = 1 } ∷ [];
      entity_projects = record { entity_id = 1; project_id = 3 } ∷ [];
    }
unfolding machine
drops_aliases = refl

confirm_all-IsAnswered_example :
    (1 + 1 ≡ 2)
    × All
        (IsAnswered catalog
          (some 3)
          ("Batllo" ∷ [])
          (confirm_all catalog
            (some 3)
            (entry ∷ untyped ∷ [])
            (record { entries = entry ∷ untyped ∷ []; library = empty })).2)
        (entry ∷ untyped ∷ [])
unfolding machine
confirm_all-IsAnswered_example =
    confirm_all-IsAnswered catalog (some 3) (entry ∷ untyped ∷ [])
      (record { entries = entry ∷ untyped ∷ []; library = empty })

-- A project that is named twice fails the insertion after the associations were deleted.
loses_projects :
    update_entity catalog 1
      (record global_dto { is_global = none; project_ids = some (3 ∷ 3 ∷ []) })
      (record library { entity_projects = record { entity_id = 1; project_id = 3 } ∷ [] })
    ≡ (err fault, library)
unfolding machine
loses_projects = refl

abbrev answered : (Reply × Review) × Option Translation
answered =
    retranslate_entity 5 "Gaudi i Cornet" "ca" "ca" "fr"
      (record { entries = entry ∷ []; library = empty })

retranslate_entity-asks_example :
    ((l : String)
      → any (str_eq l) (languages_of answered.1)
        ≡ (is_wanted (("ca", "Gaudi i Cornet") ∷ []) l && (str_eq l "ca" || str_eq l "fr")))
    × ((a b : String) (rest : List String) → languages_of answered.1 ≡ a ∷ b ∷ rest → a ≢ b)
    × (find_entry 5 answered.0.1
        ≡ some (record entry { translations = some (("ca", "Gaudi i Cornet") ∷ []) }))
unfolding insert
retranslate_entity-asks_example =
    retranslate_entity-asks 5 "Gaudi i Cornet" "ca" "ca" "fr"
      (record { entries = entry ∷ []; library = empty }) entry refl
