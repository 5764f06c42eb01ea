-- ===== src/Entity/Store.antt =====
-- The rows of src/entity/entity.entity.ts and of the tables that refer to it, with the keys of
-- src/migrations, with the operations that change single rows: `remove` and `addProjectToEntity`
-- of src/entity/entity.service.ts, `addEntityToResource`, `removeEntityFromResource` and
-- `clearResourceEntities` of src/resource/resource.service.ts.
use documents_backend.Common.{
  ℕ, String, Bool, false, not, ◌&&◌, Option, none, some, List, [], ◌∷◌, ◌++◌, map, filter, find,
  any, nat_eq, if◌then◌else◌,
}
use documents_backend.Common.Dict.{Dict}

pub data EntityScope : Type 0 where
  document project global : EntityScope

-- An alias that comes from a pending entity has a scope as well.
pub record EntityAlias : Type 0 where
  pub locale : String
  pub value : String
  pub scope : Option EntityScope

pub record Entity : Type 0 where
  pub id : ℕ
  pub name : String
  pub description : Option String
  pub is_global : Bool
  pub translations : Option (Dict String)
  pub aliases : Option (List EntityAlias)
  pub entity_type : ℕ

pub record ResourceEntity : Type 0 where
  pub resource_id : ℕ
  pub entity_id : ℕ

pub record EntityProject : Type 0 where
  pub entity_id : ℕ
  pub project_id : ℕ

pub record KnowledgeEntry : Type 0 where
  pub id : ℕ
  pub entity : Option ℕ

pub record Store : Type 0 where
  pub entities : List Entity
  pub resource_entities : List ResourceEntity
  pub entity_projects : List EntityProject
  pub knowledge_entries : List KnowledgeEntry

abbrev pub is_id : Option ℕ → ℕ → Bool
is_id none id = false
is_id (some n) id = nat_eq n id

abbrev pub find_entity : ℕ → Store → Option Entity
find_entity id s = find (λ e. nat_eq e.id id) s.entities

-- `save` of a row that is there.
abbrev pub save_entity : Entity → Store → Store
save_entity entity s = record s {
  entities = map (λ e. if nat_eq e.id entity.id then entity else e) s.entities;
}

-- `ON DELETE SET NULL` of an entry.
abbrev pub forget : ℕ → KnowledgeEntry → KnowledgeEntry
forget id entry = if is_id entry.entity id then record entry { entity = none } else entry

-- The deletion of an entity, which takes the rows that join it to others (`ON DELETE CASCADE`).
abbrev pub remove : ℕ → Store → Store
remove id s = record {
  entities = filter (λ e. not (nat_eq e.id id)) s.entities;
  resource_entities = filter (λ r. not (nat_eq r.entity_id id)) s.resource_entities;
  entity_projects = filter (λ p. not (nat_eq p.entity_id id)) s.entity_projects;
  knowledge_entries = map (forget id) s.knowledge_entries;
}

abbrev pub is_on : ℕ → ℕ → ResourceEntity → Bool
is_on resource_id entity_id r = nat_eq r.resource_id resource_id && nat_eq r.entity_id entity_id

abbrev pub add_entity_to_resource : ℕ → Entity → Store → Store
add_entity_to_resource resource_id entity s =
    if any (is_on resource_id entity.id) s.resource_entities then s else record s {
      resource_entities =
          s.resource_entities ++ record { resource_id = resource_id; entity_id = entity.id } ∷ [];
    }

abbrev pub remove_entity_from_resource : ℕ → ℕ → Store → Store
remove_entity_from_resource resource_id entity_id s = record s {
  resource_entities = filter (λ r. not (is_on resource_id entity_id r)) s.resource_entities;
}

abbrev pub clear_resource_entities : ℕ → Store → Store
clear_resource_entities resource_id s = record s {
  resource_entities = filter (λ r. not (nat_eq r.resource_id resource_id)) s.resource_entities;
}

abbrev pub add_project_to_entity : ℕ → ℕ → Store → Store
add_project_to_entity entity_id project_id s =
    if any (λ p. nat_eq p.entity_id entity_id && nat_eq p.project_id project_id) s.entity_projects
    then s
    else record s {
      entity_projects =
          s.entity_projects ++ record { entity_id = entity_id; project_id = project_id } ∷ [];
    }
