-- ===== src/Entity/Service.antt =====
-- `create`, `update` and the updates of translations of src/entity/entity.service.ts. Their
-- statements run without a transaction, so that a failure leaves what was written before it.
use documents_backend.Common.{
  ℕ, String, Bool, true, false, not, ◌&&◌, Option, none, some, List, [], ◌∷◌, ◌++◌, map, filter,
  find, any, nat_eq, str_eq, get_or, or_else, if◌then◌else◌, Result, ok, err, not_found, fault,
}
use documents_backend.Common.Dict.{Dict, insert}
use documents_backend.Entity.Store.{EntityAlias, Entity, Store, find_entity, save_entity}
use documents_backend.Entity.Merge.{or_null}

-- What is read here of the rows of other modules, and the number of a new row.
pub record Catalog : Type 0 where
  -- The name of each type of entities.
  pub type_name : ℕ → Option String
  pub has_project : ℕ → Bool
  -- The project of each resource.
  pub resource : ℕ → Option (Option ℕ)
  pub new_id : Store → ℕ

pub record CreateEntity : Type 0 where
  pub name : String
  pub translations : Option (Dict String)
  pub aliases : Option (List EntityAlias)
  pub entity_type_id : ℕ
  pub is_global : Option Bool
  pub project_ids : Option (List ℕ)

pub record UpdateEntity : Type 0 where
  pub name : Option String
  pub description : Option String
  pub translations : Option (Dict String)
  pub aliases : Option (List EntityAlias)
  pub entity_type_id : Option ℕ
  pub is_global : Option Bool
  pub project_ids : Option (List ℕ)

-- What a handler without a transaction gives: an answer or an exception, and the store after it.
abbrev pub Attempt : Type 0 → Type 0
Attempt A = Result A × Store

abbrev pub answer_with : {A : Type 0} → A → Attempt (Unit {0}) → Attempt A
answer_with a (ok _, s) = (ok a, s)
answer_with a (err e, s) = (err e, s)

-- The rows that one statement inserts have the keys of no others, and their projects are there.
unfoldable pub can_insert : Catalog → ℕ → List ℕ → Store → Bool
can_insert cat entity_id [] s = true
can_insert cat entity_id (p ∷ ids) s =
    cat.has_project p
    && not (any (nat_eq p) ids)
    && not (any (λ r. nat_eq r.entity_id entity_id && nat_eq r.project_id p) s.entity_projects)
    && can_insert cat entity_id ids s

unfoldable pub insert_projects : Catalog → ℕ → List ℕ → Store → Attempt (Unit {0})
insert_projects cat entity_id ids s =
    if can_insert cat entity_id ids s
    then (
      ok tt,
      record s {
        entity_projects =
            s.entity_projects ++ map (λ p. record { entity_id = entity_id; project_id = p }) ids;
      },
    )
    else (err fault, s)

abbrev pub new_entity : ℕ → CreateEntity → Entity
new_entity id dto = record {
  id = id;
  name = dto.name;
  description = none;
  is_global = get_or dto.is_global false;
  translations = dto.translations;
  aliases = dto.aliases;
  entity_type = dto.entity_type_id;
}

unfoldable pub create_of_type : Catalog → Option String → CreateEntity → Store → Attempt Entity
create_of_type cat none dto s = (err (not_found "EntityType not found"), s)
create_of_type cat (some _) dto s =
    let entity = new_entity (cat.new_id s) dto in
    answer_with entity (
      insert_projects cat entity.id (get_or dto.project_ids [])
        (record s { entities = s.entities ++ entity ∷ [] }))

abbrev pub create_entity : Catalog → CreateEntity → Store → Attempt Entity
create_entity cat dto s = create_of_type cat (cat.type_name dto.entity_type_id) dto s

abbrev pub assigned : UpdateEntity → ℕ → Entity → Entity
assigned dto entity_type e = record e {
  name = get_or dto.name e.name;
  description = or_else dto.description e.description;
  is_global = get_or dto.is_global e.is_global;
  translations = or_else dto.translations e.translations;
  aliases = or_else dto.aliases e.aliases;
  entity_type = entity_type;
}

abbrev pub drop_projects : ℕ → Store → Store
drop_projects entity_id s = record s {
  entity_projects = filter (λ p. not (nat_eq p.entity_id entity_id)) s.entity_projects;
}

-- The associations are deleted, and then the new ones inserted.
abbrev pub replace_projects : Catalog → Entity → Option (List ℕ) → Store → Attempt (Option Entity)
replace_projects cat e none s = (ok (some e), s)
replace_projects cat e (some ids) s =
    answer_with (some e) (insert_projects cat e.id ids (drop_projects e.id s))

abbrev pub save_assigned : Catalog → UpdateEntity → ℕ → Entity → Store → Attempt (Option Entity)
save_assigned cat dto entity_type e s =
    let saved = assigned dto entity_type e in
    replace_projects cat saved dto.project_ids (save_entity saved s)

-- A type that is 0 counts as none.
abbrev pub retype : Catalog → UpdateEntity → ℕ → Entity → Store → Attempt (Option Entity)
retype cat dto type e s = elim (cat.type_name type) [
  | none ↦ (err (not_found "EntityType not found"), s)
  | some _ ↦ save_assigned cat dto type e s
]

abbrev pub update_to_type :
    Catalog → UpdateEntity → Option ℕ → Entity → Store → Attempt (Option Entity)
update_to_type cat dto none e s = save_assigned cat dto e.entity_type e s
update_to_type cat dto (some type) e s =
    if not (nat_eq type 0) && not (nat_eq type e.entity_type)
    then retype cat dto type e s
    else save_assigned cat dto e.entity_type e s

unfoldable pub update_existing :
    Catalog → UpdateEntity → Option Entity → Store → Attempt (Option Entity)
update_existing cat dto none s = (ok none, s)
update_existing cat dto (some e) s = update_to_type cat dto dto.entity_type_id e s

abbrev pub update_entity : Catalog → ℕ → UpdateEntity → Store → Attempt (Option Entity)
update_entity cat id dto s = update_existing cat dto (find_entity id s) s

-- `UPDATE entities SET translations = ... WHERE id = ...`.
abbrev pub set_translations : ℕ → (Option (Dict String) → Option (Dict String)) → Store → Store
set_translations id change s = record s {
  entities =
      map (λ e. if nat_eq e.id id then record e { translations = change e.translations } else e)
        s.entities;
}

abbrev pub update_translations : ℕ → Dict String → Store → Option Entity × Store
update_translations id translations s =
    let after = set_translations id (λ _. or_null translations) s in (find_entity id after, after)

-- `translations || new` of two JSON objects: the members of the second take the place of the
-- first's.
unfoldable pub concat_translations : Dict String → Dict String → Dict String
concat_translations old [] = old
concat_translations old ((locale, value) ∷ more) =
    concat_translations (insert locale value old) more

abbrev pub merge_translations_only : ℕ → Dict String → Store → Store
merge_translations_only id [] s = s
merge_translations_only id (t ∷ ts) s =
    set_translations id (λ old. some (concat_translations (get_or old []) (t ∷ ts))) s

abbrev pub merge_translations_of : ℕ → Dict String → Store → Option Entity × Store
merge_translations_of id translations s =
    let after = merge_translations_only id translations s in (find_entity id after, after)

abbrev pub find_by_name_and_type : String → ℕ → Store → Option Entity
find_by_name_and_type name entity_type s =
    find (λ e. str_eq e.name name && nat_eq e.entity_type entity_type) s.entities
