-- ===== src/Entity/Confirm.antt =====
-- The confirmation of entities under review: `materializePendingEntity`, `confirmEntity` and the
-- loop of `confirmEntities` of src/pending-entity/pending-entity.service.ts.
use documents_backend.Common.{
  ℕ, ◌+◌, String, Bool, true, false, not, ◌&&◌, Option, none, some, List, [], ◌∷◌, filter, nat_eq,
  str_eq, get_or, if◌then◌else◌, Result, ok, err, fault,
}
use documents_backend.Entity.Store.{
  project, global, Entity, Store, add_entity_to_resource, add_project_to_entity,
}
use documents_backend.Entity.Merge.{or_null}
use documents_backend.Entity.Service.{
  Catalog, CreateEntity, UpdateEntity, Attempt, create_entity, update_entity, find_by_name_and_type,
}
use documents_backend.Entity.Pending.{
  pending, merged, PendingEntity, Review, Reply, refusal, success_of, find_entry, scope_eq,
}

-- The project of the resource, if the scope asks for it.
abbrev pub scoped_project : PendingEntity → Option ℕ → Option ℕ
scoped_project p resource_project = if scope_eq p.scope project then resource_project else none

abbrev pub listed : {A : Type 0} → Option A → Option (List A)
listed none = none
listed (some a) = some (a ∷ [])

abbrev pub create_dto : PendingEntity → ℕ → Option ℕ → CreateEntity
create_dto p type resource_project = record {
  name = p.name;
  translations = none;
  aliases = or_null (get_or p.aliases []);
  entity_type_id = type;
  is_global = if scope_eq p.scope global then some true else none;
  project_ids = listed (scoped_project p resource_project);
}

abbrev pub global_dto : UpdateEntity
global_dto = record {
  name = none;
  description = none;
  translations = none;
  aliases = none;
  entity_type_id = none;
  is_global = some true;
  project_ids = none;
}

-- The scope of an entity that is there is widened.
abbrev pub widen : Catalog → PendingEntity → Entity → Store → Attempt (Option Entity)
widen cat p e s =
    if scope_eq p.scope global && not e.is_global
    then update_entity cat e.id global_dto s
    else (ok (some e), s)

abbrev pub add_scoped_project : ℕ → Option ℕ → Store → Store
add_scoped_project entity_id none s = s
add_scoped_project entity_id (some p) s = add_project_to_entity entity_id p s

abbrev pub after_widen :
    PendingEntity → Entity → Option ℕ → Attempt (Option Entity) → Attempt Entity
after_widen p e resource_project (err f, s) = (err f, s)
after_widen p e resource_project (ok _, s) =
    (ok e, add_scoped_project e.id (scoped_project p resource_project) s)

abbrev pub entity_for :
    Catalog → PendingEntity → ℕ → Option ℕ → Option Entity → Store → Attempt Entity
entity_for cat p type resource_project none s =
    create_entity cat (create_dto p type resource_project) s
entity_for cat p type resource_project (some e) s =
    after_widen p e resource_project (widen cat p e s)

-- The link to the resource, and the removal of the entry.
abbrev pub close_entry : PendingEntity → Review → Attempt Entity → Result (Unit {0}) × Review
close_entry p r (err f, s) = (err f, record r { library = s })
close_entry p r (ok e, s) = (
  ok tt,
  record {
    entries = filter (λ x. not (nat_eq x.id p.id)) r.entries;
    library = add_entity_to_resource p.resource_id e s;
  },
)

unfoldable pub materialize :
    Catalog → PendingEntity → ℕ → Option ℕ → Review → Result (Unit {0}) × Review
materialize cat p type resource_project r =
    close_entry p r (
      entity_for cat p type resource_project (find_by_name_and_type p.name type r.library)
        r.library)

-- `pending.entityType?.name`, if it is a text and not empty, with the number of the type.
abbrev pub named_type : Catalog → Option ℕ → Option ℕ
named_type cat none = none
named_type cat (some type) = elim (cat.type_name type) [
  | none ↦ none
  | some name ↦ if str_eq name "" then none else some type
]

abbrev pub reply_to : Result (Unit {0}) × Review → Reply × Review
reply_to (ok _, r) = success_of "Entity confirmed successfully" r
reply_to (err _, r) = refusal "Failed to confirm entity" r

abbrev pub confirm_on : Catalog → PendingEntity → ℕ → Option (Option ℕ) → Review → Reply × Review
confirm_on cat p type none r = refusal "Resource not found" r
confirm_on cat p type (some resource_project) r =
    reply_to (materialize cat p type resource_project r)

abbrev pub confirm_typed : Catalog → PendingEntity → Option ℕ → Review → Reply × Review
confirm_typed cat p none r = refusal "Entity type is required" r
confirm_typed cat p (some type) r = confirm_on cat p type (cat.resource p.resource_id) r

abbrev pub is_merged : PendingEntity → Bool
is_merged p = elim p.status [ merged ↦ true | pending ↦ false ]

abbrev pub confirm_found : Catalog → Option PendingEntity → Review → Reply × Review
confirm_found cat none r = refusal "Pending entity not found" r
confirm_found cat (some p) r =
    if is_merged p
    then refusal "Cannot confirm a merged entity" r
    else confirm_typed cat p (named_type cat p.entity_type) r

unfoldable pub confirm_entity : Catalog → ℕ → Review → Reply × Review
confirm_entity cat id r = confirm_found cat (find_entry id r) r

-- One round of the loop, with its exceptions caught.
abbrev pub try_one :
    Catalog → Option ℕ → PendingEntity → Option ℕ → Review → Result (Unit {0}) × Review
try_one cat resource_project p none r = (err fault, r)
try_one cat resource_project p (some type) r = materialize cat p type resource_project r

-- The count of the confirmed entries, the names of the others, and the review after the loop.
abbrev pub Confirmed : Type 0
Confirmed = ℕ × List String × Review

abbrev pub count_in : PendingEntity → Result (Unit {0}) → ℕ × List String → ℕ × List String
count_in p (ok _) (confirmed, errors) = (confirmed + 1, errors)
count_in p (err _) (confirmed, errors) = (confirmed, p.name ∷ errors)

unfoldable pub confirm_all : Catalog → Option ℕ → List PendingEntity → Review → Confirmed
confirm_all cat resource_project [] r = (0, [], r)
confirm_all cat resource_project (p ∷ ps) r =
    let (result, after) = try_one cat resource_project p (named_type cat p.entity_type) r in
    let (confirmed, errors, final) = confirm_all cat resource_project ps after in
    let (count, names) = count_in p result (confirmed, errors) in (count, names, final)

-- `confirmEntities` up to its loop, on the entries of the resource that are not merged. The order is
-- the query's, `ORDER BY name`.
abbrev pub confirm_entities :
    Catalog → (List PendingEntity → List PendingEntity) → ℕ → Review → Option Confirmed
confirm_entities cat sort resource_id r = elim (cat.resource resource_id) [
  | none ↦ none
  | some resource_project ↦
      let found = sort (filter (λ p. nat_eq p.resource_id resource_id) r.entries) in
      some (confirm_all cat resource_project (filter (λ p. not (is_merged p)) found) r)
]
