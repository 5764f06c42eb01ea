-- ===== src/Entity/Materialized.antt =====
-- What `confirmEntity` of src/pending-entity/pending-entity.service.ts leaves in the library.
use documents_backend.Common.{
  ℕ, String, Bool, true, false, not, ◌&&◌, ◌||◌, ◌≡◌, refl, ◌∙◌, Option, none, some, List, [], ◌∷◌,
  ◌++◌, map, any, find, find-append, find-holds, and-parts, nat_eq, nat_eq_iff, str_eq, eq_iff,
  arith, inl, inr, Bool-cases, All, All-find, get_or, ok, if◌then◌else◌,
}
use documents_backend.Entity.Store.{
  global, Entity, EntityProject, Store, find_entity, save_entity, is_on, add_entity_to_resource,
}
use documents_backend.Entity.Service.{
  Catalog, Attempt, can_insert, insert_projects, new_entity, create_of_type, create_entity,
  update_existing, find_by_name_and_type,
}
use documents_backend.Entity.Pending.{PendingEntity, Review, find_entry, success_of, scope_eq}
use documents_backend.Entity.Confirm.{
  scoped_project, listed, create_dto, widen, add_scoped_project, entity_for, close_entry,
  materialize, named_type, is_merged, confirm_entity,
}
use documents_backend.Entity.Confirmed.{find-removed}

-- The entity stands in the library, with the name of the entry, the type, and the scope of all if
-- the entry has it.
pub record IsMade (p : PendingEntity) (type : ℕ) (id : ℕ) (s : Store) : Type 0 where
  pub entity : Entity
  pub found : find_entity id s ≡ some entity
  pub name : entity.name ≡ p.name
  pub entity_type : entity.entity_type ≡ type
  pub is_global : p.scope ≡ global → entity.is_global ≡ true

any-last :
    {A : Type 0} (q : A → Bool) (xs : List A) (x : A) → any q (xs ++ x ∷ []) ≡ (any q xs || q x)
any-last q [] x = ground arith
any-last q (y ∷ xs) x = ground (arith, any-last q xs x)

any-part :
    (id q : ℕ) (rows : List EntityProject)
    → any (λ x. nat_eq x.entity_id id) rows ≡ false
    → any (λ x. nat_eq x.entity_id id && nat_eq x.project_id q) rows ≡ false
any-part id q [] h = refl
any-part id q (x ∷ rows) h = let rest = any-part id q rows (ground arith) in ground (arith, rest)

-- The number of a new entity is not in use.
pub record IsFresh (cat : Catalog) : Type 0 where
  pub unused : (s : Store) → find_entity (cat.new_id s) s ≡ none
  pub unjoined :
      (s : Store) → any (λ x. nat_eq x.entity_id (cat.new_id s)) s.entity_projects ≡ false

module _ (cat : Catalog) (p : PendingEntity) (type : ℕ) (proj : Option ℕ) where
  can_insert-listed :
      (o : Option ℕ) (s : Store) (id : ℕ)
      → ((q : ℕ) → o ≡ some q → cat.has_project q ≡ true)
      → any (λ x. nat_eq x.entity_id id) s.entity_projects ≡ false
      → can_insert cat id (get_or (listed o) []) s ≡ true
  unfolding can_insert
  can_insert-listed none s id known free = refl
  can_insert-listed (some q) s id known free =
      rw (known q refl, any-part id q s.entity_projects free) refl

  -- An entity that is not there is created.
  created :
      (s : Store)
      → IsFresh cat
      → ((q : ℕ) → scoped_project p proj ≡ some q → cat.has_project q ≡ true)
      → (name : String) → cat.type_name type ≡ some name
      → (e : Entity) × (after : Store) × (create_entity cat (create_dto p type proj) s
          ≡ (ok e, after))
        × IsMade p type e.id after
  unfolding create_of_type insert_projects
  created s fresh known name there =
      let e = new_entity (cat.new_id s) (create_dto p type proj) in
      let grown : Store = record s { entities = s.entities ++ e ∷ [] } in
      let fits = can_insert-listed (scoped_project p proj) grown e.id known (fresh.unjoined s) in
      (
        e,
        record grown {
          entity_projects =
              s.entity_projects
              ++ map (λ q. record { entity_id = e.id; project_id = q })
                  (get_or (listed (scoped_project p proj)) []);
        },
        rw there (rw fits refl),
        record {
          entity = e;
          found =
              find-append (λ x. nat_eq x.id e.id) s.entities (e ∷ [])
              ∙ rw (fresh.unused s, (nat_eq_iff e.id e.id).1 refl) refl;
          name = refl;
          entity_type = refl;
          is_global = λ g. rw g refl;
        },
      )

  add_scoped-find :
      (id : ℕ) (o : Option ℕ) (n : ℕ) (s : Store)
      → find_entity n (add_scoped_project id o s) ≡ find_entity n s
  add_scoped-find id none n s = refl
  add_scoped-find id (some q) n s = ground arith

  find_entity-saved :
      (e : Entity) (entities : List Entity) {old : Entity}
      → find (λ x. nat_eq x.id e.id) entities ≡ some old
      → find (λ x. nat_eq x.id e.id) (map (λ x. if nat_eq x.id e.id then e else x) entities)
        ≡ some e
  find_entity-saved e [] h = cc
  find_entity-saved e (x ∷ entities) {old = old} h = elim (Bool-cases (nat_eq x.id e.id)) [
    | inl t ↦ rw t (rw ((nat_eq_iff e.id e.id).1 refl) refl)
    | inr t ↦ let rest = find_entity-saved e entities {old = old} (ground arith) in rw (t, t) rest
  ]

  -- An entity that is there keeps its row, with its scope widened if the entry asks for it.
  widened :
      (s : Store) (e : Entity)
      → find_entity e.id s ≡ some e
      → e.name ≡ p.name
      → e.entity_type ≡ type
      → (after : Store) × (answer : Option Entity) × (widen cat p e s ≡ (ok answer, after))
        × IsMade p type e.id after
  unfolding update_existing
  widened s e found name same = elim (Bool-cases (scope_eq p.scope global && not e.is_global)) [
    | inl t ↦
        let wide : Entity = record e { is_global = true } in
        (
          save_entity wide s,
          some wide,
          rw t (rw found refl),
          record {
            entity = wide;
            found = find_entity-saved wide s.entities found;
            name = name;
            entity_type = same;
            is_global = λ g. refl;
          },
        )
    | inr t ↦ (
      s,
      some e,
      rw t refl,
      record {
        entity = e;
        found = found;
        name = name;
        entity_type = same;
        is_global = λ g. let off : not e.is_global ≡ false = rw g at t in ground (arith, off);
      },
    )
  ]

  -- The entity that an entry is made of.
  record Made (s : Store) (a : Attempt Entity) : Type 0 where
    entity : Entity
    after : Store
    answer : a ≡ (ok entity, after)
    made : IsMade p type entity.id after

  entity_for-Made :
      (s : Store) (o : Option Entity)
      → find_by_name_and_type p.name type s ≡ o
      → IsFresh cat
      → ((q : ℕ) → scoped_project p proj ≡ some q → cat.has_project q ≡ true)
      → All (λ e. find_entity e.id s ≡ some e) s.entities
      → (name : String) → cat.type_name type ≡ some name
      → Made s (entity_for cat p type proj o s)
  entity_for-Made s none found fresh known keyed name there =
      let (e, after, answer, made) = created s fresh known name there in
      record { entity = e; after = after; answer = answer; made = made }
  entity_for-Made s (some e) found fresh known keyed name there =
      let (same_name, same_type) =
        and-parts (str_eq e.name p.name) (nat_eq e.entity_type type)
          (find-holds (λ x. str_eq x.name p.name && nat_eq x.entity_type type) s.entities found) in
      let own = All-find (λ x. find_entity x.id s ≡ some x) _ s.entities keyed found in
      let (after, _, answer, made) =
        widened s e own ((eq_iff e.name p.name).0 same_name)
          ((nat_eq_iff e.entity_type type).0 same_type) in
      let o = scoped_project p proj in
      record {
        entity = e;
        after = add_scoped_project e.id o after;
        answer = rw answer refl;
        made = record {
          entity = made.entity;
          found = add_scoped-find e.id o e.id after ∙ made.found;
          name = made.name;
          entity_type = made.entity_type;
          is_global = made.is_global;
        };
      }

  linked-added :
      (e : Entity) (s : Store)
      → any (is_on p.resource_id e.id) (add_entity_to_resource p.resource_id e s).resource_entities
        ≡ true
  linked-added e s = elim (Bool-cases (any (is_on p.resource_id e.id) s.resource_entities)) [
    | inl t ↦ rw t t
    | inr t ↦ rw t (
        any-last (is_on p.resource_id e.id) s.resource_entities
          (record { resource_id = p.resource_id; entity_id = e.id })
        ∙ rw (t, (nat_eq_iff p.resource_id p.resource_id).1 refl, (nat_eq_iff e.id e.id).1 refl)
            refl)
  ]

  added-find :
      (e : Entity) (s : Store) (n : ℕ)
      → find_entity n (add_entity_to_resource p.resource_id e s) ≡ find_entity n s
  added-find e s n = ground arith

-- If an entry under review is there and not merged, has a type with a name, and stands on a resource
-- that is there, then its confirmation succeeds: the entry is no more, and an entity with its name
-- and type is in the library and on the resource, and is global if the entry is. The numbers of the
-- entities are taken to be a key, those of new entities to be unused, and the project that the
-- entry's scope names to be there.
pub confirm_entity-IsMade :
    (cat : Catalog) (id : ℕ) (r : Review) (p : PendingEntity) (type : ℕ) (name : String)
    (proj : Option ℕ)
    → IsFresh cat
    → All (λ e. find_entity e.id r.library ≡ some e) r.library.entities
    → find_entry id r ≡ some p
    → is_merged p ≡ false
    → named_type cat p.entity_type ≡ some type
    → cat.type_name type ≡ some name
    → cat.resource p.resource_id ≡ some proj
    → ((q : ℕ) → scoped_project p proj ≡ some q → cat.has_project q ≡ true)
    → (after : Review) × (n : ℕ) × (confirm_entity cat id r
        ≡ success_of "Entity confirmed successfully" after)
      × (find_entry id after ≡ none)
      × IsMade p type n after.library
      × (any (is_on p.resource_id n) after.library.resource_entities ≡ true)
unfolding confirm_entity materialize
confirm_entity-IsMade cat id r p type name proj fresh keyed found waits typed named there known =
    let m =
      entity_for-Made cat p type proj r.library (find_by_name_and_type p.name type r.library) refl
        fresh known keyed name named in
    let own : p.id ≡ id =
      (nat_eq_iff p.id id).0 (find-holds (λ x. nat_eq x.id id) r.entries found) in
    let made = m.made in
    (
      (close_entry p r (ok m.entity, m.after)).1,
      m.entity.id,
      rw (found, waits, typed, there, m.answer) refl,
      rw (← own) (find-removed p.id r.entries),
      record {
        entity = made.entity;
        found = added-find cat p type proj m.entity m.after m.entity.id ∙ made.found;
        name = made.name;
        entity_type = made.entity_type;
        is_global = made.is_global;
      },
      linked-added cat p type proj m.entity m.after,
    )
