-- ===== src/Entity/Linked.antt =====
-- The resources that `merge` of src/entity/entity.service.ts moves to the target.
use documents_backend.Common.{
  ℕ, Bool, true, false, not, ◌&&◌, ◌||◌, ◌≡◌, ◌≢◌, refl, ap, ◌∙◌, List, [], ◌∷◌, map, filter, any,
  nat_eq, arith, inl, inr, Bool-cases,
}
use documents_backend.Entity.Store.{ResourceEntity, is_on}
use documents_backend.Entity.Merge.{move_row}

abbrev pub linked : ℕ → ℕ → List ResourceEntity → Bool
linked resource entity rows = any (is_on resource entity) rows

abbrev pub leaving : ℕ → List ResourceEntity → List ResourceEntity
leaving source rows = filter (λ r. not (nat_eq r.entity_id source)) rows

-- The rows after both statements, with the test made on the rows `all`.
abbrev pub moved : ℕ → ℕ → List ResourceEntity → List ResourceEntity → List ResourceEntity
moved source target all rows = leaving source (map (move_row source target all) rows)

pub linked-leaving :
    (source resource entity : ℕ) (rows : List ResourceEntity)
    → linked resource entity (leaving source rows)
      ≡ (linked resource entity rows && not (nat_eq entity source))
linked-leaving source resource entity [] = refl
linked-leaving source resource entity (x ∷ rows) =
    let rest = linked-leaving source resource entity rows in
    elim (Bool-cases (nat_eq x.entity_id source)) [
      | inl t ↦ rw t (ground (arith, rest))
      | inr t ↦ rw t (ground (arith, rest))
    ]

linked-moved :
    (source target resource : ℕ) (all rows : List ResourceEntity)
    → source ≢ target
    → linked resource target (moved source target all rows) ≡ (
        linked resource target rows
        || linked resource source rows && not (linked resource target all))
linked-moved source target resource all [] differ = refl
linked-moved source target resource all (x ∷ rows) differ =
    let rest = linked-moved source target resource all rows differ in
    let apart : nat_eq target source ≡ false = ground arith in
    let agree : x.resource_id ≡ resource
        → linked x.resource_id target all ≡ linked resource target all =
      λ same. ap (λ n. linked n target all) same in
    elim (Bool-cases (nat_eq x.entity_id source)) [
      | inl t ↦ elim (Bool-cases (linked x.resource_id target all)) [
        | inl b ↦ rw (t, b) ((ground (arith, rest, agree, b)))
        | inr b ↦ rw (t, b, apart) (ground (arith, rest, agree, b))
      ]
      | inr t ↦ rw (t, t) (ground (arith, rest))
    ]

linked-others :
    (source target resource entity : ℕ) (all rows : List ResourceEntity)
    → source ≢ target
    → entity ≢ source
    → entity ≢ target
    → linked resource entity (moved source target all rows) ≡ linked resource entity rows
linked-others source target resource entity all [] two differ other = refl
linked-others source target resource entity all (x ∷ rows) two differ other =
    let rest = linked-others source target resource entity all rows two differ other in
    let apart : nat_eq target source ≡ false = ground arith in
    elim (Bool-cases (nat_eq x.entity_id source)) [
      | inl t ↦ elim (Bool-cases (linked x.resource_id target all)) [
        | inl b ↦ rw (t, b) ((ground (arith, rest)))
        | inr b ↦ rw (t, b, apart) (ground (arith, rest))
      ]
      | inr t ↦ rw (t, t) (ground (arith, rest))
    ]

-- The target is on the resources of both.
pub linked-target :
    (source target resource : ℕ) (rows : List ResourceEntity)
    → source ≢ target
    → linked resource target (leaving source (moved source target rows rows))
      ≡ (linked resource target rows || linked resource source rows)
linked-target source target resource rows differ =
    let step = linked-moved source target resource rows rows differ in
    let apart : nat_eq target source ≡ false = ground arith in
    rw (linked-leaving source resource target (moved source target rows rows), apart)
      (ground (arith, step))

pub linked-other :
    (source target resource entity : ℕ) (rows : List ResourceEntity)
    → source ≢ target
    → entity ≢ source
    → entity ≢ target
    → linked resource entity (leaving source (moved source target rows rows))
      ≡ linked resource entity rows
linked-other source target resource entity rows two differ other =
    let step = linked-others source target resource entity rows rows two differ other in
    let apart : nat_eq entity source ≡ false = ground arith in
    rw (linked-leaving source resource entity (moved source target rows rows), apart)
      (ground (arith, step))

-- No two rows join the same resource and entity: the primary key.
abbrev pub IsKeyed : List ResourceEntity → Type 0
IsKeyed [] = Unit
IsKeyed (r ∷ rows) = (linked r.resource_id r.entity_id rows ≡ false) × IsKeyed rows

-- A row that moved meets no other: the target was not on its resource, and it was the source's
-- only row there.
moved_first :
    (source target : ℕ) (all rows : List ResourceEntity) (x : ResourceEntity)
    → source ≢ target
    → (linked x.resource_id target rows ≡ true → linked x.resource_id target all ≡ true)
    → linked x.resource_id x.entity_id rows ≡ false
    → nat_eq x.entity_id source ≡ true
    → linked x.resource_id target all ≡ false
    → linked x.resource_id target (moved source target all rows) ≡ false
moved_first source target all rows x differ among new t b =
    let here : x.entity_id ≡ source = ground (arith, t) in
    let only = rw here at new in
    let step = linked-moved source target x.resource_id all rows differ in
    let absent : linked x.resource_id target rows ≡ false = ground (arith, among, b) in
    rw (step, absent, only) refl

kept_first :
    (source target : ℕ) (all rows : List ResourceEntity) (x : ResourceEntity)
    → source ≢ target
    → ((resource : ℕ)
        → linked resource target (x ∷ rows) ≡ true
        → linked resource target all ≡ true)
    → linked x.resource_id x.entity_id rows ≡ false
    → nat_eq x.entity_id source ≡ false
    → linked x.resource_id x.entity_id (moved source target all rows) ≡ false
kept_first source target all rows x differ among new t =
    elim (Bool-cases (nat_eq x.entity_id target)) [
      | inl e ↦
          let here : x.entity_id ≡ target = ground (arith, e) in
          let own : linked x.resource_id target (x ∷ rows) ≡ true = ground (arith, e) in
          let there = among x.resource_id own in
          let step = linked-moved source target x.resource_id all rows differ in
          rw here (rw (step, there, rw here at new) (ground arith))
      | inr e ↦
          let away : x.entity_id ≢ source = ground (arith, t) in
          let other : x.entity_id ≢ target = ground (arith, e) in
          linked-others source target x.resource_id x.entity_id all rows differ away other ∙ new
    ]

IsKeyed-moved :
    (source target : ℕ) (all rows : List ResourceEntity)
    → source ≢ target
    → ((resource : ℕ) → linked resource target rows ≡ true → linked resource target all ≡ true)
    → IsKeyed rows
    → IsKeyed (moved source target all rows)
IsKeyed-moved source target all [] differ among h = tt
IsKeyed-moved source target all (x ∷ rows) differ among (new, h) =
    let apart : nat_eq target source ≡ false = ground arith in
    let later : (resource : ℕ)
        → linked resource target rows ≡ true
        → linked resource target all ≡ true =
      λ resource e. among resource (ground (arith, e)) in
    let rest = IsKeyed-moved source target all rows differ later h in
    elim (Bool-cases (nat_eq x.entity_id source)) [
      | inl t ↦ elim (Bool-cases (linked x.resource_id target all)) [
        | inl b ↦ rw (t, b) (rw t rest)
        | inr b ↦
            rw (t, b, apart)
              (moved_first source target all rows x differ (later x.resource_id) new t b, rest)
      ]
      | inr t ↦ rw (t, t) (kept_first source target all rows x differ among new t, rest)
    ]

IsKeyed-leaving :
    (source : ℕ) (rows : List ResourceEntity) → IsKeyed rows → IsKeyed (leaving source rows)
IsKeyed-leaving source [] h = tt
IsKeyed-leaving source (x ∷ rows) (new, h) =
    let rest = IsKeyed-leaving source rows h in
    elim (Bool-cases (nat_eq x.entity_id source)) [
      | inl t ↦ rw t rest
      | inr t ↦ rw t (rw (linked-leaving source x.resource_id x.entity_id rows, new) refl, rest)
    ]

pub IsKeyed-merged :
    (source target : ℕ) (rows : List ResourceEntity)
    → source ≢ target
    → IsKeyed rows
    → IsKeyed (leaving source (moved source target rows rows))
IsKeyed-merged source target rows differ h =
    IsKeyed-leaving source (moved source target rows rows)
      (IsKeyed-moved source target rows rows differ (λ resource e. e) h)
