-- ===== src/Entity/United.antt =====
-- What `merge` of src/entity/entity.service.ts means: two entities become one, which has the names
-- and the resources of both.
use mathlib.Core.Path.{fun_ext}
use mathlib.Core.Option
use documents_backend.Common.{
  ℕ, String, Bool, true, false, not, ◌&&◌, ◌||◌, ◌≡◌, ◌≢◌, refl, sym, ap, ◌∙◌, Option, none, some,
  List, [], ◌∷◌, map, filter, find, find-holds, nat_eq, nat_eq_iff, is_some, if◌then◌else◌, arith,
  inl, inr, Bool-cases, Result, ok, err, not_found,
}
use documents_backend.Entity.Store.{Entity, ResourceEntity, Store, find_entity}
use documents_backend.Entity.Merge.{merged_entity, merged_store, merge_found, merge}
use documents_backend.Entity.Named.{names}
use documents_backend.Entity.Merged.{names-merged}
use documents_backend.Entity.Linked.{
  linked, leaving, moved, linked-target, linked-other, IsKeyed, IsKeyed-merged,
}

-- What an entity is to a reader of the library: the names that it is known by, as keys of a
-- locale and a text, and the resources that it is on.
pub record View : Type 0 where
  pub known_as : String → Bool
  pub is_on : ℕ → Bool

abbrev pub view : List ResourceEntity → Entity → View
view rows e = record { known_as = names e; is_on = λ resource. linked resource e.id rows }

-- A library is a view for each number that an entity has.
abbrev pub library : Store → ℕ → Option View
library s id = Option.map (view s.resource_entities) (find_entity id s)

abbrev pub unite : View → View → View
unite v w = record {
  known_as = λ k. v.known_as k || w.known_as k;
  is_on = λ resource. v.is_on resource || w.is_on resource;
}

abbrev pub unite_both : Option View → Option View → Option View
unite_both (some v) (some w) = some (unite v w)
unite_both v w = v

-- The merge as a reader sees it.
abbrev pub merge_views : ℕ → ℕ → (ℕ → Option View) → ℕ → Option View
merge_views source target views id =
    if nat_eq id source
    then none
    else if nat_eq id target
    then unite_both (views target) (views source)
    else views id

-- The answers of `merge`.
pub data IsUnited (source target : ℕ) (s : Store) : Result (Entity × Store) → Type 0 where
  no_source :
      library s source ≡ none → IsUnited source target s (err (not_found "Source entity not found"))
  no_target :
      library s target ≡ none → IsUnited source target s (err (not_found "Target entity not found"))
  united :
      {merged : Entity} {after : Store}
      → find_entity target after ≡ some merged
      → library after ≡ merge_views source target (library s)
      → IsUnited source target s (ok (merged, after))

-- The row of a number after the target was saved and the source deleted.
find-merged :
    (source id : ℕ) (merged : Entity) (entities : List Entity)
    → find
        (λ e. nat_eq e.id id)
        (filter
          (λ e. not (nat_eq e.id source))
          (map (λ e. if nat_eq e.id merged.id then merged else e) entities))
      ≡ (if nat_eq id source
          then none
          else if nat_eq id merged.id && is_some (find (λ e. nat_eq e.id id) entities)
          then some merged
          else find (λ e. nat_eq e.id id) entities)
find-merged source id merged [] = ground arith
find-merged source id merged (e ∷ entities) =
    let rest = find-merged source id merged entities in
    elim (Bool-cases (nat_eq e.id merged.id)) [
      | inl t ↦ rw t (ground (arith, rest))
      | inr t ↦ rw t (ground (arith, rest))
    ]

find_entity-id : (id : ℕ) (s : Store) {e : Entity} → find_entity id s ≡ some e → e.id ≡ id
find_entity-id id s {e = e} found =
    (nat_eq_iff e.id id).0 (find-holds (λ x. nat_eq x.id id) s.entities found)

same_view : {v w : View} → v.known_as ≡ w.known_as → v.is_on ≡ w.is_on → v ≡ w
same_view e f = λ i. record { known_as = e i; is_on = f i }

module _ (s : Store) (source target : Entity) where
  abbrev joined : List ResourceEntity
  joined = leaving source.id (moved source.id target.id s.resource_entities s.resource_entities)

  view-merged :
      source.id ≢ target.id
      → view joined (merged_entity source target)
        ≡ unite (view s.resource_entities target) (view s.resource_entities source)
  view-merged differ =
      same_view (fun_ext (names-merged source target)) (
        fun_ext (λ resource. linked-target source.id target.id resource s.resource_entities differ))

  view-other :
      (e : Entity)
      → source.id ≢ target.id
      → e.id ≢ source.id
      → e.id ≢ target.id
      → view joined e ≡ view s.resource_entities e
  view-other e differ away other = same_view refl (
      fun_ext (λ resource.
        linked-other source.id target.id resource e.id s.resource_entities differ away other))

  module _ (differ : source.id ≢ target.id) (there : find_entity source.id s ≡ some source)
      (here : find_entity target.id s ≡ some target) where
    find_entity-target :
        find_entity target.id (merged_store source target s) ≡ some (merged_entity source target)
    find_entity-target =
        let apart : nat_eq target.id source.id ≡ false = ground arith in
        let own : nat_eq target.id target.id ≡ true = ground arith in
        find-merged source.id target.id (merged_entity source target) s.entities
        ∙ rw (apart, own, here) refl

    library-other :
        (id : ℕ) (o : Option Entity)
        → id ≢ source.id
        → id ≢ target.id
        → find_entity id s ≡ o
        → Option.map (view joined) o ≡ Option.map (view s.resource_entities) o
    library-other id none away other e = refl
    library-other id (some e) away other found =
        let own = find_entity-id id s found in
        ap some (view-other e differ (rw own away) (rw own other))

    library-merged :
        (id : ℕ)
        → library (merged_store source target s) id ≡ merge_views source.id target.id (library s) id
    library-merged id =
        ap (Option.map (view joined))
          (find-merged source.id id (merged_entity source target) s.entities)
        ∙ elim (Bool-cases (nat_eq id source.id)) [
          | inl t ↦ rw t refl
          | inr t ↦ elim (Bool-cases (nat_eq id target.id)) [
            | inl u ↦
                rw (t, u)
                  (let same : id ≡ target.id = ground (arith, u) in
                    rw (same) (rw (here, there) (ap some (view-merged differ))))
            | inr u ↦
                rw (t, u)
                  (library-other id (find_entity id s) (ground (arith, t)) (ground (arith, u)) refl)
          ]
        ]

merge_found-IsUnited :
    (source_id target_id : ℕ) (s : Store) (o p : Option Entity)
    → source_id ≢ target_id
    → find_entity source_id s ≡ o
    → find_entity target_id s ≡ p
    → IsUnited source_id target_id s (merge_found o p s)
unfolding merge_found
merge_found-IsUnited source_id target_id s none p differ e f = no_source (rw e refl)
merge_found-IsUnited source_id target_id s (some source) none differ e f = no_target (rw f refl)
merge_found-IsUnited source_id target_id s (some source) (some target) differ e f =
    let from = find_entity-id source_id s e in
    let onto = find_entity-id target_id s f in
    let apart : source.id ≢ target.id = rw (from, onto) differ in
    let there : find_entity source.id s ≡ some source = ap (λ n. find_entity n s) from ∙ e in
    let here : find_entity target.id s ≡ some target = ap (λ n. find_entity n s) onto ∙ f in
    let found = find_entity-target s source target apart there here in
    let same = fun_ext (library-merged s source target apart there here) in
    united (ap (λ n. find_entity n (merged_store source target s)) (sym onto) ∙ found) (
      same
      ∙ ap (λ n. merge_views n target.id (library s)) from
      ∙ ap (λ n. merge_views source_id n (library s)) onto)

-- The merge of two different entities answers that one of them is not there, or gives a library in
-- which the source is gone, the target is known by every name of both and is on every resource of
-- both, by and on no others, and all other entities are what they were.
pub merge-IsUnited :
    (source_id target_id : ℕ) (s : Store)
    → source_id ≢ target_id
    → IsUnited source_id target_id s (merge source_id target_id s)
unfolding merge
merge-IsUnited source_id target_id s differ =
    merge_found-IsUnited source_id target_id s (find_entity source_id s) (find_entity target_id s)
      differ refl refl

merge_found-IsKeyed :
    (source_id target_id : ℕ) (s : Store) (o p : Option Entity) {merged : Entity} {after : Store}
    → source_id ≢ target_id
    → find_entity source_id s ≡ o
    → find_entity target_id s ≡ p
    → IsKeyed s.resource_entities
    → merge_found o p s ≡ ok (merged, after)
    → IsKeyed after.resource_entities
unfolding merge_found
merge_found-IsKeyed source_id target_id s none p differ e f keyed h = cc
merge_found-IsKeyed source_id target_id s (some source) none differ e f keyed h = cc
merge_found-IsKeyed _ _ s (some source) (some target) {after = after} differ e f keyed h =
    let from = find_entity-id _ s e in
    let onto = find_entity-id _ s f in
    let apart : source.id ≢ target.id = rw (from, onto) differ in
    let result : merged_store source target s ≡ after = cc in
    rw (← result) (IsKeyed-merged source.id target.id s.resource_entities apart keyed)

-- If no two rows join the same resource and entity, none do after the merge of two different
-- entities: its update meets no primary key.
pub merge-IsKeyed :
    (source_id target_id : ℕ) (s : Store) {merged : Entity} {after : Store}
    → source_id ≢ target_id
    → IsKeyed s.resource_entities
    → merge source_id target_id s ≡ ok (merged, after)
    → IsKeyed after.resource_entities
unfolding merge
merge-IsKeyed source_id target_id s differ keyed h =
    merge_found-IsKeyed source_id target_id s (find_entity source_id s) (find_entity target_id s)
      differ refl refl keyed h
