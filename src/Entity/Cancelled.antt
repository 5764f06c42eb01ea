-- ===== src/Entity/Cancelled.antt =====
-- What `cancelMerge` of src/pending-entity/pending-entity.service.ts takes back of `mergeEntity`.
use documents_backend.Common.{
  ℕ, true, false, ◌&&◌, ◌≡◌, ◌≢◌, refl, sym, ap, ◌∙◌, some, List, [], ◌∷◌, ◌++◌, map, find,
  find-holds, nat_eq, nat_eq_iff, str_eq, eq_iff, is_some, arith, if◌then◌else◌, inl, inr,
  Bool-cases,
}
use documents_backend.Entity.Store.{EntityScope, document, project, global, EntityAlias}
use documents_backend.Entity.Pending.{
  PendingEntity, Review, under_review, find_entry, save_entry, alias_for, marked, merge_entity,
  scope_eq, without_alias, reset, cancel_merge, success_of,
}

find_in-saved :
    (id : ℕ) (p : PendingEntity) (entries : List PendingEntity)
    → find (λ x. nat_eq x.id id) (map (λ x. if nat_eq x.id p.id then p else x) entries) ≡ (
        if nat_eq p.id id && is_some (find (λ x. nat_eq x.id id) entries)
        then some p
        else find (λ x. nat_eq x.id id) entries)
find_in-saved id p [] = ground arith
find_in-saved id p (x ∷ entries) =
    let rest = find_in-saved id p entries in
    elim (Bool-cases (nat_eq x.id p.id)) [
      | inl t ↦ rw t (ground (arith, rest))
      | inr t ↦ rw t (ground (arith, rest))
    ]

pub find_entry-saved :
    (id : ℕ) (p : PendingEntity) (r : Review) {old : PendingEntity}
    → find_entry id r ≡ some old
    → p.id ≡ id
    → find_entry id (save_entry p r) ≡ some p
find_entry-saved id p r there same =
    let own : nat_eq p.id id ≡ true = ground (arith, same) in
    find_in-saved id p r.entries ∙ rw (own, there) refl

find_entry-other :
    (id : ℕ) (p : PendingEntity) (r : Review)
    → p.id ≢ id
    → find_entry id (save_entry p r) ≡ find_entry id r
find_entry-other id p r differ =
    let own : nat_eq p.id id ≡ false = ground (arith, differ) in
    find_in-saved id p r.entries ∙ rw own refl

pub find_entry-id : (id : ℕ) (r : Review) {p : PendingEntity} → find_entry id r ≡ some p → p.id ≡ id
find_entry-id id r {p = p} found =
    (nat_eq_iff p.id id).0 (find-holds (λ x. nat_eq x.id id) r.entries found)

scope_eq-same : (s : EntityScope) → scope_eq s s ≡ true
scope_eq-same document = refl
scope_eq-same project = refl
scope_eq-same global = refl

-- The alias that a merge adds is the one that is taken back.
without_alias-added :
    (source : PendingEntity) (aliases : List EntityAlias)
    → without_alias source aliases ≡ aliases
    → without_alias source (aliases ++ alias_for source source.scope ∷ []) ≡ aliases
without_alias-added source aliases h = added aliases ∙ h
  where
    own : str_eq source.name source.name ≡ true
    own = (eq_iff source.name source.name).1 refl

    added :
        (rest : List EntityAlias)
        → without_alias source (rest ++ alias_for source source.scope ∷ [])
          ≡ without_alias source rest
    added [] = rw (own, scope_eq-same source.scope) refl
    added (a ∷ rest) = ground (arith, added rest)

module _ (source target : PendingEntity) (aliases : List EntityAlias) (now : ℕ) (r : Review) where
  abbrev offered : PendingEntity
  offered = record target { aliases = some (aliases ++ alias_for source source.scope ∷ []) }

  abbrev merged_review : Review
  merged_review = save_entry (marked source under_review target.id now) (save_entry offered r)

  abbrev restored : Review
  restored = save_entry (reset source) (
      save_entry
        (record target {
          aliases = some (without_alias source (aliases ++ alias_for source source.scope ∷ []));
        })
        merged_review)

  module _ (there : find_entry source.id r ≡ some source)
      (here : find_entry target.id r ≡ some target) (given : target.aliases ≡ some aliases)
      (differ : source.id ≢ target.id) where
    merge_entity-result :
        merge_entity source.id under_review target.id source.scope now r
        ≡ success_of "Entity marked as merged into pending entity" merged_review
    unfolding merge_entity
    merge_entity-result = rw (there, here, given) refl

    cancel_merge-result :
        target.id ≢ 0
        → cancel_merge source.id merged_review ≡ success_of "Merge cancelled successfully" restored
    unfolding cancel_merge
    cancel_merge-result nonzero =
        let away : target.id ≢ source.id = λ e. differ (sym e) in
        let target_saved = find_entry-saved target.id offered r here refl in
        let source_there = find_entry-other source.id offered r away ∙ there in
        let source_found =
          find_entry-saved source.id (marked source under_review target.id now)
            (save_entry offered r) source_there refl in
        let target_found =
          find_entry-other target.id (marked source under_review target.id now)
            (save_entry offered r) differ
          ∙ target_saved in
        let test : nat_eq target.id 0 ≡ false = ground (arith, nonzero) in
        rw (source_found, test, target_found) refl

    abbrev cleared : PendingEntity
    cleared = record target {
      aliases = some (without_alias source (aliases ++ alias_for source source.scope ∷ []));
    }

    find_entry-source : (id : ℕ) → source.id ≡ id → find_entry id restored ≡ some (reset source)
    find_entry-source id same =
        let away : target.id ≢ id = λ e. differ (same ∙ sym e) in
        let before = ap (λ n. find_entry n r) (sym same) ∙ there in
        let first = find_entry-other id offered r away ∙ before in
        let second =
          find_entry-saved id (marked source under_review target.id now) (save_entry offered r)
            first same in
        let third = find_entry-other id cleared merged_review away ∙ second in
        find_entry-saved id (reset source) (save_entry cleared merged_review) third same

    find_entry-target : (id : ℕ) → target.id ≡ id → find_entry id restored ≡ some cleared
    find_entry-target id same =
        let away : source.id ≢ id = λ e. differ (e ∙ sym same) in
        let before = ap (λ n. find_entry n r) (sym same) ∙ here in
        let first = find_entry-saved id offered r before same in
        let second =
          find_entry-other id (marked source under_review target.id now) (save_entry offered r) away
          ∙ first in
        let third = find_entry-saved id cleared merged_review second same in
        find_entry-other id (reset source) (save_entry cleared merged_review) away ∙ third

    find_entry-rest :
        (id : ℕ) → source.id ≢ id → target.id ≢ id → find_entry id restored ≡ find_entry id r
    find_entry-rest id away other =
        find_entry-other id (reset source) (save_entry cleared merged_review) away
        ∙ find_entry-other id cleared merged_review other
        ∙ find_entry-other id (marked source under_review target.id now) (save_entry offered r) away
        ∙ find_entry-other id offered r other

    find_entry-restored :
        reset source ≡ source
        → without_alias source aliases ≡ aliases
        → (id : ℕ) → find_entry id restored ≡ find_entry id r
    find_entry-restored fresh alone id =
        let whole : cleared ≡ target =
          rw (without_alias-added source aliases alone) (rw (← given) refl) in
        elim (Bool-cases (nat_eq source.id id)) [
          | inl t ↦
              let same : source.id ≡ id = ground (arith, t) in
              find_entry-source id same ∙ ap some fresh ∙ sym there ∙ ap (λ n. find_entry n r) same
          | inr t ↦ elim (Bool-cases (nat_eq target.id id)) [
            | inl u ↦
                let same : target.id ≡ id = ground (arith, u) in
                find_entry-target id same ∙ ap some whole ∙ sym here ∙ ap (λ n. find_entry n r) same
            | inr u ↦ find_entry-rest id (ground (arith, t)) (ground (arith, u))
          ]
        ]

-- A merge of one entity under review into another, with the scope of the source for the alias,
-- is taken back whole: if the source holds no merge and the target has a list of aliases, none of
-- them with the name and the scope of the source, then both calls succeed, every number finds the
-- same entity as before, and the library is the same.
pub cancel_merge-merge_entity :
    (source target : PendingEntity) (aliases : List EntityAlias) (now : ℕ) (r : Review)
    → find_entry source.id r ≡ some source
    → find_entry target.id r ≡ some target
    → target.aliases ≡ some aliases
    → source.id ≢ target.id
    → target.id ≢ 0
    → reset source ≡ source
    → without_alias source aliases ≡ aliases
    → (after : Review) × (cancel_merge source.id
          (merge_entity source.id under_review target.id source.scope now r).1
        ≡ success_of "Merge cancelled successfully" after)
      × ((id : ℕ) → find_entry id after ≡ find_entry id r)
      × (after.library ≡ r.library)
cancel_merge-merge_entity source target aliases now r there here given differ nonzero fresh alone =
    (
      restored source target aliases now r,
      rw (merge_entity-result source target aliases now r there here given differ)
          (cancel_merge-result source target aliases now r there here given differ nonzero),
      find_entry-restored source target aliases now r there here given differ fresh alone,
      refl,
    )
