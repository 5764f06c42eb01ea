-- ===== src/Entity/Merged.antt =====
-- The last passes of `merge` of src/entity/entity.service.ts, and the names of what it makes.
use documents_backend.Common.{
  String, Bool, true, false, not, ◌&&◌, ◌||◌, ◌≡◌, refl, List, [], ◌∷◌, ◌++◌, map, str_eq, eq_iff,
  is_some, truthy, get_or, arith, inl, inr, Bool-cases,
}
use documents_backend.Common.Dict.{Dict, lookup, insert}
use documents_backend.Entity.Store.{EntityAlias, Entity}
use documents_backend.Entity.Merge.{
  key_of, plain, AliasMap, add_alias, set_aliases, add_aliases, is_written, add_translations,
  is_nonempty, merge_translations, represent, aliases_of, translations_of, collected,
  merged_translations, merged_aliases, or_null, merged_entity,
}
use documents_backend.Entity.Named.{
  named, known, translated_by, translated, names, Keyed, known-values, Keyed-add_alias,
  Keyed-set_aliases, Keyed-add_aliases, Keyed-add_translations, lookup-insert_key, lookup-add_alias,
  lookup-set_aliases, lookup-add_aliases, lookup-add_translations,
}

known-append :
    (k : String) (first bs : List EntityAlias)
    → known k (first ++ bs) ≡ (known k first || known k bs)
known-append k [] bs = refl
known-append k (a ∷ first) bs = ground (arith, known-append k first bs)

-- A translation that is not pushed is empty or has its key among the aliases.
kept_aliases :
    (k : String) (a : EntityAlias) (final : List EntityAlias) (m : AliasMap) (b : Bool)
    → known k final ≡ is_some (lookup k m)
    → (b && not (is_some (lookup (key_of a) m))) ≡ false
    → (b && named k a || known k final) ≡ known k final
kept_aliases k a final m b same h = elim (Bool-cases (named k a)) [
  | inl e ↦
      let there : known k final ≡ is_some (lookup (key_of a) m) =
        rw ((eq_iff (key_of a) k).0 e) same in
      ground (arith, e, there, h)
  | inr e ↦ ground (arith, e)
]

-- The list that is pushed to and the map beside it have the same keys throughout.
known-represent :
    (t : Dict String) (k : String) (final : List EntityAlias) (m : AliasMap)
    → ((j : String) → known j final ≡ is_some (lookup j m))
    → known k (represent t final m) ≡ (translated k t || known k final)
unfolding represent
known-represent [] k final m same = refl
known-represent ((locale, value) ∷ more) k final m same =
    let a = plain locale value in
    elim (Bool-cases (is_nonempty value && not (is_some (lookup (key_of a) m)))) [
      | inl t ↦ rw t (
          rw
            (
              known-represent more k (final ++ a ∷ []) (insert (key_of a) a m) (λ j.
                  rw (known-append j final (a ∷ []), lookup-insert_key a j m, same j)
                    (ground arith)),
              known-append k final (a ∷ []),
            )
            (ground arith))
      | inr t ↦ rw t (
          rw (known-represent more k final m same) (
            let old = kept_aliases k a final m (is_nonempty value) (same k) t in
            ground (arith, old)))
    ]

-- A translation that is empty in the target gives way to the source's.
translated-insert :
    (k locale value : String) (t : Dict String)
    → truthy (lookup locale t) ≡ false
    → (translated k (insert locale value t) || translated k ((locale, value) ∷ []))
      ≡ (translated k t || translated k ((locale, value) ∷ []))
unfolding lookup insert
translated-insert k locale value [] h = ground arith
translated-insert k locale value ((j, w) ∷ t) h = elim (Bool-cases (str_eq j locale)) [
  | inl e ↦
      let empty : is_nonempty w ≡ false = rw e at h in
      rw (e, (eq_iff j locale).0 e) (ground (arith, empty))
  | inr e ↦ rw e (let rest = translated-insert k locale value t (rw e at h) in ground (arith, rest))
]

translated-merge :
    (source merged : Dict String) (k : String)
    → (translated k (merge_translations source merged) || translated k source)
      ≡ (translated k source || translated k merged)
unfolding merge_translations
translated-merge [] merged k = ground arith
translated-merge ((locale, value) ∷ more) merged k =
    elim (Bool-cases (truthy (lookup locale merged))) [
      | inl t ↦ rw t (let rest = translated-merge more merged k in ground (arith, rest))
      | inr t ↦ rw t (
          let rest = translated-merge more (insert locale value merged) k in
          let step = translated-insert k locale value merged t in ground (arith, rest, step))
    ]

written-IsNonempty : (value : String) → is_written value ≡ true → is_nonempty value ≡ true
unfolding is_written
written-IsNonempty value h = elim (Bool-cases (str_eq value "")) [
  | inl e ↦ let none_written : is_written "" ≡ true = rw ((eq_iff value "").0 e) at h in cc
  | inr e ↦ rw e refl
]

written-translated :
    (t : Dict String) (k : String)
    → (translated k t || translated_by is_written k t) ≡ translated k t
written-translated [] k = refl
written-translated ((locale, value) ∷ more) k =
    let rest = written-translated more k in
    let nonempty = written-IsNonempty value in ground (arith, rest, nonempty)

null-get_or {ℓ} : {A : Type ℓ} (xs : List A) → get_or (or_null xs) [] ≡ xs
null-get_or [] = refl
null-get_or (x ∷ xs) = refl

-- The keys of the aliases that the source is merged into.
lookup-collected :
    (source target : Entity) (k : String)
    → is_some (lookup k (collected source target)) ≡ (
        translated k (translations_of source)
        || known k (aliases_of source)
        || named k (plain "en" source.name)
        || known k (aliases_of target))
unfolding lookup
lookup-collected source target k =
    let by_target = lookup-set_aliases (aliases_of target) k [] in
    let m = set_aliases (aliases_of target) [] in
    let by_name = lookup-add_alias (plain "en" source.name) k m in
    let n = add_alias (plain "en" source.name) m in
    let by_source = lookup-add_aliases (aliases_of source) k n in
    let o = add_aliases (aliases_of source) n in
    let written = lookup-add_translations is_written (translations_of source) k o in
    let p = add_translations is_written (translations_of source) o in
    let nonempty = lookup-add_translations is_nonempty (translations_of source) k p in
    let covered = written-translated (translations_of source) k in
    ground (arith, by_target, by_name, by_source, written, nonempty, covered)

Keyed-collected : (source target : Entity) → Keyed (collected source target)
Keyed-collected source target =
    let m = set_aliases (aliases_of target) [] in
    let n = add_alias (plain "en" source.name) m in
    let o = add_aliases (aliases_of source) n in
    let p = add_translations is_written (translations_of source) o in
    Keyed-add_translations is_nonempty (translations_of source) p (
      Keyed-add_translations is_written (translations_of source) o (
        Keyed-add_aliases (aliases_of source) n (
          Keyed-add_alias (plain "en" source.name) m
            (Keyed-set_aliases (aliases_of target) [] tt))))

known-merged :
    (source target : Entity) (k : String)
    → known k (merged_aliases source target) ≡ (
        translated k (merged_translations source target)
        || is_some (lookup k (collected source target)))
known-merged source target k =
    let m = collected source target in
    let same : (j : String) → known j (map (λ (_, a). a) m) ≡ is_some (lookup j m) =
      λ j. known-values j m (Keyed-collected source target) in
    rw (known-represent (merged_translations source target) k (map (λ (_, a). a) m) m same, same k)
      refl

pub names-merged :
    (source target : Entity) (k : String)
    → names (merged_entity source target) k ≡ (names target k || names source k)
names-merged source target k =
    let aliases = known-merged source target k in
    let keys = lookup-collected source target k in
    let merged = translated-merge (translations_of source) (translations_of target) k in
    rw (null-get_or (merged_aliases source target), null-get_or (merged_translations source target))
      (ground (arith, aliases, keys, merged))
