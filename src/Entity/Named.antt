-- ===== src/Entity/Named.antt =====
-- The names that `merge` of src/entity/entity.service.ts leaves to the target.
use documents_backend.Common.{
  String, Bool, ◌&&◌, ◌||◌, ◌≡◌, refl, List, [], ◌∷◌, map, any, str_eq, eq_iff, is_some, arith,
  if◌then◌else◌, All, inl, inr, Bool-cases,
}
use documents_backend.Common.Dict.{Dict, lookup, insert, lookup-insert}
use documents_backend.Entity.Store.{EntityAlias, Entity}
use documents_backend.Entity.Merge.{
  key_of, plain, AliasMap, add_alias, set_aliases, add_aliases, add_translations, is_nonempty,
  aliases_of, translations_of,
}

abbrev pub named : String → EntityAlias → Bool
named k a = str_eq (key_of a) k

abbrev pub known : String → List EntityAlias → Bool
known k aliases = any (named k) aliases

abbrev pub translated_by : (String → Bool) → String → Dict String → Bool
translated_by test k t = any (λ (locale, value). test value && named k (plain locale value)) t

abbrev pub translated : String → Dict String → Bool
translated k t = translated_by is_nonempty k t

-- An entity is known by its name, which counts as English, by its aliases and its translations.
abbrev pub names : Entity → String → Bool
names e k =
    named k (plain "en" e.name) || known k (aliases_of e) || translated k (translations_of e)

-- Every alias stands under its own key.
abbrev pub Keyed : AliasMap → Type 0
Keyed aliases = All (λ (j, a). j ≡ key_of a) aliases

pub known-values :
    (k : String) (m : AliasMap) → Keyed m → known k (map (λ (_, a). a) m) ≡ is_some (lookup k m)
unfolding lookup
known-values k [] h = refl
known-values k ((j, a) ∷ m) (own, h) = let rest = known-values k m h in rw own (ground arith)

pub Keyed-insert : (a : EntityAlias) (m : AliasMap) → Keyed m → Keyed (insert (key_of a) a m)
unfolding insert
Keyed-insert a [] h = (refl, tt)
Keyed-insert a ((j, b) ∷ m) (own, h) = elim (Bool-cases (str_eq j (key_of a))) [
  | inl t ↦ rw t ((eq_iff j (key_of a)).0 t, h)
  | inr t ↦ rw t (own, Keyed-insert a m h)
]

pub Keyed-add_alias : (a : EntityAlias) (m : AliasMap) → Keyed m → Keyed (add_alias a m)
unfolding add_alias
Keyed-add_alias a m h = elim (Bool-cases (is_some (lookup (key_of a) m))) [
  | inl t ↦ rw t h
  | inr t ↦ rw t (Keyed-insert a m h)
]

pub Keyed-set_aliases :
    (added : List EntityAlias) (m : AliasMap) → Keyed m → Keyed (set_aliases added m)
unfolding set_aliases
Keyed-set_aliases [] m h = h
Keyed-set_aliases (a ∷ added) m h =
    Keyed-set_aliases added (insert (key_of a) a m) (Keyed-insert a m h)

pub Keyed-add_aliases :
    (added : List EntityAlias) (m : AliasMap) → Keyed m → Keyed (add_aliases added m)
unfolding add_aliases
Keyed-add_aliases [] m h = h
Keyed-add_aliases (a ∷ added) m h = Keyed-add_aliases added (add_alias a m) (Keyed-add_alias a m h)

pub Keyed-add_translations :
    (test : String → Bool) (t : Dict String) (m : AliasMap)
    → Keyed m
    → Keyed (add_translations test t m)
unfolding add_translations
Keyed-add_translations test [] m h = h
Keyed-add_translations test ((locale, value) ∷ more) m h =
    let a = plain locale value in
    Keyed-add_translations test more (if test value then add_alias a m else m)
      (elim (Bool-cases (test value)) [ inl t ↦ rw t (Keyed-add_alias a m h) | inr t ↦ rw t h ])

-- The keys that each pass adds.
pub lookup-insert_key :
    (a : EntityAlias) (k : String) (m : AliasMap)
    → is_some (lookup k (insert (key_of a) a m)) ≡ (named k a || is_some (lookup k m))
lookup-insert_key a k m = rw (lookup-insert (key_of a) k a m) (ground arith)

pub lookup-add_alias :
    (a : EntityAlias) (k : String) (m : AliasMap)
    → is_some (lookup k (add_alias a m)) ≡ (named k a || is_some (lookup k m))
unfolding add_alias
lookup-add_alias a k m = elim (Bool-cases (is_some (lookup (key_of a) m))) [
  | inl t ↦ elim (Bool-cases (str_eq (key_of a) k)) [
    | inl e ↦ rw (t, e) (rw (← (eq_iff (key_of a) k).0 e) t)
    | inr e ↦ rw (t, e) refl
  ]
  | inr t ↦ rw t (lookup-insert_key a k m)
]

pub lookup-set_aliases :
    (added : List EntityAlias) (k : String) (m : AliasMap)
    → is_some (lookup k (set_aliases added m)) ≡ (known k added || is_some (lookup k m))
unfolding set_aliases
lookup-set_aliases [] k m = refl
lookup-set_aliases (a ∷ added) k m =
    rw (lookup-set_aliases added k (insert (key_of a) a m), lookup-insert_key a k m) (ground arith)

pub lookup-add_aliases :
    (added : List EntityAlias) (k : String) (m : AliasMap)
    → is_some (lookup k (add_aliases added m)) ≡ (known k added || is_some (lookup k m))
unfolding add_aliases
lookup-add_aliases [] k m = refl
lookup-add_aliases (a ∷ added) k m =
    rw (lookup-add_aliases added k (add_alias a m), lookup-add_alias a k m) (ground arith)

pub lookup-add_translations :
    (test : String → Bool) (t : Dict String) (k : String) (m : AliasMap)
    → is_some (lookup k (add_translations test t m))
      ≡ (translated_by test k t || is_some (lookup k m))
unfolding add_translations
lookup-add_translations test [] k m = refl
lookup-add_translations test ((locale, value) ∷ more) k m = elim (Bool-cases (test value)) [
  | inl t ↦
      rw
        (
          t,
          lookup-add_translations test more k (add_alias (plain locale value) m),
          lookup-add_alias (plain locale value) k m,
        )
        (ground arith)
  | inr t ↦ rw (t, lookup-add_translations test more k m) refl
]
