-- ===== src/Entity/Retranslated.antt =====
-- What `retranslateEntity` of src/pending-entity/pending-entity.service.ts asks for.
use documents_backend.Common.{
  ℕ, String, Bool, true, false, not, ◌&&◌, ◌||◌, ◌≡◌, ◌≢◌, refl, sym, ap, ◌∙◌, Option, none, some,
  List, [], ◌∷◌, ◌++◌, any, str_eq, eq_iff, get_or, arith, ◌⊎◌, inl, inr, Bool-cases, if◌then◌else◌,
}
use documents_backend.Common.Dict.{Dict}
use documents_backend.Entity.Pending.{PendingEntity, Review, find_entry}
use documents_backend.Entity.Cancelled.{find_entry-saved, find_entry-id}
use documents_backend.Entity.Entries.{
  Translation, renamed, is_wanted, languages_to_translate, asked, retranslate_entity,
}

-- The languages of what is asked, none if nothing is.
abbrev pub languages_of : Option Translation → List String
languages_of none = []
languages_of (some t) = t.target_languages

languages_of-asked : (p : PendingEntity) (ls : List String) → languages_of (asked p ls) ≡ ls
languages_of-asked p [] = refl
languages_of-asked p (l ∷ ls) = refl

any-append : (p : String → Bool) (xs ys : List String) → any p (xs ++ ys) ≡ (any p xs || any p ys)
any-append p [] ys = refl
any-append p (x ∷ xs) ys = ground (arith, any-append p xs ys)

any-single :
    (b : Bool) (l x : String) → any (str_eq l) (if b then x ∷ [] else []) ≡ (b && str_eq l x)
any-single true l x = ground arith
any-single false l x = refl

wanted-same :
    (t : Dict String) (l x : String) → (is_wanted t x && str_eq l x) ≡ (is_wanted t l && str_eq l x)
wanted-same t l x = elim (Bool-cases (str_eq l x)) [
  | inl e ↦ rw ((eq_iff l x).0 e) refl
  | inr e ↦ rw e (ground arith)
]

test-same : (l x y : String) → (str_eq x y && str_eq l x) ≡ (str_eq l y && str_eq l x)
test-same l x y = elim (Bool-cases (str_eq l x)) [
  | inl e ↦ rw ((eq_iff l x).0 e) refl
  | inr e ↦ rw e (ground arith)
]

languages-wanted :
    (t : Dict String) (resource target l : String)
    → any (str_eq l) (languages_to_translate t resource target)
      ≡ (is_wanted t l && (str_eq l resource || str_eq l target))
unfolding languages_to_translate
languages-wanted t resource target l =
    let first = wanted-same t l resource in
    let second = wanted-same t l target in
    let equal = test-same l target resource in
    rw
      (
        any-append (str_eq l) (if is_wanted t resource then resource ∷ [] else [])
            (if is_wanted t target && not (str_eq target resource) then target ∷ [] else []),
        any-single (is_wanted t resource) l resource,
        any-single (is_wanted t target && not (str_eq target resource)) l target,
      )
      (ground (arith, first, second, equal))

languages-differ :
    (t : Dict String) (resource target a b : String) (rest : List String)
    → languages_to_translate t resource target ≡ a ∷ b ∷ rest
    → a ≢ b
unfolding languages_to_translate
languages-differ t resource target a b rest h =
    two (is_wanted t resource) (is_wanted t target) (Bool-cases (str_eq target resource)) h
  where
    two :
        (v w : Bool)
        → (str_eq target resource ≡ true) ⊎ (str_eq target resource ≡ false)
        → (if v then resource ∷ [] else [])
            ++ (if w && not (str_eq target resource) then target ∷ [] else [])
          ≡ a ∷ b ∷ rest
        → a ≢ b
    two true true (inl t) e = let one_left = rw t at e in cc
    two true true (inr t) e = λ same.
        let listed : resource ∷ target ∷ [] ≡ a ∷ b ∷ rest = rw t at e in
        let one : resource ≡ a = cc in
        let other : target ≡ b = cc in
        let equal : target ≡ resource = other ∙ sym same ∙ sym one in
        ground (arith, t, (eq_iff target resource).1 equal)
    two true false c e = cc
    two false true (inl t) e = let none_left = rw t at e in cc
    two false true (inr t) e = let one_left = rw t at e in cc
    two false false c e = cc

-- If the entry is there, then what is asked for names exactly the languages of the resource and of
-- the target that are not English and have no translation after the current one was renamed, each
-- once; and the entry has those translations afterwards.
pub retranslate_entity-asks :
    (id : ℕ) (name current resource target : String) (r : Review) (p : PendingEntity)
    → find_entry id r ≡ some p
    → let answer = retranslate_entity id name current resource target r in
      let translations = renamed current name (get_or p.translations []) in
      ((l : String)
        → any (str_eq l) (languages_of answer.1)
          ≡ (is_wanted translations l && (str_eq l resource || str_eq l target)))
      × ((a b : String) (rest : List String) → languages_of answer.1 ≡ a ∷ b ∷ rest → a ≢ b)
      × (find_entry id answer.0.1 ≡ some (record p { translations = some translations }))
unfolding retranslate_entity
retranslate_entity-asks id name current resource target r p found =
    let t = renamed current name (get_or p.translations []) in
    let same = languages_of-asked p (languages_to_translate t resource target) in
    rw found (
      λ l. ap (any (str_eq l)) same ∙ languages-wanted t resource target l,
      λ a b rest e. languages-differ t resource target a b rest (sym same ∙ e),
      find_entry-saved id (record p { translations = some t }) r found (find_entry-id id r found),
    )
