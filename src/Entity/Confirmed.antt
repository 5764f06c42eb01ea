-- ===== src/Entity/Confirmed.antt =====
-- What the confirmation of src/pending-entity/pending-entity.service.ts does with each entry.
use mathlib.Core.List.{Memᴰ}
use documents_backend.Common.{
  ℕ, suc, ◌+◌, String, Bool, not, ◌≡◌, refl, Option, none, some, List, [], ◌∷◌, length, filter,
  find, nat_eq, arith, ◌⊎◌, inl, inr, Bool-cases, All, All-map, Result, ok, err,
}
use documents_backend.Entity.Store.{Entity}
use documents_backend.Entity.Service.{Catalog, Attempt, find_by_name_and_type}
use documents_backend.Entity.Pending.{PendingEntity, Review, find_entry}
use documents_backend.Entity.Confirm.{
  entity_for, close_entry, materialize, named_type, try_one, count_in, confirm_all,
}

find-filter-none :
    {A : Type 0} (p q : A → Bool) (xs : List A) → find p xs ≡ none → find p (filter q xs) ≡ none
find-filter-none p q [] h = refl
find-filter-none p q (x ∷ xs) h = elim (Bool-cases (p x)) [
  | inl t ↦ absurd (ground arith)
  | inr t ↦ let rest = find-filter-none p q xs (ground arith) in ground (arith, rest)
]

pub find-removed :
    (id : ℕ) (entries : List PendingEntity)
    → find (λ x. nat_eq x.id id) (filter (λ x. not (nat_eq x.id id)) entries) ≡ none
find-removed id [] = refl
find-removed id (x ∷ entries) =
    let rest = find-removed id entries in
    elim (Bool-cases (nat_eq x.id id)) [ inl t ↦ rw t rest | inr t ↦ rw (t, t) rest ]

-- What a round leaves of the entries: its own is gone if it succeeded, and none comes back.
record IsHandled (p : PendingEntity) (r : Review) (result : Result (Unit {0})) (after : Review)
    : Type 0 where
  confirmed : result ≡ ok tt → find_entry p.id after ≡ none
  gone : (id : ℕ) → find_entry id r ≡ none → find_entry id after ≡ none

close_entry-IsHandled :
    (p : PendingEntity) (r : Review) (a : Attempt Entity)
    → IsHandled p r (close_entry p r a).0 (close_entry p r a).1
close_entry-IsHandled p r (err e, s) = record { confirmed = λ h. cc; gone = λ id h. h }
close_entry-IsHandled p r (ok e, s) = record {
  confirmed = λ h. find-removed p.id r.entries;
  gone = λ id h. find-filter-none (λ x. nat_eq x.id id) (λ x. not (nat_eq x.id p.id)) r.entries h;
}

count_in-total :
    (p : PendingEntity) (result : Result (Unit {0})) (confirmed : ℕ) (errors : List String) (n : ℕ)
    → confirmed + length errors ≡ n
    → (count_in p result (confirmed, errors)).0 + length (count_in p result (confirmed, errors)).1
      ≡ suc n
count_in-total p (ok tt) confirmed errors n h = omega arith
count_in-total p (err e) confirmed errors n h = omega arith

module _ (cat : Catalog) (resource_project : Option ℕ) where
  try_one-IsHandled :
      (p : PendingEntity) (type : Option ℕ) (r : Review)
      → IsHandled p r
          (try_one cat resource_project p type r).0
          (try_one cat resource_project p type r).1
  unfolding materialize
  try_one-IsHandled p none r = record { confirmed = λ h. cc; gone = λ id h. h }
  try_one-IsHandled p (some type) r = close_entry-IsHandled p r (
      entity_for cat p type resource_project (find_by_name_and_type p.name type r.library)
        r.library)

  confirm_all-gone :
      (ps : List PendingEntity) (r : Review) (id : ℕ)
      → find_entry id r ≡ none
      → find_entry id (confirm_all cat resource_project ps r).2 ≡ none
  unfolding confirm_all
  confirm_all-gone [] r id h = h
  confirm_all-gone (p ∷ ps) r id h =
      let type = named_type cat p.entity_type in
      confirm_all-gone ps (try_one cat resource_project p type r).1 id
        ((try_one-IsHandled p type r).gone id h)

  -- An entry is named among the errors, or is no more.
  abbrev pub IsAnswered : List String → Review → PendingEntity → Type 0
  IsAnswered errors after p = Memᴰ p.name errors ⊎ (find_entry p.id after ≡ none)

  count_in-answers :
      (p : PendingEntity) (result : Result (Unit {0})) (confirmed : ℕ) (errors : List String)
      (after : Review) (ps : List PendingEntity)
      → (result ≡ ok tt → find_entry p.id after ≡ none)
      → All (IsAnswered errors after) ps
      → All (IsAnswered (count_in p result (confirmed, errors)).1 after) (p ∷ ps)
  count_in-answers p (ok tt) confirmed errors after ps h rest = (inr (h refl), rest)
  count_in-answers p (err e) confirmed errors after ps h rest =
      (inl (Memᴰ.head refl), All-map _ _ ps (λ x. later x) rest)
    where
      later : (x : PendingEntity) → IsAnswered errors after x → IsAnswered (p.name ∷ errors) after x
      later x (inl m) = inl (Memᴰ.tail m)
      later x (inr g) = inr g

  -- Every entry of the loop is counted as confirmed, and is then no more, or is named among the
  -- errors.
  pub confirm_all-IsAnswered :
      (ps : List PendingEntity) (r : Review)
      → let (confirmed, errors, after) = confirm_all cat resource_project ps r in
        (confirmed + length errors ≡ length ps) × All (IsAnswered errors after) ps
  unfolding confirm_all
  confirm_all-IsAnswered [] r = (refl, tt)
  confirm_all-IsAnswered (p ∷ ps) r =
      let type = named_type cat p.entity_type in
      let after = (try_one cat resource_project p type r).1 in
      let (count, rest) = confirm_all-IsAnswered ps after in
      let handled = try_one-IsHandled p type r in
      (
        count_in-total p (try_one cat resource_project p type r).0 _ _ (length ps) count,
        count_in-answers p (try_one cat resource_project p type r).0
            (confirm_all cat resource_project ps after).0
            (confirm_all cat resource_project ps after).1
            (confirm_all cat resource_project ps after).2 ps
            (λ h. confirm_all-gone ps after p.id (handled.confirmed h)) rest,
      )
