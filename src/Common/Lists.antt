-- ===== src/Common/Lists.antt =====
-- Lists searched and folded the way `Array.prototype` does.
use Prim.Native.Nat.{ℕ, suc}
use mathlib.Core.Path.{◌≡◌, refl, ap}
use mathlib.Core.Bool.{Bool, true, false, ◌&&◌, ◌||◌}
use mathlib.Core.Option.{Option, none, some}
use mathlib.Core.List.{List, [], ◌∷◌, ◌++◌}
use native.Mathlib.Omega.{arith}
use documents_backend.Common.Tests.{if◌then◌else◌, or_else, Bool-cases}
use mathlib.Core.Logic.{inl, inr}

module _ {ℓ} {A : Type ℓ} where
  abbrev pub length : List A → ℕ
  length [] = 0
  length (x ∷ xs) = suc (length xs)

  -- `Array.prototype.find`.
  abbrev pub find : (A → Bool) → List A → Option A
  find p [] = none
  find p (x ∷ xs) = if p x then some x else find p xs

  -- The last match: `[...rows].reverse().find(p)`.
  abbrev pub find_last : (A → Bool) → List A → Option A
  find_last p [] = none
  find_last p (x ∷ xs) = or_else (find_last p xs) (if p x then some x else none)

  abbrev pub all : (A → Bool) → List A → Bool
  all p [] = true
  all p (x ∷ xs) = p x && all p xs

  abbrev pub any : (A → Bool) → List A → Bool
  any p [] = false
  any p (x ∷ xs) = p x || any p xs

  -- `Array.prototype.filter`.
  abbrev pub filter : (A → Bool) → List A → List A
  filter p [] = []
  filter p (x ∷ xs) = if p x then x ∷ filter p xs else filter p xs

  pub find-append :
      (p : A → Bool) (xs ys : List A) → find p (xs ++ ys) ≡ or_else (find p xs) (find p ys)
  find-append p [] ys = refl
  find-append p (x ∷ xs) ys = ground (arith, find-append p xs ys)

  pub find-holds : (p : A → Bool) (xs : List A) {x : A} → find p xs ≡ some x → p x ≡ true
  find-holds p [] h = cc
  find-holds p (x ∷ xs) {x = y} h = ground (arith, find-holds p xs {x = y})

  -- What is found stands in the list.
  pub find-split :
      (p : A → Bool) (xs : List A) {x : A}
      → find p xs ≡ some x
      → (before : List A) × ((after : List A) × (xs ≡ before ++ x ∷ after))
  find-split p [] h = cc
  find-split p (x ∷ xs) {x = y} h = elim (Bool-cases (p x)) [
    | inl t ↦ ([], (xs, ground arith))
    | inr t ↦
        let (before, (after, same)) = find-split p xs {x = y} (ground arith) in
        (x ∷ before, (after, ap (λ rest. x ∷ rest) same))
  ]

  pub find_last-holds : (p : A → Bool) (xs : List A) {x : A} → find_last p xs ≡ some x → p x ≡ true
  find_last-holds p [] h = cc
  find_last-holds p (x ∷ xs) {x = y} h = ground (arith, find_last-holds p xs {x = y})

-- What holds of every element.
abbrev pub All {ℓ κ} : {A : Type ℓ} → (A → Type κ) → List A → Type κ
All P [] = Unit
All P (x ∷ xs) = P x × All P xs

pub All-append {ℓ κ} :
    {A : Type ℓ} (P : A → Type κ) (xs ys : List A) → All P xs → All P ys → All P (xs ++ ys)
All-append P [] ys h k = k
All-append P (x ∷ xs) ys h k = (h.0, All-append P xs ys h.1 k)

-- What is found has what holds of every element.
pub All-find {ℓ κ} :
    {A : Type ℓ} (P : A → Type κ) (p : A → Bool) (xs : List A) {x : A}
    → All P xs
    → find p xs ≡ some x
    → P x
All-find P p [] h e = cc
All-find P p (x ∷ xs) {x = y} h e = elim (Bool-cases (p x)) [
  | inl t ↦ let same : x ≡ y = ground arith in rw (← same) h.0
  | inr t ↦ All-find P p xs h.1 (ground arith)
]

-- What holds of two lists of facts elementwise gives a third.
pub All-map2 {ℓ κ μ ν} :
    {A : Type ℓ} (P : A → Type κ) (Q : A → Type μ) (S : A → Type ν) (xs : List A)
    → ((x : A) → P x → Q x → S x)
    → All P xs
    → All Q xs
    → All S xs
All-map2 P Q S [] f h k = tt
All-map2 P Q S (x ∷ xs) f h k = (f x h.0 k.0, All-map2 P Q S xs f h.1 k.1)

pub All-map {ℓ κ μ} :
    {A : Type ℓ} (P : A → Type κ) (Q : A → Type μ) (xs : List A)
    → ((x : A) → P x → Q x)
    → All P xs
    → All Q xs
All-map P Q [] f h = tt
All-map P Q (x ∷ xs) f h = (f x h.0, All-map P Q xs f h.1)

-- What passes a test with what held of it before has what follows from both.
pub All-filter {ℓ κ μ} :
    {A : Type ℓ} (P : A → Type κ) (Q : A → Type μ) (p : A → Bool) (xs : List A)
    → ((x : A) → P x → p x ≡ true → Q x)
    → All P xs
    → All Q (filter p xs)
All-filter P Q p [] f h = tt
All-filter P Q p (x ∷ xs) f h = elim (Bool-cases (p x)) [
  | inl t ↦ rw t (f x h.0 t, All-filter P Q p xs f h.1)
  | inr t ↦ rw t (All-filter P Q p xs f h.1)
]

-- What is found stays found while it is kept.
pub find-filter {ℓ} :
    {A : Type ℓ} (p q : A → Bool) (xs : List A) {x : A}
    → find p xs ≡ some x
    → q x ≡ true
    → find p (filter q xs) ≡ some x
find-filter p q [] h k = cc
find-filter p q (y ∷ ys) {x = x} h k = elim (Bool-cases (p y)) [
  | inl t ↦ let same : y ≡ x = ground arith in rw same (ground arith)
  | inr t ↦ let rest = find-filter p q ys {x = x} (ground arith) k in ground (arith, rest)
]
