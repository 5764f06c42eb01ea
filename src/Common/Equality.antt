-- ===== src/Common/Equality.antt =====
-- `===` on the types of values that the program compares.
use Prim.Native.Nat.{ℕ}
use Prim.Native.String.{String}
use mathlib.Core.Path.{◌≡◌, refl, ap}
use mathlib.Core.Logic.{◌↔◌}
use mathlib.Core.Bool.{Bool, true, false, not}
use mathlib.Core.Option.{Option, none, some}
use native.Mathlib.Omega.{arith}
use text.Mathlib.Text.{◌==◌ as str_eq}
use text.Mathlib.TextEquality.{eq_iff}
use documents_backend.Common.Tests.{nat_eq, nat_eq_iff}

-- A test that decides equality.
pub record Eq {ℓ} (V : Type ℓ) : Type ℓ where
  pub same : V → V → Bool
  pub same_iff : (v w : V) → (same v w ≡ true) ↔ (v ≡ w)

infix 50 ◌==◌ ◌!=◌
abbrev pub ◌==◌ {ℓ} : {V : Type ℓ} ⦃values : Eq V⦄ (v w : V) → Bool
◌==◌ ⦃values⦄ v w = values.same v w

abbrev pub ◌!=◌ {ℓ} : {V : Type ℓ} ⦃values : Eq V⦄ (v w : V) → Bool
v != w = not (v == w)

-- Equality tests are reflexive.
pub eq_refl {ℓ} : {V : Type ℓ} ⦃values : Eq V⦄ (v : V) → (v == v) ≡ true
eq_refl ⦃values⦄ v = (values.same_iff v v).1 refl

instance abbrev pub eq_string : Eq String
eq_string = record { same = str_eq; same_iff = eq_iff }

instance abbrev pub eq_nat : Eq ℕ
eq_nat = record { same = nat_eq; same_iff = nat_eq_iff }

module _ {ℓ} {A : Type ℓ} ⦃e : Eq A⦄ where
  abbrev pub option_eq : Option A → Option A → Bool
  option_eq none none = true
  option_eq (some a) (some b) = a == b
  option_eq _ _ = false

  pub option_eq_iff : (o p : Option A) → (option_eq o p ≡ true) ↔ (o ≡ p)
  option_eq_iff none none = ground arith
  option_eq_iff none (some b) = ground arith
  option_eq_iff (some a) none = ground arith
  option_eq_iff (some a) (some b) =
      (λ h. ap some ((e.same_iff a b).0 h), λ h. (e.same_iff a b).1 (cc))

instance abbrev pub eq_option {ℓ} : {A : Type ℓ} ⦃e : Eq A⦄ → Eq (Option A)
eq_option = record { same = option_eq; same_iff = option_eq_iff }

module _ {ℓ} {A : Type ℓ} ⦃e : Eq A⦄ where
  pub same_refl : (a : A) → (a == a) ≡ true
  same_refl a = (e.same_iff a a).1 refl

  pub same_sound : (a b : A) → (a == b) ≡ true → a ≡ b
  same_sound a b h = (e.same_iff a b).0 h
