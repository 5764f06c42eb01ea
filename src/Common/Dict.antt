-- ===== src/Common/Dict.antt =====
-- A JavaScript object used as a dictionary, in the order of insertion of its keys.
use Prim.Native.String.{String}
use mathlib.Core.Path.{◌≡◌, refl, ◌∙◌}
use mathlib.Core.Bool.{Bool, true, false}
use mathlib.Core.Option.{Option, none, some}
use mathlib.Core.Option
use mathlib.Core.List.{List, [], ◌∷◌}
use native.Mathlib.Omega.{arith}
use text.Mathlib.Text.{◌==◌ as str_eq}
use text.Mathlib.TextEquality.{eq_iff}
use documents_backend.Common.Tests.{if◌then◌else◌, get_or}

abbrev pub Dict {ℓ} : Type ℓ → Type ℓ
Dict V = List (String × V)

module _ {ℓ} {V : Type ℓ} where
  -- `d[k]`.
  unfoldable pub lookup : String → Dict V → Option V
  lookup k [] = none
  lookup k ((j, v) ∷ d) = if str_eq j k then some v else lookup k d

  -- `d[k] = v`.
  unfoldable pub insert : String → V → Dict V → Dict V
  insert k v [] = (k, v) ∷ []
  insert k v ((j, w) ∷ d) = if str_eq j k then (j, v) ∷ d else (j, w) ∷ insert k v d

  -- A change in place of the value at `k`, if there is one.
  unfoldable pub adjust : String → (V → V) → Dict V → Dict V
  adjust k f [] = []
  adjust k f ((j, v) ∷ d) = if str_eq j k then (j, f v) ∷ d else (j, v) ∷ adjust k f d

  -- `d[k] ??= v`.
  unfoldable pub insert_new : String → V → Dict V → Dict V
  unfolding lookup insert
  insert_new k v d = elim (lookup k d) [ none ↦ insert k v d | some _ ↦ d ]

  pub lookup-insert :
      (k j : String) (v : V) (d : Dict V)
      → lookup j (insert k v d) ≡ (if str_eq k j then some v else lookup j d)
  unfolding lookup insert
  lookup-insert k j v [] = refl
  lookup-insert k j v ((i, w) ∷ d) =
      ground (arith, eq_iff k j, eq_iff i k, eq_iff i j, lookup-insert k j v d)

  pub lookup-adjust :
      (k j : String) (f : V → V) (d : Dict V)
      → lookup j (adjust k f d) ≡ (if str_eq k j then Option.map f (lookup j d) else lookup j d)
  unfolding lookup adjust
  lookup-adjust k j f [] = ground arith
  lookup-adjust k j f ((i, w) ∷ d) =
      ground (arith, eq_iff k j, eq_iff i k, eq_iff i j, lookup-adjust k j f d)

  pub lookup-insert_new :
      (k j : String) (v : V) (d : Dict V)
      → lookup j (insert_new k v d)
        ≡ (if str_eq k j then some (get_or (lookup k d) v) else lookup j d)
  unfolding insert_new
  lookup-insert_new k j v d = ground (arith, eq_iff k j, lookup-insert k j v d)

module _ {ℓ} {V : Type ℓ} where
  -- What is found after a change in place was there before it.
  adjust_found :
      (b : Bool) (f : V → V) (o : Option V) (v : V)
      → (if b then Option.map f o else o) ≡ some v
      → (old : V) × (o ≡ some old) × (v ≡ (if b then f old else old))
  adjust_found true f none v e = cc
  adjust_found true f (some old) v e = (old, refl, cc)
  adjust_found false f none v e = cc
  adjust_found false f (some old) v e = (old, refl, cc)

  pub lookup-adjust_inv :
      (k j : String) (f : V → V) (d : Dict V) (v : V)
      → lookup j (adjust k f d) ≡ some v
      → (old : V) × (lookup j d ≡ some old) × (v ≡ (if str_eq k j then f old else old))
  lookup-adjust_inv k j f d v e =
      adjust_found (str_eq k j) f (lookup j d) v (rw (← lookup-adjust k j f d) e)

  adjust_kept :
      (b : Bool) (f : V → V) (o : Option V) (old : V)
      → o ≡ some old
      → (if b then Option.map f o else o) ≡ some (if b then f old else old)
  adjust_kept true f o old e = rw e
  adjust_kept false f o old e = e

  pub lookup-adjust-some :
      (k j : String) (f : V → V) (d : Dict V) (old : V)
      → lookup j d ≡ some old
      → lookup j (adjust k f d) ≡ some (if str_eq k j then f old else old)
  lookup-adjust-some k j f d old e =
      lookup-adjust k j f d ∙ adjust_kept (str_eq k j) f (lookup j d) old e
