-- ===== src/Common/Outcome.antt =====
-- What a request handler returns or throws, as a value.
use Prim.Native.String.{String}
use mathlib.Core.Path.{◌≡◌, refl}
use mathlib.Core.Bool.{Bool, true, false}
use mathlib.Core.Option.{Option, none, some}
use mathlib.Core.List.{List}

-- The exceptions of the HTTP layer, with their messages (less the values that a message quotes),
-- and the `TypeError` of a read through `undefined`.
pub data Failure : Type 0 where
  bad_request conflict not_found forbidden : String → Failure
  invalid : List String → Failure
  fault : Failure

pub data Result {ℓ} (A : Type ℓ) : Type ℓ where
  ok : A → Result A
  err : Failure → Result A

-- `x!`: a value that is there, or a fault.
abbrev pub present {ℓ} : {A : Type ℓ} → Option A → Result A
present none = err fault
present (some a) = ok a

infixl 5 ◌>>=◌
-- What an exception leaves out: the rest of the handler.
abbrev pub ◌>>=◌ {ℓ κ} :
    {B : Type κ} {A : Type ℓ} (tried : Result A) (rest : A → Result B) → Result B
err failure >>= rest = err failure
ok value >>= rest = rest value

-- A check that stands as a statement of its own.
infixl 5 ◌>>◌
abbrev pub ◌>>◌ {ℓ} : {B : Type ℓ} (checked : Result (Unit {0})) (rest : Result B) → Result B
checked >> rest = checked >>= λ _. rest

-- `if (test) throw failure;`
abbrev pub throw_if : Bool → Failure → Result (Unit {0})
throw_if true e = err e
throw_if false e = ok tt

-- A handler that returned went through all its steps.
pub >>=-eq-ok {ℓ κ} :
    {B : Type κ} {A : Type ℓ} (tried : Result A) (rest : A → Result B) {result : B}
    → (tried >>= rest) ≡ ok result
    → (value : A) × (tried ≡ ok value) × (rest value ≡ ok result)
>>=-eq-ok (err failure) rest h = cc
>>=-eq-ok (ok value) rest h = (value, refl, h)

-- A statement that stood before a result let it pass.
pub throw_if-eq-ok {ℓ} :
    {B : Type ℓ} (t : Bool) (e : Failure) (k : Result B) {b : B}
    → (throw_if t e >> k) ≡ ok b
    → (t ≡ false) × (k ≡ ok b)
throw_if-eq-ok true e k h = cc
throw_if-eq-ok false e k h = (refl, h)
