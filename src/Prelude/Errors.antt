-- ===== src/Prelude/Errors.antt =====
-- Exceptions as values: a computation returns, or raises an exception of one of the classes that
-- the program tells apart. `Action S A` is a method that also changes a state: what was written
-- before a raise stays written.
use Prim.Native.String.{String}
use mathlib.Core.Path.{◌≡◌, refl}
use mathlib.Core.Logic.{◌⊎◌, inl, inr}
use mathlib.Core.Bool.{Bool, true, false}

pub data Kind : Type 0 where
  policy_error approval_error lock_error state_error trust_error limit_error : Kind
  pending_error release_gate_error sandbox_error process_error control_error credential_error
        tunnel_error bootstrap_error zip_error :
      Kind
  value_error type_error attribute_error key_error os_error : Kind

pub data Error : Type 0 where
  error : Kind → String → Error

pub data Result {ℓ} (A : Type ℓ) : Type ℓ where
  err : Error → Result A
  ok : A → Result A

-- An exception skips the rest of the block.
infixl 8 ◌>>=◌ ◌>>◌
abbrev pub ◌>>=◌ {κ ℓ} : {B : Type κ} {A : Type ℓ} → Result B → (B → Result A) → Result A
err raised >>= rest = err raised
ok value >>= rest = rest value

abbrev pub ◌>>◌ {ℓ} : {A : Type ℓ} → Result (Unit {0}) → Result A → Result A
check >> rest = check >>= λ _. rest

abbrev pub raise {ℓ} : {A : Type ℓ} → Kind → String → Result A
raise kind message = err (error kind message)

-- `if not test: raise ...`
abbrev pub require : Bool → Kind → String → Result (Unit {0})
require true kind message = ok tt
require false kind message = raise kind message

-- How a call has ended, with the equation.
pub Result-cases {ℓ} :
    {A : Type ℓ} (r : Result A) → ((e : Error) × (r ≡ err e)) ⊎ ((a : A) × (r ≡ ok a))
Result-cases (err e) = inl (e, refl)
Result-cases (ok a) = inr (a, refl)
