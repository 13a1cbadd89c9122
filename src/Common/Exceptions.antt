-- ===== src/Common/Exceptions.antt =====
-- C++ exceptions as values. A method that mutates its object and may throw returns the object
-- beside the outcome: what it changed before the throw stays changed.
use Prim.Native.String.{String}
use Prim.Native.Nat.{ℕ}
use mathlib.Core.List.{List}
use network_project_cs.Common.Int.{ℤ}

pub data Exception : Type 0 where
  out_of_range runtime_error length_error invalid_argument : String → Exception
  -- A `runtime_error` whose message is the text followed by the number in decimal.
  runtime_error_number : String → ℤ → Exception
  -- What was attempted, and the value of `errno`.
  unix_error : String → ℕ → Exception
  -- A `tagged_error` of the resolver: what was attempted, and the resolver's code.
  gai_error : List ℕ → ℤ → Exception

pub data Result {ℓ} (A : Type ℓ) : Type ℓ where
  ok : A → Result A
  throw : Exception → Result A

infixl 5 ◌>>=◌
abbrev pub ◌>>=◌ {ℓ κ} : {A : Type ℓ} {B : Type κ} → Result A → (A → Result B) → Result B
ok a >>= f = f a
throw e >>= f = throw e

-- What a method does that works on the machine: `fault` is what C++ leaves undefined, `diverges`
-- a loop that has not ended within its fuel.
pub data Outcome {ℓ} (A : Type ℓ) : Type ℓ where
  returns : A → Outcome A
  throws : Exception → Outcome A
  fault diverges : Outcome A

abbrev pub of_result {ℓ} : {A : Type ℓ} → Result A → Outcome A
of_result (ok a) = returns a
of_result (throw e) = throws e
