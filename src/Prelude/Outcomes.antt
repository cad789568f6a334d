-- ===== src/Prelude/Outcomes.antt =====
-- What a run of a C++ function ends in: a result, undefined behaviour, or, in the model of a loop
-- that takes fuel, no result within the fuel.
use mathlib.Core.Option.{Option, none, some}

pub data Outcome {ℓ} (A : Type ℓ) : Type ℓ where
  done : A → Outcome A
  fault : Outcome A
  out_of_fuel : Outcome A

infixl 5 ◌>>=◌
abbrev pub ◌>>=◌ {ℓ κ} : {A : Type ℓ} {B : Type κ} → Outcome A → (A → Outcome B) → Outcome B
done a >>= f = f a
fault >>= f = fault
out_of_fuel >>= f = out_of_fuel

-- A function without loops, which is `none` where it faults.
abbrev pub of_option {ℓ} : {A : Type ℓ} → Option A → Outcome A
of_option none = fault
of_option (some a) = done a
