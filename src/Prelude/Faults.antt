-- ===== src/Prelude/Faults.antt =====
-- How code that writes into fixed arrays ends: in a value, or in the fault that stopped it.
use mathlib.Core.Path.{◌≡◌}

-- `overflow` is an access past the end of an array and `null_pointer` one through a null pointer,
-- which are undefined behaviour in C++. `fuel` says that a loop was given too few rounds.
pub data Fault : Type 0 where
  overflow null_pointer fuel : Fault

module _ {ℓ} where
  pub data Run (A : Type ℓ) : Type ℓ where
    fault : Fault → Run A
    ok : A → Run A

  module _ {κ} {A : Type ℓ} where
    -- The run ends normally, and its value is as `Q` says.
    abbrev pub Returns : Run A → (A → Type κ) → Type (ℓ ⊔ κ)
    Returns run Q = (value : A) × (run ≡ ok value) × Q value

module _ {ℓ κ} {A : Type ℓ} {B : Type κ} where
  infixl 5 ◌>>=◌
  -- A fault stops all that would come next.
  abbrev pub ◌>>=◌ : Run A → (A → Run B) → Run B
  fault why >>= next = fault why
  ok value >>= next = next value
