-- ===== src/Base/Outcome.antt =====
-- How a kernel function ends: with a value, or in `panic`, which stops the machine.
use Prim.Native.String.{String}
use mathlib.Core.Path.{◌≡◌, refl}
use mathlib.Core.Logic.{◌⊎◌, inl, inr}

pub data Result {ℓ} (A : Type ℓ) : Type ℓ where
  ok : A → Result A
  panic : String → Result A

pub Result-cases {ℓ} :
    {A : Type ℓ} (r : Result A) → ((m : String) × (r ≡ panic m)) ⊎ ((a : A) × (r ≡ ok a))
Result-cases (ok a) = inr (a, refl)
Result-cases (panic m) = inl (m, refl)
