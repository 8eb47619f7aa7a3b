-- ===== src/Core/Results.antt =====
-- src/core/types/result.ts.
use onlyapi.Base.{inl, inr, refl, ◌≡◌, ◌⊎◌}
use onlyapi.Core.Errors.{AppError}

pub data Result {ℓ κ} (T : Type ℓ) (E : Type κ) : Type (ℓ ⊔ κ) where
  ok : T → Result T E
  err : E → Result T E

-- A result of the application: its failures are `AppError`s.
abbrev pub Outcome {ℓ} : Type ℓ → Type ℓ
Outcome T = Result T AppError

-- To split on a result and keep the equation.
pub Outcome-cases :
    {A : Type 0} (r : Outcome A) → ((e : AppError) × (r ≡ err e)) ⊎ ((a : A) × (r ≡ ok a))
Outcome-cases (err e) = inl (e, refl)
Outcome-cases (ok a) = inr (a, refl)
