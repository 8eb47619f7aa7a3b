-- ===== src/Resilience/Retry.antt =====
-- src/infrastructure/resilience/retry.ts. The guarded function is given by its outcome at each
-- attempt. `jittered attempt d` stands for `Math.max(0, Math.round(d + offset))` with the random
-- offset of that attempt, whose floating-point arithmetic is the run time's.
pub mod Schedule
mod Tests
use onlyapi.Base.{
  Bool, List, Option, [], if◌then◌else◌, min, none, some, suc, true, zero, ℕ, ◌*◌, ◌+◌, ◌^◌, ◌∷◌,
}
use onlyapi.Core.Results.{Result, err, ok}

pub record RetryOptions (E : Type 0) : Type 0 where
  pub max_retries : ℕ
  pub base_delay_ms : ℕ
  pub max_delay_ms : ℕ
  pub retryable : Option (E → Bool)

-- What `onRetry` is told, and how long the policy then sleeps.
pub record Retrial (E : Type 0) : Type 0 where
  pub number : ℕ
  pub error : E
  pub delay_ms : ℕ

-- `!retryable || retryable(error)`
pub is_retryable : {E : Type 0} → RetryOptions E → E → Bool
is_retryable o e = elim o.retryable [ none ↦ true | some test ↦ test e ]

pub capped_delay : {E : Type 0} → RetryOptions E → ℕ → ℕ
capped_delay o attempt = min (o.base_delay_ms * 2 ^ attempt) o.max_delay_ms

module _ {T E : Type 0} (o : RetryOptions E) (jittered : ℕ → ℕ → ℕ) where
  -- The loop, with the attempts that are left after this one.
  pub attempts : (ℕ → Result T E) → ℕ → ℕ → Result T E × List (Retrial E)
  unfolding is_retryable capped_delay
  attempts fn zero attempt = (fn attempt, [])
  attempts fn (suc left) attempt =
      let rest = attempts fn left (attempt + 1) in
      elim (fn attempt) [
        | ok v ↦ (ok v, [])
        | err e ↦
            if is_retryable o e
            then (
              rest.0,
              record {
                number = attempt + 1;
                error = e;
                delay_ms = jittered attempt (capped_delay o attempt);
              }
                  ∷ rest.1,
            )
            else (err e, [])
      ]

  pub execute : (ℕ → Result T E) → Result T E × List (Retrial E)
  unfolding attempts
  execute fn = attempts fn o.max_retries 0
