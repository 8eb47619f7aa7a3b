-- ===== src/Resilience/Retry/Schedule.antt =====
-- Which attempts a retry policy makes, and how long it sleeps between them.
use onlyapi.Base.{
  Bool-cases, List, [], false, inl, inr, length, min, refl, suc, true, zero, ℕ, ◌*◌, ◌+◌, ◌-◌, ◌^◌,
  ◌∷◌, ◌≡◌, ◌≤◌, ◌⊎◌, arith, All,
}
use onlyapi.Core.Results.{Result, err, ok}
use onlyapi.Resilience.Retry.{Retrial, RetryOptions, attempts, capped_delay, is_retryable, execute}

Result-cases : {T E : Type 0} (r : Result T E) → ((v : T) × (r ≡ ok v)) ⊎ ((e : E) × (r ≡ err e))
Result-cases (ok v) = inl (v, refl)
Result-cases (err e) = inr (e, refl)

module _ {T E : Type 0} (o : RetryOptions E) (jittered : ℕ → ℕ → ℕ) (fn : ℕ → Result T E) where
  -- Why the policy stops with a result, `left` attempts before the last: it succeeded, it was the
  -- last attempt, or its error is not to be retried.
  abbrev pub Stops : ℕ → Result T E → Type 0
  Stops left (ok v) = Unit {0}
  Stops left (err e) = (left ≡ 0) ⊎ (is_retryable o e ≡ false)

  -- The retrials of the attempts from `attempt` on: each failed with its error, which is to be
  -- retried, and is numbered and delayed by its place.
  abbrev pub Retried : ℕ → List (Retrial E) → Type 0
  Retried attempt [] = Unit {0}
  Retried attempt (r ∷ rs) =
      (fn attempt ≡ err r.error)
      × (is_retryable o r.error ≡ true)
      × (r.number ≡ attempt + 1)
      × (r.delay_ms ≡ jittered attempt (min (o.base_delay_ms * 2 ^ attempt) o.max_delay_ms))
      × Retried (attempt + 1) rs

  abbrev Ran : ℕ → ℕ → Result T E × List (Retrial E) → Type 0
  Ran left attempt r =
      (r.0 ≡ fn (attempt + length r.1))
      × (length r.1 ≤ left)
      × Stops (left - length r.1) r.0
      × Retried attempt r.1

  attempts-Ran : (left attempt : ℕ) → Ran left attempt (attempts o jittered fn left attempt)
  unfolding attempts capped_delay
  attempts-Ran zero attempt = elim (Result-cases (fn attempt)) [
    | inl (v, h) ↦ ground arith
    | inr (e, h) ↦ ground arith
  ]
  attempts-Ran (suc left) attempt = elim (Result-cases (fn attempt)) [
    | inl (v, h) ↦ ground arith
    | inr (e, h) ↦ elim (Bool-cases (is_retryable o e)) [
      | inl y ↦
          let (a, b, c, d) = attempts-Ran left (attempt + 1) in
          let n = length (attempts o jittered fn left (attempt + 1)).1 in
          let next : attempt + 1 + n ≡ attempt + suc n = omega arith in
          rw (h, attempts, y) (rw (← next) a, omega arith, ground arith, ground arith)
      | inr n ↦ ground arith
    ]
  ]

  -- The policy returns what the last call that it makes returns; it makes one call more than it
  -- notes retrials, and at most `max_retries` of those; it stops on a success, after the last
  -- allowed attempt or on an error that is not to be retried; and every earlier attempt failed with
  -- an error to be retried, in order, with a doubling delay capped before the jitter.
  pub execute-Ran :
      let (result, rs) = execute o jittered fn in
      (result ≡ fn (length rs))
      × (length rs ≤ o.max_retries)
      × Stops (o.max_retries - length rs) result
      × Retried 0 rs
  unfolding execute
  execute-Ran =
      let (a, b, c, d) = attempts-Ran o.max_retries 0 in
      let n = length (attempts o jittered fn o.max_retries 0).1 in
      let same : 0 + n ≡ n = omega arith in (rw same at a, b, c, d)

  -- Every sleep is bounded, where the jitter of the documented range at most doubles a delay.
  Retried-bounded :
      ((attempt d : ℕ) → jittered attempt d ≤ 2 * d)
      → (attempt : ℕ) (rs : List (Retrial E)) → Retried attempt rs
      → All (λ r. r.delay_ms ≤ 2 * o.max_delay_ms) rs
  Retried-bounded j attempt [] h = tt
  Retried-bounded j attempt (r ∷ rs) h =
      let cap = min (o.base_delay_ms * 2 ^ attempt) o.max_delay_ms in
      (omega (arith, h.3, j attempt cap), Retried-bounded j (attempt + 1) rs h.4)

  -- No sleep is longer than twice the configured cap, where the jitter at most doubles a delay (its
  -- documented range is a factor from 0 to 1).
  pub execute_delays :
      ((attempt d : ℕ) → jittered attempt d ≤ 2 * d)
      → All (λ r. r.delay_ms ≤ 2 * o.max_delay_ms) (execute o jittered fn).1
  execute_delays j = Retried-bounded j 0 _ execute-Ran.3
