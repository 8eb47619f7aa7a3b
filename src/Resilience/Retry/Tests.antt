-- ===== src/Resilience/Retry/Tests.antt =====
-- Runs of the retry policy, and its theorems at a concrete one.
use onlyapi.Base.{
  String, [], if◌then◌else◌, length, ltb, min, refl, some, ℕ, ◌*◌, ◌+◌, ◌-◌, ◌∷◌, ◌≡◌, ◌≤◌,
}
use onlyapi.Core.Results.{Result, err, ok}
use onlyapi.Resilience.Retry.{RetryOptions, execute}
use onlyapi.Resilience.Retry.Schedule.{Retried, Stops, execute-Ran}

abbrev options : RetryOptions ℕ
options = record {
  max_retries = 3;
  base_delay_ms = 100;
  max_delay_ms = 150;
  retryable = some (λ e. ltb e 9);
}

-- The offset of the jitter is 5 at every attempt.
abbrev five_more : ℕ → ℕ → ℕ
five_more attempt d = min (d + 5) (2 * d)

-- Fails with error 1 twice, then succeeds.
abbrev third_time : ℕ → Result String ℕ
third_time n = if ltb n 2 then err 1 else ok "done"

third_time_lucky : execute options five_more third_time ≡ (
  ok "done",
  record { number = 1; error = 1; delay_ms = 105 }
      ∷ record { number = 2; error = 1; delay_ms = 155 }
      ∷ [],
)
unfolding execute
third_time_lucky = refl

execute-Ran_example :
    let (result, rs) = execute options five_more third_time in
    (result ≡ third_time (length rs))
    × (length rs ≤ options.max_retries)
    × Stops options five_more third_time (options.max_retries - length rs) result
    × Retried options five_more third_time 0 rs
execute-Ran_example = execute-Ran options five_more third_time
