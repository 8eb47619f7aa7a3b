-- ===== src/Security/Lockout/Tests.antt =====
-- Runs of the lockout tracker, and its theorems at concrete accounts.
use onlyapi.Base.{String, [], arith, get, none, refl, set, some, true, ◌++◌, ◌∷◌, ◌≡◌, ◌≢◌}
use onlyapi.Security.Lockout.{
  LockoutConfig, LockoutStore, is_locked, record_failed_attempt, reset_attempts,
}
use onlyapi.Security.Lockout.Refinement.{
  counting, fail_status, record_failed_attempt-refines, reset_attempts-refines, status,
}
use onlyapi.Security.Lockout.Runs.{fail_all, max_failures_lock}

abbrev two_strikes : LockoutConfig
two_strikes = record { max_attempts = 2; lockout_duration_ms = 100 }

abbrev one_failure : LockoutStore
one_failure = ("ann", record { attempts = 1; locked_until = none }) ∷ []

second_failure_locks :
    record_failed_attempt two_strikes "ann" 7 one_failure
    ≡ (true, ("ann", record { attempts = 2; locked_until = some 107 }) ∷ [])
unfolding record_failed_attempt get set
second_failure_locks = refl

record_failed_attempt-refines_example :
    let (held, m') = record_failed_attempt two_strikes "ann" 7 one_failure in
    (held ≡ (fail_status two_strikes 7 (status "ann" 7 one_failure)).0)
    × (status "ann" 7 m' ≡ (fail_status two_strikes 7 (status "ann" 7 one_failure)).1)
    × ((j : String) → j ≢ "ann" → get j m' ≡ get j one_failure)
record_failed_attempt-refines_example =
    record_failed_attempt-refines two_strikes "ann" 7 one_failure (omega arith)

reset_attempts-refines_example :
    (status "ann" 7 (reset_attempts "ann" one_failure) ≡ counting 0)
    × ((j : String) → j ≢ "ann" → get j (reset_attempts "ann" one_failure) ≡ get j one_failure)
reset_attempts-refines_example = reset_attempts-refines "ann" 7 one_failure

max_failures_lock_example :
    (is_locked "ann" 50 (fail_all two_strikes "ann" ((7 ∷ []) ++ 9 ∷ []) [])).0 ≡ some 109
unfolding get
max_failures_lock_example = max_failures_lock two_strikes "ann" (7 ∷ []) 9 50 [] refl (omega arith)
