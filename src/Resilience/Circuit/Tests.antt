-- ===== src/Resilience/Circuit/Tests.antt =====
-- Runs of the breaker, and its theorems at concrete ones.
use onlyapi.Base.{[], pos, refl, ◌∷◌, ◌≡◌}
use onlyapi.Resilience.Circuit.{
  Breaker, CircuitBreakerOptions, begin, closed, create, half_open, open_circuit, record_failure,
  record_success, wake,
}
use onlyapi.Resilience.Circuit.Diagram.{Follows, fails, step, step-Follows}
use onlyapi.Resilience.Circuit.Thresholds.{fail_all}

abbrev options : CircuitBreakerOptions
options = record { failure_threshold = 2; reset_timeout_ms = 100; half_open_success_threshold = 1 }

abbrev opened : Breaker
opened = record {
  state = open_circuit;
  failures = 2;
  successes = 0;
  last_failure_time = 9;
  half_open_in_flight = pos 0;
}

abbrev probing : Breaker
probing = record opened { state = half_open }

two_failures_open : fail_all options (7 ∷ 9 ∷ []) create ≡ opened
unfolding fail_all record_failure create
two_failures_open = refl

-- A call begins, two others fail and open the circuit; after the timeout the state is read, and the
-- first call succeeds: the circuit is closed with no probe made.
late_success_run :
    (let started = (begin options 0 create).1 in
      let tripped = fail_all options (7 ∷ 9 ∷ []) started in
      let woken = (wake options 200 tripped).0 in (record_success options woken).0.state)
    ≡ closed
unfolding begin fail_all record_failure create wake record_success
late_success_run = refl

step-Follows_example : Follows closed (step options (fails 5) create)
unfolding create
step-Follows_example = step-Follows options (fails 5) create
