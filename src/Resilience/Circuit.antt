-- ===== src/Resilience/Circuit.antt =====
-- src/infrastructure/resilience/circuit-breaker.ts. `execute` waits for the call that it guards, so
-- it is two steps: `begin` up to the call, and `record_success` or `record_failure` after it.
-- Each returns, beside the new state, the state changes that `onStateChange` is told of.
pub mod Diagram
pub mod Thresholds
mod Tests
use onlyapi.Base.{
  Bool, List, [], at_least, decrement, false, if◌then◌else◌, increment, leb, pos, true, ℕ, ℤ, ◌+◌,
  ◌∷◌,
}

pub data CircuitState : Type 0 where
  closed open_circuit half_open : CircuitState

pub record CircuitBreakerOptions : Type 0 where
  pub failure_threshold : ℕ
  pub reset_timeout_ms : ℕ
  pub half_open_success_threshold : ℕ

pub record Breaker : Type 0 where
  pub state : CircuitState
  pub failures : ℕ
  pub successes : ℕ
  pub last_failure_time : ℕ
  pub half_open_in_flight : ℤ

abbrev pub Changes : Type 0
Changes = List (CircuitState × CircuitState)

pub create : Breaker
create = record {
  state = closed;
  failures = 0;
  successes = 0;
  last_failure_time = 0;
  half_open_in_flight = pos 0;
}

-- `state === to`
abbrev same : CircuitState → CircuitState → Bool
same closed closed = true
same open_circuit open_circuit = true
same half_open half_open = true
same _ _ = false

transition : CircuitState → Breaker → Breaker × Changes
transition to s = if same s.state to then (s, []) else (record s { state = to }, (s.state, to) ∷ [])

success_in : CircuitState → CircuitBreakerOptions → Breaker → Breaker × Changes
unfolding transition
success_in half_open o s =
    let n = s.successes + 1 in
    let s' = record s { successes = n; half_open_in_flight = decrement s.half_open_in_flight } in
    if leb o.half_open_success_threshold n
    then transition closed (record s' { failures = 0; successes = 0 })
    else (s', [])
success_in _ o s = (record s { failures = 0 }, [])

pub record_success : CircuitBreakerOptions → Breaker → Breaker × Changes
unfolding success_in
record_success o s = success_in s.state o s

failure_in : CircuitState → CircuitBreakerOptions → Breaker → Breaker × Changes
unfolding transition
failure_in half_open o s =
    transition open_circuit
      (record s { half_open_in_flight = decrement s.half_open_in_flight; successes = 0 })
failure_in _ o s = if leb o.failure_threshold s.failures then transition open_circuit s else (s, [])

pub record_failure : CircuitBreakerOptions → ℕ → Breaker → Breaker × Changes
unfolding failure_in
record_failure o now s =
    let s' = record s { failures = s.failures + 1; last_failure_time = now } in
    failure_in s.state o s'

-- The check that `state` and `execute` begin with: OPEN becomes HALF_OPEN after the timeout.
wake_in : CircuitState → CircuitBreakerOptions → ℕ → Breaker → Breaker × Changes
unfolding transition
wake_in open_circuit o now s =
    if leb (s.last_failure_time + o.reset_timeout_ms) now
    then transition half_open (record s { successes = 0; half_open_in_flight = pos 0 })
    else (s, [])
wake_in _ o now s = (s, [])

pub wake : CircuitBreakerOptions → ℕ → Breaker → Breaker × Changes
unfolding wake_in
wake o now s = wake_in s.state o now s

-- The guard of `execute` after that check: is the call made?
admit_in : CircuitState → CircuitBreakerOptions → Breaker → Bool × Breaker
admit_in closed o s = (true, s)
admit_in open_circuit o s = (false, s)
admit_in half_open o s =
    if at_least s.half_open_in_flight o.half_open_success_threshold
    then (false, s)
    else (true, record s { half_open_in_flight = increment s.half_open_in_flight })

pub begin : CircuitBreakerOptions → ℕ → Breaker → Bool × Breaker × Changes
unfolding wake admit_in
begin o now s =
    let (s', changes) = wake o now s in
    let (made, s'') = admit_in s'.state o s' in (made, s'', changes)

pub reset : Breaker → Breaker × Changes
unfolding transition
reset s = transition closed (record s { failures = 0; successes = 0; half_open_in_flight = pos 0 })
