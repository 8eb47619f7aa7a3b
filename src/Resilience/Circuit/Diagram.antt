-- ===== src/Resilience/Circuit/Diagram.antt =====
-- The state diagram of the breaker, and the guard of an open circuit.
use onlyapi.Base.{[], ℕ, ◌∷◌, ◌≡◌, ◌⊎◌, arith, false, if◌then◌else◌, ltb, pos, true, ◌+◌, ◌<◌}
use onlyapi.Resilience.Circuit.{
  Breaker, Changes, CircuitBreakerOptions, CircuitState, begin, closed, half_open, open_circuit,
  record_failure, record_success, wake,
}

-- The diagram at the head of the source.
pub data Edge : CircuitState → CircuitState → Type 0 where
  trip : Edge closed open_circuit
  wait_over : Edge open_circuit half_open
  recover : Edge half_open closed
  relapse : Edge half_open open_circuit

-- What happens to a breaker while calls come and go. `reset` is not among it.
pub data Event : Type 0 where
  begins : ℕ → Event
  succeeds : Event
  fails : ℕ → Event
  reads : ℕ → Event

unfoldable pub step : CircuitBreakerOptions → Event → Breaker → Breaker × Changes
step o (begins now) s = let (made, s', changes) = begin o now s in (s', changes)
step o succeeds s = record_success o s
step o (fails now) s = record_failure o now s
step o (reads now) s = wake o now s

-- Either nothing changes, or one edge of the diagram is taken; `onStateChange` is told exactly that.
abbrev pub Follows : CircuitState → Breaker × Changes → Type 0
Follows from r =
    ((r.0.state ≡ from) × (r.1 ≡ [])) ⊎ ((r.1 ≡ (from, r.0.state) ∷ []) × Edge from r.0.state)

-- Every event takes the breaker along one edge of the diagram or leaves its state, and reports so.
pub step-Follows :
    (o : CircuitBreakerOptions) (e : Event) (s : Breaker) → Follows s.state (step o e s)
unfolding step begin record_success record_failure wake
step-Follows o (begins now) s = grind (arith, trip, wait_over, recover, relapse)
step-Follows o succeeds s = grind (arith, trip, wait_over, recover, relapse)
step-Follows o (fails now) s = grind (arith, trip, wait_over, recover, relapse)
step-Follows o (reads now) s = grind (arith, trip, wait_over, recover, relapse)

-- An open circuit refuses every call until the timeout has passed since the last failure, and the
-- refusal changes nothing; from then on it makes the call, as the first probe of a half-open one.
pub begin_open :
    (o : CircuitBreakerOptions) (now : ℕ) (s : Breaker)
    → s.state ≡ open_circuit
    → 0 < o.half_open_success_threshold
    → begin o now s ≡ (
        if ltb now (s.last_failure_time + o.reset_timeout_ms) then (false, s, []) else (
          true,
          record s { state = half_open; successes = 0; half_open_in_flight = pos 1 },
          (open_circuit, half_open) ∷ [],
        ))
unfolding begin
begin_open o now s h some_probes = ground arith
