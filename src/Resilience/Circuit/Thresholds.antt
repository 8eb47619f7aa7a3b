-- ===== src/Resilience/Circuit/Thresholds.antt =====
-- The counters of the breaker against their thresholds.
use onlyapi.Base.{
  List, [], arith, if◌then◌else◌, leb, length, negsuc, pos, refl, suc, zero, ℕ, ◌++◌, ◌+◌, ◌<◌, ◌∷◌,
  ◌≡◌, IsAtMost,
}
use onlyapi.Resilience.Circuit.{
  Breaker, CircuitBreakerOptions, closed, create, half_open, open_circuit, record_failure,
  record_success, reset,
}

-- The counts never stand at a threshold that should have changed the state.
pub record IsSound (o : CircuitBreakerOptions) (s : Breaker) : Type 0 where
  pub failures_below : s.state ≡ closed → s.failures < o.failure_threshold
  pub successes_below : s.state ≡ half_open → s.successes < o.half_open_success_threshold
  pub probes_bounded : IsAtMost s.half_open_in_flight o.half_open_success_threshold

module _ (o : CircuitBreakerOptions) (some_failures : 0 < o.failure_threshold)
    (some_probes : 0 < o.half_open_success_threshold) where
  -- A new breaker is sound.
  pub create-IsSound : IsSound o create
  unfolding create
  create-IsSound = ground arith

  -- So does a reset.
  pub reset-IsSound : (s : Breaker) → IsSound o (reset s).0
  unfolding reset
  reset-IsSound s = ground arith

-- Failures that follow one another, at the listed times.
unfoldable pub fail_all : CircuitBreakerOptions → List ℕ → Breaker → Breaker
fail_all o [] s = s
fail_all o (t ∷ ts) s = fail_all o ts (record_failure o t s).0

fail_closed :
    (o : CircuitBreakerOptions) (t : ℕ) (s : Breaker)
    → s.state ≡ closed
    → ((record_failure o t s).0.failures ≡ s.failures + 1)
      × ((record_failure o t s).0.last_failure_time ≡ t)
      × ((record_failure o t s).0.state
          ≡ (if leb o.failure_threshold (s.failures + 1) then open_circuit else closed))
unfolding record_failure
fail_closed o t s h = ground arith

-- A closed breaker stays closed under fewer failures in a row than its threshold leaves.
pub fail_all_closed :
    (o : CircuitBreakerOptions) (ts : List ℕ) (s : Breaker)
    → s.state ≡ closed
    → s.failures + length ts < o.failure_threshold
    → ((fail_all o ts s).state ≡ closed) × ((fail_all o ts s).failures ≡ s.failures + length ts)
unfolding fail_all
fail_all_closed o [] s h lt = (h, omega arith)
fail_all_closed o (t ∷ ts) s h lt =
    let (f, l, c) = fail_closed o t s h in
    let c' : (record_failure o t s).0.state ≡ closed = ground arith in
    let (a, b) = fail_all_closed o ts (record_failure o t s).0 c' (omega arith) in (a, omega arith)

fail_all-append :
    (o : CircuitBreakerOptions) (ts us : List ℕ) (s : Breaker)
    → fail_all o (ts ++ us) s ≡ fail_all o us (fail_all o ts s)
unfolding fail_all
fail_all-append o [] us s = refl
fail_all-append o (t ∷ ts) us s = fail_all-append o ts us _

-- The failure in a row that reaches the threshold opens the breaker, and its time is remembered.
pub fail_all_opens :
    (o : CircuitBreakerOptions) (ts : List ℕ) (t : ℕ) (s : Breaker)
    → s.state ≡ closed
    → s.failures + length ts + 1 ≡ o.failure_threshold
    → let s' = fail_all o (ts ++ t ∷ []) s in (s'.state ≡ open_circuit) × (s'.last_failure_time ≡ t)
unfolding fail_all
fail_all_opens o ts t s h eq =
    let (c, n) = fail_all_closed o ts s h (omega arith) in
    let (f, l, st) = fail_closed o t (fail_all o ts s) c in
    rw (fail_all-append o ts (t ∷ []) s) (ground arith, l)

-- A success of a closed breaker starts the count of failures again.
pub success_closed :
    (o : CircuitBreakerOptions) (s : Breaker)
    → s.state ≡ closed
    → record_success o s ≡ (record s { failures = 0 }, [])
unfolding record_success
success_closed o s h = ground arith

-- Successes that follow one another.
pub succeed_all : CircuitBreakerOptions → ℕ → Breaker → Breaker
succeed_all o zero s = s
succeed_all o (suc n) s = succeed_all o n (record_success o s).0

success_half_open :
    (o : CircuitBreakerOptions) (s : Breaker)
    → s.state ≡ half_open
    → s.successes + 1 < o.half_open_success_threshold
    → ((record_success o s).0.state ≡ half_open)
      × ((record_success o s).0.successes ≡ s.successes + 1)
unfolding record_success
success_half_open o s h lt = ground arith

succeed_all_half_open :
    (o : CircuitBreakerOptions) (n : ℕ) (s : Breaker)
    → s.state ≡ half_open
    → s.successes + n < o.half_open_success_threshold
    → ((succeed_all o n s).state ≡ half_open) × ((succeed_all o n s).successes ≡ s.successes + n)
unfolding succeed_all
succeed_all_half_open o zero s h lt = (h, omega arith)
succeed_all_half_open o (suc n) s h lt =
    let (a, b) = success_half_open o s h (omega arith) in
    let (c, d) = succeed_all_half_open o n (record_success o s).0 a (omega arith) in
    (c, omega arith)

-- A half-open breaker closes with the success that reaches its threshold, with clear counters, and
-- not with the one before.
pub succeed_all_recovers :
    (o : CircuitBreakerOptions) (n : ℕ) (s : Breaker)
    → s.state ≡ half_open
    → s.successes + n + 1 ≡ o.half_open_success_threshold
    → let before = succeed_all o n s in
      let (after, changes) = record_success o before in
      (before.state ≡ half_open)
      × (after.state ≡ closed)
      × (after.failures ≡ 0)
      × (after.successes ≡ 0)
      × (changes ≡ (half_open, closed) ∷ [])
unfolding record_success
succeed_all_recovers o n s h eq =
    let (a, b) = succeed_all_half_open o n s h (omega arith) in ground arith

-- The counters do not know which call a success belongs to: where the threshold is one, a call that
-- was made before the circuit opened closes it again by its success, though no probe was made, and
-- the count of probes falls below 0.
late_success_closes :
    (o : CircuitBreakerOptions) (s : Breaker)
    → s.state ≡ half_open
    → o.half_open_success_threshold ≡ 1
    → s.half_open_in_flight ≡ pos 0
    → let (s', changes) = record_success o s in
      (s'.state ≡ closed)
      × (s'.half_open_in_flight ≡ negsuc 0)
      × (changes ≡ (half_open, closed) ∷ [])
unfolding record_success
late_success_closes o s h one none_made = ground arith
