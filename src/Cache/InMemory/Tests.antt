-- ===== src/Cache/InMemory/Tests.antt =====
-- Runs of the cache, and its theorems at a concrete one.
use onlyapi.Base.{
  [], get, refl, set, some, ℕ, ◌+◌, ◌∷◌, ◌≡◌, List, false, none, arith, some_inj, subst,
}
use onlyapi.Cache.InMemory.{Cache, incr, CacheEntry, exists, fetch, is_expired}
use onlyapi.Cache.InMemory.Calls.{Call, Fits, expected, gets, incremented, incrs, run, sets}
use onlyapi.Cache.InMemory.Runs.{run-expected}
use onlyapi.Cache.InMemory.Laws.{alive, is_some}

abbrev counters : Cache ℕ
counters =
    ("live", record { value = 4; expires_at = some 50 })
    ∷ ("over", record { value = 9; expires_at = some 10 })
    ∷ []

incr_over : incr ◌+◌ "over" 1 20 counters ≡ (
  1,
  ("live", record { value = 4; expires_at = some 50 })
      ∷ ("over", record { value = 1; expires_at = some 10 })
      ∷ [],
)
unfolding incr get set
incr_over = refl

-- The last call first: a read after the end of "a", an increment of "b", which never ends.
abbrev calls : List (ℕ × Call ℕ)
calls = (60, gets "a") ∷ (30, incrs "b" 5) ∷ (20, sets "b" 1 none) ∷ (10, sets "a" 7 (some 40)) ∷ []

calls-Fits : Fits ◌+◌ 70 calls
unfolding Fits expected is_expired incremented
calls-Fits = (
  omega arith,
  (
    omega arith,
    (λ e h. subst (λ x. is_expired 30 x ≡ false) (some_inj h) refl),
    (omega arith, (omega arith, tt)),
  ),
)

run-expected_example :
    let want = expected ◌+◌ calls "b" in
    ((fetch "b" 70 (run ◌+◌ calls)).0 ≡ alive 70 want)
    × ((exists "b" 70 (run ◌+◌ calls)).0 ≡ is_some (alive 70 want))
    × ((delta : ℕ)
        → ((e : CacheEntry ℕ) → want ≡ some e → is_expired 70 e ≡ false)
        → (incr ◌+◌ "b" delta 70 (run ◌+◌ calls)).0 ≡ (incremented ◌+◌ delta want).value)
run-expected_example = run-expected ◌+◌ 70 calls "b" calls-Fits
