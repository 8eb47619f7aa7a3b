-- ===== src/Security/Lockout/Runs.antt =====
-- Runs of failed logins on one account: when they lock it, and for how long.
use onlyapi.Base.{
  List, Option, Option-cases, String, [], arith, get, get-set_self, if◌then◌else◌, inl, inr, leb,
  length, ltb, none, refl, some, subst, sym, ℕ, ◌++◌, ◌+◌, ◌<◌, ◌∷◌, ◌≡◌,
}
use onlyapi.Security.Lockout.{
  LockoutConfig, LockoutEntry, LockoutStore, fresh, is_locked, record_failed_attempt,
}
use onlyapi.Security.Lockout.{fail_entry}

-- Failed logins at the listed times.
pub fail_all : LockoutConfig → String → List ℕ → LockoutStore → LockoutStore
fail_all c email [] m = m
fail_all c email (t ∷ ts) m = fail_all c email ts (record_failed_attempt c email t m).1

-- The entry of an account with `n` failures and no lock.
abbrev IsOpen : ℕ → Option LockoutEntry → Type 0
IsOpen n none = n ≡ 0
IsOpen n (some e) = (e.attempts ≡ n) × (e.locked_until ≡ none)

-- The entry that a failure leaves where no lock is held.
abbrev failed : LockoutConfig → ℕ → ℕ → LockoutEntry
failed c t n =
    if leb c.max_attempts (n + 1)
    then record { attempts = n + 1; locked_until = some (t + c.lockout_duration_ms) }
    else record { attempts = n + 1; locked_until = none }

fail_entry-failed :
    (c : LockoutConfig) (email : String) (t : ℕ) (e : LockoutEntry) (m : LockoutStore)
    → e.locked_until ≡ none
    → get email (fail_entry c email t e m).1 ≡ some (failed c t e.attempts)
unfolding fail_entry
fail_entry-failed c email t e m o = grind (arith, get-set_self)

record_failed_attempt-failed :
    (c : LockoutConfig) (email : String) (t n : ℕ) (m : LockoutStore)
    → IsOpen n (get email m)
    → get email (record_failed_attempt c email t m).1 ≡ some (failed c t n)
unfolding record_failed_attempt
record_failed_attempt-failed c email t n m o = elim (Option-cases (get email m)) [
  | inl e ↦
      let z : n ≡ 0 = subst (IsOpen n) e o in
      rw (e, record_failed_attempt, z) (fail_entry-failed c email t fresh _ refl)
  | inr (x, h) ↦
      let z : IsOpen n (some x) = subst (IsOpen n) h o in
      rw (h, record_failed_attempt, ← z.0) (fail_entry-failed c email t x m z.1)
]

fail-IsOpen :
    (c : LockoutConfig) (email : String) (t n : ℕ) (m : LockoutStore)
    → IsOpen n (get email m)
    → n + 1 < c.max_attempts
    → IsOpen (n + 1) (get email (record_failed_attempt c email t m).1)
fail-IsOpen c email t n m o lt =
    let f : failed c t n ≡ record { attempts = n + 1; locked_until = none } = ground arith in
    rw (record_failed_attempt-failed c email t n m o, f) (refl, refl)

fail_last :
    (c : LockoutConfig) (email : String) (t n : ℕ) (m : LockoutStore)
    → IsOpen n (get email m)
    → n + 1 ≡ c.max_attempts
    → get email (record_failed_attempt c email t m).1
      ≡ some (record { attempts = c.max_attempts; locked_until = some (t + c.lockout_duration_ms) })
fail_last c email t n m o eq = ground (arith, record_failed_attempt-failed c email t n m o)

fail_all-IsOpen :
    (c : LockoutConfig) (email : String) (ts : List ℕ) (n : ℕ) (m : LockoutStore)
    → IsOpen n (get email m)
    → n + length ts < c.max_attempts
    → IsOpen (n + length ts) (get email (fail_all c email ts m))
unfolding fail_all
fail_all-IsOpen c email [] n m o lt = subst (λ k. IsOpen k (get email m)) (omega arith) o
fail_all-IsOpen c email (t ∷ ts) n m o lt =
    subst (λ k. IsOpen k (get email (fail_all c email (t ∷ ts) m))) (omega arith)
      (fail_all-IsOpen c email ts (n + 1) _ (fail-IsOpen c email t n m o (omega arith))
        (omega arith))

fail_all-append :
    (c : LockoutConfig) (email : String) (ts us : List ℕ) (m : LockoutStore)
    → fail_all c email (ts ++ us) m ≡ fail_all c email us (fail_all c email ts m)
unfolding fail_all
fail_all-append c email [] us m = refl
fail_all-append c email (t ∷ ts) us m = fail_all-append c email ts us _

open_unlocked :
    (email : String) (later n : ℕ) (m : LockoutStore)
    → IsOpen n (get email m)
    → (is_locked email later m).0 ≡ none
unfolding is_locked
open_unlocked email later n m o = ground arith

-- Fewer failures than the limit, at any times, leave a new account open.
pub few_failures_open :
    (c : LockoutConfig) (email : String) (ts : List ℕ) (later : ℕ) (m : LockoutStore)
    → get email m ≡ none
    → length ts < c.max_attempts
    → (is_locked email later (fail_all c email ts m)).0 ≡ none
few_failures_open c email ts later m new lt =
    open_unlocked email later (0 + length ts) (fail_all c email ts m)
      (fail_all-IsOpen c email ts 0 m (subst (IsOpen 0) (sym new) refl) (omega arith))

-- As many failures as the limit lock it, from the last one on and for the configured time exactly.
pub max_failures_lock :
    (c : LockoutConfig) (email : String) (ts : List ℕ) (t later : ℕ) (m : LockoutStore)
    → get email m ≡ none
    → length ts + 1 ≡ c.max_attempts
    → (is_locked email later (fail_all c email (ts ++ t ∷ []) m)).0
      ≡ (if ltb later (t + c.lockout_duration_ms) then some (t + c.lockout_duration_ms) else none)
unfolding is_locked fail_all
max_failures_lock c email ts t later m new eq =
    let before = fail_all c email ts m in
    let o = fail_all-IsOpen c email ts 0 m (subst (IsOpen 0) (sym new) refl) (omega arith) in
    rw (fail_all-append c email ts (t ∷ []) m)
      (ground (arith, fail_last c email t (0 + length ts) before o (omega arith)))
