-- ===== src/Security/Lockout/Refinement.antt =====
-- What the lockout tracker promises for one account, and that the store of entries does it.
use onlyapi.Base.{
  Bool, Option, Option-cases, String, arith, eq_iff, false, get, get-delete_ne, get-delete_self,
  get-set, get-set_ne, get-set_self, if◌then◌else◌, inl, inr, leb, none, some, true, ℕ, ◌+◌, ◌<◌,
  ◌∙◌, ◌≡◌, ◌≢◌, ◌≤◌,
}
use onlyapi.Security.Lockout.{
  LockoutConfig, LockoutEntry, LockoutStore, fresh, is_locked, record_failed_attempt,
  reset_attempts,
}
use onlyapi.Security.Lockout.{fail_entry}

-- An account counts its failures, or is locked until a time.
pub data Status : Type 0 where
  counting : ℕ → Status
  locked : ℕ → Status

-- A lock that is over counts from 0 again.
abbrev pub expire : ℕ → ℕ → Status
expire t now = if leb t now then counting 0 else locked t

abbrev entry_status : LockoutEntry → ℕ → Status
entry_status e now = elim e.locked_until [ none ↦ counting e.attempts | some t ↦ expire t now ]

-- The status of an account at a time.
unfoldable pub status : String → ℕ → LockoutStore → Status
status email now m = elim (get email m) [ none ↦ counting 0 | some e ↦ entry_status e now ]

-- The promise: a failure counts, the one that reaches the limit locks, and a lock is not extended.
unfoldable pub fail_status : LockoutConfig → ℕ → Status → Bool × Status
fail_status c now (counting n) =
    if leb c.max_attempts (n + 1)
    then (true, locked (now + c.lockout_duration_ms))
    else (false, counting (n + 1))
fail_status c now (locked t) = (true, locked t)

abbrev pub locked_at : Status → Option ℕ
locked_at (counting n) = none
locked_at (locked t) = some t

fail_entry-status :
    (c : LockoutConfig) (email : String) (now : ℕ) (e : LockoutEntry) (m : LockoutStore)
    → 0 < c.lockout_duration_ms
    → get email m ≡ some e
    → let (held, m') = fail_entry c email now e m in
      (held ≡ (fail_status c now (entry_status e now)).0)
      × (status email now m' ≡ (fail_status c now (entry_status e now)).1)
unfolding fail_entry fail_status status
fail_entry-status c email now e m pos h = ground (
  arith,
  get-set_self email (record { attempts = e.attempts + 1; locked_until = e.locked_until }) m,
  get-set_self email (record { attempts = 1; locked_until = none }) m,
  get-set_self email
      (record { attempts = e.attempts + 1; locked_until = some (now + c.lockout_duration_ms) }) m,
  get-set_self email (record { attempts = 1; locked_until = some (now + c.lockout_duration_ms) }) m,
)

fail_entry-others :
    (c : LockoutConfig) (email j : String) (now : ℕ) (e : LockoutEntry) (m : LockoutStore)
    → j ≢ email
    → get j (fail_entry c email now e m).1 ≡ get j m
unfolding fail_entry
fail_entry-others c email j now e m ne = grind (arith, get-set_ne)

-- A failed login counts or locks as promised, reports it, and touches no other account.
pub record_failed_attempt-refines :
    (c : LockoutConfig) (email : String) (now : ℕ) (m : LockoutStore)
    → 0 < c.lockout_duration_ms
    → let (held, m') = record_failed_attempt c email now m in
      (held ≡ (fail_status c now (status email now m)).0)
      × (status email now m' ≡ (fail_status c now (status email now m)).1)
      × ((j : String) → j ≢ email → get j m' ≡ get j m)
unfolding record_failed_attempt status
record_failed_attempt-refines c email now m pos = elim (Option-cases (get email m)) [
  | inl e ↦
      let (a, b) = fail_entry-status c email now fresh _ pos (get-set_self email fresh m) in
      rw (e, record_failed_attempt, status)
        (a, b, λ j ne. fail_entry-others c email j now fresh _ ne ∙ get-set_ne email j fresh m ne)
  | inr (e, h) ↦
      let (a, b) = fail_entry-status c email now e m pos h in
      rw (h, record_failed_attempt, status) (a, b, λ j ne. fail_entry-others c email j now e m ne)
]

-- The check reports the lock of the status, and changes no status at this time or later.
pub is_locked-refines :
    (email : String) (now : ℕ) (m : LockoutStore)
    → let (at, m') = is_locked email now m in
      (at ≡ locked_at (status email now m))
      × ((j : String) (t : ℕ) → now ≤ t → status j t m' ≡ status j t m)
unfolding is_locked status
is_locked-refines email now m =
    (ground arith, λ j t le. ground (arith, get-set j email fresh m, eq_iff email j))

-- A successful login forgets the failures of its account alone.
pub reset_attempts-refines :
    (email : String) (now : ℕ) (m : LockoutStore)
    → (status email now (reset_attempts email m) ≡ counting 0)
      × ((j : String) → j ≢ email → get j (reset_attempts email m) ≡ get j m)
unfolding reset_attempts status
reset_attempts-refines email now m =
    (rw (get-delete_self, status), λ j ne. get-delete_ne email j m ne)
