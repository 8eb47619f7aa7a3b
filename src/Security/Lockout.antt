-- ===== src/Security/Lockout.antt =====
-- src/infrastructure/security/account-lockout.ts. An operation does not wait, so it reads the clock
-- once: `now`, in milliseconds.
pub mod Refinement
pub mod Runs
mod Tests
use onlyapi.Base.{
  ℕ, ◌+◌, ◌*◌, ◌≡◌, String, Bool, true, false, Option, none, some, Map, get, set, delete, leb, ltb,
  if◌then◌else◌,
}

pub record LockoutEntry : Type 0 where
  pub attempts : ℕ
  pub locked_until : Option ℕ

pub record LockoutConfig : Type 0 where
  pub max_attempts : ℕ
  pub lockout_duration_ms : ℕ

abbrev pub LockoutStore : Type 0
LockoutStore = Map LockoutEntry

abbrev pub default_config : LockoutConfig
default_config = record { max_attempts = 5; lockout_duration_ms = 15 * 60 * 1000 }

-- `entry.lockedUntil !== null && entry.lockedUntil > Date.now()`
is_held : LockoutEntry → ℕ → Bool
is_held e now = elim e.locked_until [ none ↦ false | some t ↦ ltb now t ]

-- `entry.lockedUntil !== null && entry.lockedUntil <= Date.now()`
is_over : LockoutEntry → ℕ → Bool
is_over e now = elim e.locked_until [ none ↦ false | some t ↦ leb t now ]

abbrev pub fresh : LockoutEntry
fresh = record { attempts = 0; locked_until = none }

-- `entry.attempts++`, and the lock when that reaches the limit.
count_failure : LockoutConfig → String → ℕ → LockoutEntry → LockoutStore → Bool × LockoutStore
count_failure c email now e m =
    let e' = record e { attempts = e.attempts + 1 } in
    if leb c.max_attempts e'.attempts
    then (true, set email (record e' { locked_until = some (now + c.lockout_duration_ms) }) m)
    else (false, set email e' m)

fail_entry : LockoutConfig → String → ℕ → LockoutEntry → LockoutStore → Bool × LockoutStore
unfolding is_held is_over count_failure
fail_entry c email now e m =
    if is_held e now
    then (true, m)
    else count_failure c email now (if is_over e now then fresh else e) m

pub record_failed_attempt : LockoutConfig → String → ℕ → LockoutStore → Bool × LockoutStore
unfolding fail_entry
record_failed_attempt c email now m = elim (get email m) [
  | none ↦ fail_entry c email now fresh (set email fresh m)
  | some e ↦ fail_entry c email now e m
]

unfoldable pub reset_attempts : String → LockoutStore → LockoutStore
reset_attempts email m = delete email m

unfoldable pub is_locked : String → ℕ → LockoutStore → Option ℕ × LockoutStore
is_locked email now m = elim (get email m) [
  | none ↦ (none, m)
  | some e ↦ elim e.locked_until [
    | none ↦ (none, m)
    | some t ↦ if leb t now then (none, set email fresh m) else (some t, m)
  ]
]
