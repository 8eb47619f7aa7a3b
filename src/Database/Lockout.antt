-- ===== src/Database/Lockout.antt =====
-- src/infrastructure/database/sqlite-account-lockout.ts, on the columns failed_login_attempts and
-- locked_until of the rows of the table users, by email. Failures of the database are left out.
pub mod Agreement
pub mod Calls
pub mod Runs
mod Tests
use onlyapi.Base.{
  Bool, Option, String, false, get, if◌then◌else◌, leb, ltb, none, set, some, true, ℕ, ◌+◌,
}
use onlyapi.Security.Lockout.{LockoutConfig, LockoutEntry, LockoutStore, fresh}

-- `incrementStmt`, on a row
abbrev pub incremented : LockoutEntry → LockoutEntry
incremented row = record row { attempts = row.attempts + 1 }

-- `UPDATE users SET ... WHERE email = ?`: no row is added.
pub update_row : String → (LockoutEntry → LockoutEntry) → LockoutStore → LockoutStore
update_row email change m = elim (get email m) [ none ↦ m | some row ↦ set email (change row) m ]

-- The attempt on a row that is not locked.
pub count_row : LockoutConfig → String → ℕ → LockoutEntry → LockoutStore → Bool × LockoutStore
unfolding update_row
count_row c email now row m =
    let m' = update_row email incremented m in
    let new_count = row.attempts + 1 in
    let locked : LockoutEntry = record {
      attempts = new_count;
      locked_until = some (now + c.lockout_duration_ms);
    } in
    if leb c.max_attempts new_count then (true, update_row email (λ _. locked) m') else (false, m')

pub record_row : LockoutConfig → String → ℕ → LockoutStore → Bool × LockoutStore
unfolding count_row update_row
record_row c email now m = elim (get email m) [
  | none ↦ (false, m)
  | some row ↦ elim row.locked_until [
    | none ↦ count_row c email now row m
    | some t ↦
        if ltb now t
        then (true, m)
        else (false, update_row email incremented (update_row email (λ _. fresh) m))
  ]
]

pub reset_row : String → LockoutStore → LockoutStore
unfolding update_row
reset_row email m = update_row email (λ _. fresh) m

pub is_row_locked : String → ℕ → LockoutStore → Option ℕ × LockoutStore
unfolding reset_row
is_row_locked email now m = elim (get email m) [
  | none ↦ (none, m)
  | some row ↦ elim row.locked_until [
    | none ↦ (none, m)
    | some t ↦ if leb t now then (none, reset_row email m) else (some t, m)
  ]
]
