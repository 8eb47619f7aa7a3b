-- ===== src/Database/Lockout/Agreement.antt =====
-- For the accounts that exist, the lockout in the database keeps the promise of the one in memory.
use onlyapi.Base.{
  ◌≤◌, str_eq_self, str_eq, String, arith, get, get-set, if◌then◌else◌, some, ℕ, ◌+◌, ◌<◌, ◌≡◌, ◌∙◌,
  str_eq, eq_iff, get-set_ne, ◌≢◌,
}
use onlyapi.Database.Lockout.{
  count_row, incremented, record_row, update_row, is_row_locked, reset_row,
}
use onlyapi.Security.Lockout.{LockoutConfig, LockoutEntry, LockoutStore, fresh}
use onlyapi.Security.Lockout.Refinement.{fail_status, status, locked_at}

pub get-update_row :
    (email j : String) (change : LockoutEntry → LockoutEntry) (m : LockoutStore)
    (row : LockoutEntry)
    → get email m ≡ some row
    → get j (update_row email change m) ≡ (if str_eq email j then some (change row) else get j m)
unfolding update_row
get-update_row email j change m row g = ground (arith, get-set j email (change row) m)

get-update_row_self :
    (email : String) (change : LockoutEntry → LockoutEntry) (m : LockoutStore) (row : LockoutEntry)
    → get email m ≡ some row
    → get email (update_row email change m) ≡ some (change row)
get-update_row_self email change m row g =
    get-update_row email email change m row g ∙ rw (str_eq_self email)

-- A second update of a row sees the first.
get-update_row_twice :
    (email : String) (change again : LockoutEntry → LockoutEntry) (m : LockoutStore)
    (row : LockoutEntry)
    → get email m ≡ some row
    → get email (update_row email again (update_row email change m)) ≡ some (again (change row))
get-update_row_twice email change again m row g =
    get-update_row_self email again (update_row email change m) (change row)
      (get-update_row_self email change m row g)

pub update_row-others :
    (email j : String) (change : LockoutEntry → LockoutEntry) (m : LockoutStore)
    → j ≢ email
    → get j (update_row email change m) ≡ get j m
unfolding update_row
update_row-others email j change m ne = grind (arith, get-set_ne)

-- A failed attempt touches the row of its account only.
pub record_row-others :
    (c : LockoutConfig) (email j : String) (now : ℕ) (m : LockoutStore)
    → j ≢ email
    → get j (record_row c email now m).1 ≡ get j m
unfolding record_row count_row
record_row-others c email j now m ne = grind (arith, get-set, eq_iff email j)

-- A failed attempt changes the status of a known account as the abstract status says, where more than
-- one failure is allowed and the lock time is positive.
pub record_row-agrees :
    (c : LockoutConfig) (email : String) (now : ℕ) (m : LockoutStore) (row : LockoutEntry)
    → 0 < c.lockout_duration_ms
    → 1 < c.max_attempts
    → get email m ≡ some row
    → let (held, m') = record_row c email now m in
      (held ≡ (fail_status c now (status email now m)).0)
      × (status email now m' ≡ (fail_status c now (status email now m)).1)
unfolding record_row count_row fail_status status
record_row-agrees c email now m row d more g =
    let once = get-update_row_self email incremented m row g in
    ground (
      arith,
      once,
      get-update_row_twice email incremented
          (λ _. record {
            attempts = row.attempts + 1;
            locked_until = some (now + c.lockout_duration_ms);
          })
          m row g,
      get-update_row_twice email (λ _. fresh) incremented m row g,
    )

-- The check reports the lock of the status, and changes no status at this time or later.
pub is_row_locked-agrees :
    (email : String) (now : ℕ) (m : LockoutStore)
    → let (at, m') = is_row_locked email now m in
      (at ≡ locked_at (status email now m))
      × ((j : String) (t : ℕ) → now ≤ t → status j t m' ≡ status j t m)
unfolding is_row_locked reset_row update_row status
is_row_locked-agrees email now m =
    (ground arith, λ j t le. ground (arith, get-set j email fresh m, eq_iff email j))
