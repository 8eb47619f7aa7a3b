-- ===== src/Database/Lockout/Tests.antt =====
-- The lockout in the database at a concrete table.
use onlyapi.Base.{
  [], arith, get, none, refl, ◌∷◌, ◌≡◌, List, String, false, has, set, some, true, ℕ,
}
use onlyapi.Database.Lockout.{record_row, count_row, is_row_locked, reset_row, update_row}
use onlyapi.Database.Lockout.Agreement.{record_row-agrees}
use onlyapi.Security.Lockout.{LockoutEntry, LockoutStore, default_config}
use onlyapi.Security.Lockout.Refinement.{fail_status, status}
use onlyapi.Database.Lockout.Calls.{
  Call, Fits, answers, checks, done, fails, reports, resets, row_answers, row_step, shows,
}
use onlyapi.Database.Lockout.Runs.{row_answers-answers}

abbrev four_failures : LockoutEntry
four_failures = record { attempts = 4; locked_until = none }

abbrev rows : LockoutStore
rows = ("ann@x.org", four_failures) ∷ []

one_failure_agrees :
    let (held, m') = record_row default_config "ann@x.org" 1000 rows in
    (held ≡ (fail_status default_config 1000 (status "ann@x.org" 1000 rows)).0)
    × (status "ann@x.org" 1000 m'
        ≡ (fail_status default_config 1000 (status "ann@x.org" 1000 rows)).1)
unfolding get
one_failure_agrees =
    record_row-agrees default_config "ann@x.org" 1000 rows four_failures (omega arith) (omega arith)
      refl

-- Fails, a check while the lock holds, one after it, and a reset.
abbrev calls : List (Call × String × ℕ)
calls =
    (fails, "ann@x.org", 1000)
    ∷ (checks, "ann@x.org", 2000)
    ∷ (checks, "ann@x.org", 901000)
    ∷ (fails, "ann@x.org", 901001)
    ∷ (resets, "ann@x.org", 901002)
    ∷ []

same_statuses : (j : String) → status j 0 rows ≡ status j 0 rows
same_statuses j = refl

row_answers-answers_example :
    row_answers default_config calls rows ≡ answers default_config calls rows
unfolding has get Fits
row_answers-answers_example =
    row_answers-answers default_config calls 0 rows rows (omega arith) (omega arith)
      (
        omega arith,
        refl,
        (omega arith, refl, (omega arith, refl, (omega arith, refl, (omega arith, refl, tt)))),
      )
      same_statuses

-- Locked until a time, and free after it.
locked_then_free :
    row_answers default_config calls rows
    ≡ reports true ∷ shows (some 901000) ∷ shows none ∷ reports false ∷ done ∷ []
unfolding row_answers row_step record_row count_row is_row_locked reset_row update_row get set
locked_then_free = refl
