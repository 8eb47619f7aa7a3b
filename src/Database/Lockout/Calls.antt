-- ===== src/Database/Lockout/Calls.antt =====
-- Calls of the lockouts, in the database and in memory, and their answers.
use onlyapi.Base.{List, Option, Bool, String, [], has, true, ℕ, ◌∷◌, ◌≡◌, ◌≤◌}
use onlyapi.Database.Lockout.{is_row_locked, record_row, reset_row}
use onlyapi.Security.Lockout.{
  LockoutConfig, LockoutStore, is_locked, record_failed_attempt, reset_attempts,
}

-- The calls that a login makes for an account.
pub data Call : Type 0 where
  fails : Call
  resets : Call
  checks : Call

pub data Answer : Type 0 where
  reports : Bool → Answer
  done : Answer
  shows : Option ℕ → Answer

unfoldable pub step : LockoutConfig → Call → String → ℕ → LockoutStore → Answer × LockoutStore
step c fails email now m =
    let (held, m') = record_failed_attempt c email now m in (reports held, m')
step c resets email now m = (done, reset_attempts email m)
step c checks email now m = let (at, m') = is_locked email now m in (shows at, m')

unfoldable pub row_step : LockoutConfig → Call → String → ℕ → LockoutStore → Answer × LockoutStore
row_step c fails email now m = let (held, m') = record_row c email now m in (reports held, m')
row_step c resets email now m = (done, reset_row email m)
row_step c checks email now m = let (at, m') = is_row_locked email now m in (shows at, m')

-- The answers to calls, each with its account and its time.
unfoldable pub answers : LockoutConfig → List (Call × String × ℕ) → LockoutStore → List Answer
unfolding step
answers c [] m = []
answers c ((call, email, now) ∷ calls) m =
    let (a, m') = step c call email now m in a ∷ answers c calls m'

unfoldable pub row_answers : LockoutConfig → List (Call × String × ℕ) → LockoutStore → List Answer
unfolding row_step
row_answers c [] m = []
row_answers c ((call, email, now) ∷ calls) m =
    let (a, m') = row_step c call email now m in a ∷ row_answers c calls m'

-- The calls are on accounts with a row, and the clock does not go back.
unfoldable pub Fits : ℕ → LockoutStore → List (Call × String × ℕ) → Type 0
Fits now m [] = Unit
Fits now m ((call, email, t) ∷ calls) = (now ≤ t) × (has email m ≡ true) × Fits t m calls
