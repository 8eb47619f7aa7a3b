-- ===== src/Presentation/RateLimit.antt =====
-- src/presentation/middleware/rate-limit.ts: a fixed window for each key. A check does not wait, so
-- it reads the clock once, `now`. The module's two variables are one record.
pub mod Windows
mod Tests
use onlyapi.Base.{
  Bool, Map, Option, String, [], get, if◌then◌else◌, keep_if, leb, ltb, none, not, set, some, ℕ,
  ◌+◌, ◌-◌,
}
use onlyapi.Core.Errors.{app_error, rate_limited}
use onlyapi.Core.Results.{Outcome, err, ok}

pub record RateLimitEntry : Type 0 where
  pub count : ℕ
  pub reset_at : ℕ

-- `config.rateLimit`
pub record RateLimitConfig : Type 0 where
  pub window_ms : ℕ
  pub max_requests : ℕ

pub record Limiter : Type 0 where
  pub store : Map RateLimitEntry
  pub last_prune : ℕ

pub record RateLimitResult : Type 0 where
  pub remaining : ℕ
  pub reset_at : ℕ

abbrev pub is_current : ℕ → String → RateLimitEntry → Bool
is_current now key e = not (leb e.reset_at now)

-- Prune at most once a minute.
unfoldable pub prune : ℕ → Limiter → Limiter
prune now s =
    if ltb now (s.last_prune + 60000)
    then s
    else record { store = keep_if (is_current now) s.store; last_prune = now }

unfoldable pub new_window : RateLimitConfig → ℕ → RateLimitEntry
new_window c now = record { count = 0; reset_at = now + c.window_ms }

-- The entry that the check counts in: the stored one, or a new window.
unfoldable pub current_entry : RateLimitConfig → ℕ → Option RateLimitEntry → RateLimitEntry
unfolding new_window
current_entry c now none = new_window c now
current_entry c now (some e) = if leb e.reset_at now then new_window c now else e

-- `entry.count++` on the stored object, and the verdict.
unfoldable pub admit :
    RateLimitConfig → String → RateLimitEntry → Limiter → Outcome RateLimitResult × Limiter
admit c key e s =
    let n = e.count + 1 in
    let s' = record s { store = set key (record e { count = n }) s.store } in
    if ltb c.max_requests n
    then (err (app_error rate_limited "Too many requests"), s')
    else (ok (record { remaining = c.max_requests - n; reset_at = e.reset_at }), s')

unfoldable pub check_rate_limit :
    RateLimitConfig → String → ℕ → Limiter → Outcome RateLimitResult × Limiter
unfolding current_entry admit
check_rate_limit c key now s =
    let s' = prune now s in admit c key (current_entry c now (get key s'.store)) s'

-- `resetRateLimitStore`
pub reset_rate_limit_store : Limiter → Limiter
reset_rate_limit_store s = record s { store = [] }
