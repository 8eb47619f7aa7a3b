-- ===== src/Presentation/RateLimit/Tests.antt =====
-- Runs of the rate limiter, and its theorems at a concrete one.
use onlyapi.Base.{[], get, refl, ◌∷◌, ◌≡◌}
use onlyapi.Core.Results.{ok}
use onlyapi.Presentation.RateLimit.{Limiter, RateLimitConfig, check_rate_limit, prune}

abbrev two_a_second : RateLimitConfig
two_a_second = record { window_ms = 1000; max_requests = 2 }

abbrev empty : Limiter
empty = record { store = []; last_prune = 0 }

first_is_admitted :
    (check_rate_limit two_a_second "ip" 5 empty).0 ≡ ok (record { remaining = 1; reset_at = 1005 })
unfolding check_rate_limit prune get
first_is_admitted = refl

abbrev one_window : Limiter
one_window = record { store = ("ip", record { count = 1; reset_at = 90000 }) ∷ []; last_prune = 0 }
