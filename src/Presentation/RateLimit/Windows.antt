-- ===== src/Presentation/RateLimit/Windows.antt =====
-- How many requests a window admits.
use onlyapi.Base.{
  All, Bool, Distinct, List, Option, String, [], arith, count, false, get, get-keep_if,
  get-keep_if-some, get-set_ne, get-set_self, if◌then◌else◌, inl, inr, keep_if-Distinct, leb, ltb,
  min, none, set-Distinct, some, str_eq, str_eq-cases, suc, sym, true, ℕ, ◌&&◌, ◌+◌, ◌-◌, ◌<◌, ◌∙◌,
  ◌∷◌, ◌≡◌, ◌≢◌, ◌≤◌,
}
use onlyapi.Core.Results.{Outcome, err, ok}
use onlyapi.Presentation.RateLimit.{
  Limiter, RateLimitConfig, RateLimitEntry, check_rate_limit, is_current, prune,
}
use onlyapi.Presentation.RateLimit.{current_entry}

-- What a key may still do: the count and the end of its window, if one is running.
unfoldable pub window : String → ℕ → Limiter → Option RateLimitEntry
window key now s = elim (get key s.store) [
  | none ↦ none
  | some e ↦ if leb e.reset_at now then none else some e
]

abbrev pub admitted {ℓ} : {T : Type ℓ} → Outcome T → Bool
admitted (ok v) = true
admitted (err e) = false

-- Pruning is not observable: every window that runs is kept, and none begins.
pub prune-window :
    (now t : ℕ) (key : String) (s : Limiter)
    → Distinct s.store
    → now ≤ t
    → window key t (prune now s) ≡ window key t s
unfolding prune window
prune-window now t key s d le = ground (arith, get-keep_if key (is_current now) s.store d)

prune-get :
    (now : ℕ) (key : String) (s : Limiter) (e : RateLimitEntry)
    → get key s.store ≡ some e
    → now < e.reset_at
    → get key (prune now s).store ≡ some e
unfolding prune
prune-get now key s e h lt = ground (arith, get-keep_if-some key (is_current now) s.store e h)

-- A check inside the window of a key counts there, and is admitted while the count is not over.
check_inside :
    (c : RateLimitConfig) (key : String) (now : ℕ) (s : Limiter) (e : RateLimitEntry)
    → get key s.store ≡ some e
    → now < e.reset_at
    → let (r, s') = check_rate_limit c key now s in
      (admitted r ≡ ltb e.count c.max_requests)
      × (get key s'.store ≡ some (record e { count = e.count + 1 }))
unfolding check_rate_limit
check_inside c key now s e h lt = ground (
  arith,
  prune-get now key s e h lt,
  get-set_self key (record e { count = e.count + 1 }) (prune now s).store,
)

-- A check of another key leaves the window alone.
check_other :
    (c : RateLimitConfig) (key j : String) (now : ℕ) (s : Limiter) (e : RateLimitEntry)
    → key ≢ j
    → get key s.store ≡ some e
    → now < e.reset_at
    → get key (check_rate_limit c j now s).1.store ≡ some e
unfolding check_rate_limit
check_other c key j now s e ne h lt = grind (arith, prune-get now key s e h lt, get-set_ne)

-- How many of the checks on a key are admitted, over a list of checks of any keys.
pub admissions : RateLimitConfig → String → List (String × ℕ) → Limiter → ℕ
admissions c key [] s = 0
admissions c key ((j, now) ∷ rs) s =
    let (r, s') = check_rate_limit c j now s in
    let rest = admissions c key rs s' in if str_eq j key && admitted r then suc rest else rest

abbrev pub asks : String → String × ℕ → Bool
asks key r = str_eq r.0 key

-- While a window runs, its key is admitted as often as it asks, up to what is left of the maximum,
-- whatever other keys do in between.
pub admissions_in_window :
    (c : RateLimitConfig) (key : String) (rs : List (String × ℕ)) (s : Limiter) (e : RateLimitEntry)
    → get key s.store ≡ some e
    → All (λ r. r.1 < e.reset_at) rs
    → admissions c key rs s ≡ min (c.max_requests - e.count) (count (asks key) rs)
unfolding admissions
admissions_in_window c key [] s e h a = omega arith
admissions_in_window c key ((j, now) ∷ rs) s e h a = elim (str_eq-cases j key) [
  | inl (t, p) ↦
      let q : get j s.store ≡ some e = rw p h in
      let (v, w) = check_inside c j now s e q a.0 in
      rw t (
        ground (
          arith,
          v,
          admissions_in_window c key rs (check_rate_limit c j now s).1
              (record e { count = e.count + 1 }) (rw (← p) w) a.1,
        ))
  | inr (f, ne) ↦ rw f (
      admissions_in_window c key rs (check_rate_limit c j now s).1 e
        (check_other c key j now s e (λ p. ne (sym p)) h a.0) a.1)
]

current_entry-new :
    (c : RateLimitConfig) (key : String) (now : ℕ) (s : Limiter)
    → window key now s ≡ none
    → current_entry c now (get key s.store) ≡ record { count = 0; reset_at = now + c.window_ms }
unfolding current_entry window
current_entry-new c key now s w = ground arith

-- A check with no window running begins one: it lasts `window_ms` from now and has counted once.
pub check_begins :
    (c : RateLimitConfig) (key : String) (now : ℕ) (s : Limiter)
    → Distinct s.store
    → window key now s ≡ none
    → let (r, s') = check_rate_limit c key now s in
      (admitted r ≡ ltb 0 c.max_requests)
      × (get key s'.store ≡ some (record { count = 1; reset_at = now + c.window_ms }))
unfolding check_rate_limit
check_begins c key now s d w =
    let s' = prune now s in
    let none_left = prune-window now now key s d (omega arith) ∙ w in
    let e : RateLimitEntry = record { count = 1; reset_at = now + c.window_ms } in
    rw (current_entry-new c key now s' none_left) (ground (arith, get-set_self key e s'.store))

pub prune-Distinct : (now : ℕ) (s : Limiter) → Distinct s.store → Distinct (prune now s).store
unfolding prune
prune-Distinct now s d = ground (arith, keep_if-Distinct (is_current now) s.store d)

-- Every check keeps the keys distinct.
pub check-Distinct :
    (c : RateLimitConfig) (key : String) (now : ℕ) (s : Limiter)
    → Distinct s.store
    → Distinct (check_rate_limit c key now s).1.store
unfolding check_rate_limit
check-Distinct c key now s d = grind (arith, prune-Distinct now s d, set-Distinct)
