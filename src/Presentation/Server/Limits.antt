-- ===== src/Presentation/Server/Limits.antt =====
-- The limiter that the server has inlined decides as the middleware of src/presentation/middleware does.
use onlyapi.Base.{
  ap₂, Bool, Distinct, List, Option, String, [], ap, arith, get, get-keep_if, get-set,
  if◌then◌else◌, keep_if-Distinct, leb, ltb, none, not, refl, set, set-Distinct, some, str_eq,
  subst, sym, ℕ, ◌+◌, ◌≡◌, ◌≤◌, ◌∙◌, ◌∷◌,
}
use onlyapi.Presentation.RateLimit.{
  Limiter, RateLimitConfig, RateLimitEntry, check_rate_limit, current_entry, is_current, prune,
}
use onlyapi.Presentation.RateLimit.Windows.{admitted, prune-window, window}
use onlyapi.Presentation.Server.{check_inline, counted_entry, prune_inline}

-- From a time on, both have the same windows running.
abbrev pub SameWindows : ℕ → Limiter → Limiter → Type 0
SameWindows now s r = (key : String) (t : ℕ) → now ≤ t → window key t s ≡ window key t r

prune_inline-window :
    (now t : ℕ) (key : String) (s : Limiter)
    → Distinct s.store
    → now ≤ t
    → window key t (prune_inline now s) ≡ window key t s
unfolding prune_inline window
prune_inline-window now t key s d le = ground (arith, get-keep_if key (is_current now) s.store d)

prune_inline-Distinct :
    (now : ℕ) (s : Limiter) → Distinct s.store → Distinct (prune_inline now s).store
unfolding prune_inline
prune_inline-Distinct now s d = ground (arith, keep_if-Distinct (is_current now) s.store d)

prune-Distinct : (now : ℕ) (s : Limiter) → Distinct s.store → Distinct (prune now s).store
unfolding prune
prune-Distinct now s d = ground (arith, keep_if-Distinct (is_current now) s.store d)

-- What a check leaves of a key: by the window that runs now.
abbrev entry_after : RateLimitConfig → ℕ → Option RateLimitEntry → RateLimitEntry
entry_after c now none = record { count = 1; reset_at = now + c.window_ms }
entry_after c now (some e) = record e { count = e.count + 1 }

abbrev running : ℕ → RateLimitEntry → Option RateLimitEntry
running t e = if leb e.reset_at t then none else some e

counted-window :
    (c : RateLimitConfig) (ip : String) (now : ℕ) (s : Limiter)
    → counted_entry c now (get ip s.store) ≡ entry_after c now (window ip now s)
unfolding counted_entry window
counted-window c ip now s = ground arith

current-window :
    (c : RateLimitConfig) (ip : String) (now : ℕ) (s : Limiter)
    → let e = current_entry c now (get ip s.store) in
      record e { count = e.count + 1 } ≡ entry_after c now (window ip now s)
unfolding current_entry window
current-window c ip now s = ground arith

window-set :
    (ip key : String) (t last_prune : ℕ) (e : RateLimitEntry) (s : Limiter)
    → window key t (record { store = set ip e s.store; last_prune = last_prune })
      ≡ (if str_eq ip key then running t e else window key t s)
unfolding window
window-set ip key t last_prune e s = ground (arith, get-set key ip e s.store)

-- What a check does, by the windows that run: its verdict, and the windows after it.
abbrev IsCheck : RateLimitConfig → String → ℕ → Limiter → Bool → Limiter → Type 0
IsCheck c ip now s b s' =
    let e = entry_after c now (window ip now s) in
    (b ≡ not (ltb c.max_requests e.count))
    × Distinct s'.store
    × ((key : String) (t : ℕ)
        → now ≤ t
        → window key t s' ≡ (if str_eq ip key then running t e else window key t s))

inline-IsCheck :
    (c : RateLimitConfig) (ip : String) (now : ℕ) (s : Limiter)
    → Distinct s.store
    → let (b, s') = check_inline c ip now s in IsCheck c ip now s b s'
unfolding check_inline
inline-IsCheck c ip now s d =
    let s0 = prune_inline now s in
    let e0 = counted_entry c now (get ip s0.store) in
    let same : e0 ≡ entry_after c now (window ip now s) =
      counted-window c ip now s0
      ∙ ap (entry_after c now) (prune_inline-window now now ip s d (omega arith)) in
    (
      ap (λ (x : RateLimitEntry). not (ltb c.max_requests x.count)) same,
      set-Distinct ip e0 s0.store (prune_inline-Distinct now s d),
      λ key t le.
          window-set ip key t s0.last_prune e0 s0
          ∙ ap₂ (λ x y. if str_eq ip key then running t x else y) same
              (prune_inline-window now t key s d le),
    )

middleware-IsCheck :
    (c : RateLimitConfig) (ip : String) (now : ℕ) (s : Limiter)
    → Distinct s.store
    → let (r, s') = check_rate_limit c ip now s in IsCheck c ip now s (admitted r) s'
unfolding check_rate_limit
middleware-IsCheck c ip now s d =
    let s0 = prune now s in
    let e0 = current_entry c now (get ip s0.store) in
    let e1 : RateLimitEntry = record e0 { count = e0.count + 1 } in
    let same : e1 ≡ entry_after c now (window ip now s) =
      current-window c ip now s0
      ∙ ap (entry_after c now) (prune-window now now ip s d (omega arith)) in
    let stored : (check_rate_limit c ip now s).1
        ≡ record { store = set ip e1 s0.store; last_prune = s0.last_prune } =
      ground arith in
    let verdict : admitted (check_rate_limit c ip now s).0 ≡ not (ltb c.max_requests e1.count) =
      ground arith in
    (
      verdict ∙ ap (λ (x : RateLimitEntry). not (ltb c.max_requests x.count)) same,
      subst (λ x. Distinct x.store) (sym stored)
          (set-Distinct ip e1 s0.store (prune-Distinct now s d)),
      λ key t le.
          ap (window key t) stored
          ∙ window-set ip key t s0.last_prune e1 s0
          ∙ ap₂ (λ x y. if str_eq ip key then running t x else y) same
              (prune-window now t key s d le),
    )

-- The verdicts of both on requests, each with its address and time.
unfoldable pub verdicts_inline : RateLimitConfig → List (String × ℕ) → Limiter → List Bool
verdicts_inline c [] s = []
verdicts_inline c ((ip, now) ∷ rs) s =
    let (b, s') = check_inline c ip now s in b ∷ verdicts_inline c rs s'

pub verdicts_middleware : RateLimitConfig → List (String × ℕ) → Limiter → List Bool
verdicts_middleware c [] s = []
verdicts_middleware c ((ip, now) ∷ rs) s =
    let (r, s') = check_rate_limit c ip now s in admitted r ∷ verdicts_middleware c rs s'

-- The clock does not go back.
abbrev pub IsRising : ℕ → List (String × ℕ) → Type 0
IsRising now [] = Unit
IsRising now ((ip, t) ∷ rs) = (now ≤ t) × IsRising t rs

same_verdicts :
    (c : RateLimitConfig) (rs : List (String × ℕ)) (now : ℕ) (s r : Limiter)
    → Distinct s.store
    → Distinct r.store
    → SameWindows now s r
    → IsRising now rs
    → verdicts_inline c rs s ≡ verdicts_middleware c rs r
unfolding verdicts_inline verdicts_middleware
same_verdicts c [] now s r d d' w up = refl
same_verdicts c ((ip, t) ∷ rs) now s r d d' w (le, up) =
    let (v, sound, after) = inline-IsCheck c ip t s d in
    let (v', sound', after') = middleware-IsCheck c ip t r d' in
    let here : window ip t s ≡ window ip t r = w ip t le in
    let windows : SameWindows t (check_inline c ip t s).1 (check_rate_limit c ip t r).1 =
      λ key u ge.
        after key u ge
        ∙ ap₂ (λ x y. if str_eq ip key then running u (entry_after c t x) else y) here
            (w key u (omega arith))
        ∙ sym (after' key u ge) in
    ap₂ (λ b bs. b ∷ bs)
      (v ∙ ap (λ x. not (ltb c.max_requests (entry_after c t x).count)) here ∙ sym v')
      (same_verdicts c rs t (check_inline c ip t s).1 (check_rate_limit c ip t r).1 sound sound'
        windows up)

-- From one store, with one entry for an address, the inlined limiter admits exactly the requests
-- that the middleware admits, at any times that do not go back.
pub verdicts_inline-middleware :
    (c : RateLimitConfig) (rs : List (String × ℕ)) (s : Limiter)
    → Distinct s.store
    → IsRising 0 rs
    → verdicts_inline c rs s ≡ verdicts_middleware c rs s
verdicts_inline-middleware c rs s d up = same_verdicts c rs 0 s s d d (λ key t le. refl) up
