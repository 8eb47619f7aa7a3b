-- ===== src/Cache/InMemory/Calls.antt =====
-- Calls of the cache, and the entry that a key should have after them.
use mathlib.Core.Option
use onlyapi.Base.{
  List, Option, Bool, String, [], false, if◌then◌else◌, none, some, str_eq, ℕ, ◌+◌, ◌∷◌, ◌≡◌, ◌≤◌,
}
use onlyapi.Cache.InMemory.{
  Cache, CacheEntry, del, del_pattern, exists, fetch, incr, is_expired, put,
}

module _ {ℓ} (V : Type ℓ) where
  -- The calls; a deletion by pattern has the test of its regular expression.
  pub data Call : Type ℓ where
    gets : String → Call
    sets : String → V → Option ℕ → Call
    dels : String → Call
    asks : String → Call
    incrs : String → V → Call
    del_patterns : (String → Bool) → Call

module _ {ℓ} {V : Type ℓ} where
  -- What `set` writes.
  abbrev pub written : V → Option ℕ → ℕ → CacheEntry V
  written v ttl_ms now = record { value = v; expires_at = Option.map (λ ttl. now + ttl) ttl_ms }

module _ {ℓ} {V : Type ℓ} (plus : V → V → V) where
  unfoldable pub step : ℕ → Call V → Cache V → Cache V
  step now (gets key) m = (fetch key now m).1
  step now (sets key v ttl_ms) m = put key v ttl_ms now m
  step now (dels key) m = (del key m).1
  step now (asks key) m = (exists key now m).1
  step now (incrs key delta) m = (incr plus key delta now m).1
  step now (del_patterns test) m = (del_pattern test m).1

  -- The cache after calls with their times, the last first.
  unfoldable pub run : List (ℕ × Call V) → Cache V
  unfolding step
  run [] = []
  run ((now, c) ∷ earlier) = step now c (run earlier)

  -- What an increment writes, where the key has no entry that is over.
  unfoldable pub incremented : V → Option (CacheEntry V) → CacheEntry V
  incremented delta none = record { value = delta; expires_at = none }
  incremented delta (some e) = record e { value = plus e.value delta }

  -- The entry that a key should have: that of the last call that wrote it or deleted it, as if no
  -- entry were ever dropped for its age.
  unfoldable pub expected : List (ℕ × Call V) → String → Option (CacheEntry V)
  expected [] key = none
  expected ((now, gets k) ∷ earlier) key = expected earlier key
  expected ((now, asks k) ∷ earlier) key = expected earlier key
  expected ((now, sets k v ttl_ms) ∷ earlier) key =
      let before = expected earlier key in
      if str_eq k key then some (written v ttl_ms now) else before
  expected ((now, dels k) ∷ earlier) key =
      let before = expected earlier key in if str_eq k key then none else before
  expected ((now, del_patterns test) ∷ earlier) key =
      let before = expected earlier key in if test key then none else before
  expected ((now, incrs k delta) ∷ earlier) key =
      let before = expected earlier key in
      if str_eq k key then some (incremented delta before) else before

  -- The clock does not go back, and no call increments an entry that is over.
  unfoldable pub Fits : ℕ → List (ℕ × Call V) → Type ℓ
  Fits now [] = Unit
  Fits now ((t, incrs k delta) ∷ earlier) =
      (t ≤ now)
      × ((e : CacheEntry V) → expected earlier k ≡ some e → is_expired t e ≡ false)
      × Fits t earlier
  Fits now ((t, c) ∷ earlier) = (t ≤ now) × Fits t earlier
