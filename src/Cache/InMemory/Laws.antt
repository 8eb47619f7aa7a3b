-- ===== src/Cache/InMemory/Laws.antt =====
-- The cache seen through the values that are alive, and where `incr` breaks its promise.
use onlyapi.Base.{
  Bool, Distinct, Option, String, arith, eq_iff, false, get, get-delete, get-keep_if, get-set,
  get-set_ne, if◌then◌else◌, ltb, none, not, some, str_eq, true, ℕ, ◌+◌, ◌≡◌, ◌≢◌, ◌≤◌,
  get-set_self,
}
use onlyapi.Cache.InMemory.{
  Cache, CacheEntry, del, del_pattern, exists, fetch, incr, is_expired, put,
}

module _ {ℓ} {V : Type ℓ} where
  abbrev pub alive : ℕ → Option (CacheEntry V) → Option V
  alive now none = none
  alive now (some e) = if is_expired now e then none else some e.value

  -- The value of a key at a time: what the cache promises to show.
  pub peek : String → ℕ → Cache V → Option V
  peek key now m = alive now (get key m)

  abbrev pub is_some : Option V → Bool
  is_some none = false
  is_some (some v) = true

  -- A read shows the value that is alive, and changes no value at this time or later.
  pub fetch-peek :
      (key : String) (now : ℕ) (m : Cache V)
      → let (v, m') = fetch key now m in
        (v ≡ peek key now m) × ((j : String) (t : ℕ) → now ≤ t → peek j t m' ≡ peek j t m)
  unfolding fetch peek
  fetch-peek key now m = (ground arith, λ j t le. ground (arith, get-delete j key m, eq_iff key j))

  -- The test for a key agrees with a read of it, answer and effect.
  pub exists-fetch :
      (key : String) (now : ℕ) (m : Cache V)
      → ((exists key now m).0 ≡ is_some (fetch key now m).0)
        × ((exists key now m).1 ≡ (fetch key now m).1)
  unfolding exists fetch
  exists-fetch key now m = ground arith

  abbrev pub shown : V → Option ℕ → ℕ → ℕ → Option V
  shown v none now t = some v
  shown v (some ttl) now t = if ltb t (now + ttl) then some v else none

  -- A value that is put is shown until its time to live is over, or for good if it has none; the
  -- other keys are as before.
  pub peek-put :
      (key : String) (v : V) (ttl_ms : Option ℕ) (now : ℕ) (m : Cache V) (j : String) (t : ℕ)
      → peek j t (put key v ttl_ms now m)
        ≡ (if str_eq key j then shown v ttl_ms now t else peek j t m)
  unfolding peek put is_expired
  peek-put key v none now m j t =
      ground (arith, get-set j key (record { value = v; expires_at = none }) m)
  peek-put key v (some ttl) now m j t =
      ground (arith, get-set j key (record { value = v; expires_at = some (now + ttl) }) m)

  -- A deleted key is gone, and the other keys are as before.
  pub peek-del :
      (key : String) (m : Cache V) (j : String) (t : ℕ)
      → peek j t (del key m).1 ≡ (if str_eq key j then none else peek j t m)
  unfolding peek del
  peek-del key m j t = ground (arith, get-delete j key m)

  -- Deleting by pattern removes exactly the keys that pass the test.
  pub peek-del_pattern :
      (test : String → Bool) (m : Cache V) (j : String) (t : ℕ)
      → Distinct m
      → peek j t (del_pattern test m).1 ≡ (if test j then none else peek j t m)
  unfolding peek del_pattern
  peek-del_pattern test m j t d = ground (arith, get-keep_if j (λ k e. not (test k)) m d)

  module _ (plus : V → V → V) (key : String) (delta : V) (now : ℕ) (m : Cache V) where
    -- `incr` on a live entry adds to its value and keeps its end.
    pub incr_live :
        (e : CacheEntry V)
        → get key m ≡ some e
        → is_expired now e ≡ false
        → let v = plus e.value delta in
          ((incr plus key delta now m).0 ≡ v)
          × ((t : ℕ)
              → peek key t (incr plus key delta now m).1
                ≡ (if is_expired t e then none else some v))
    unfolding incr peek is_expired
    incr_live e h x = (
      ground arith,
      λ t. grind (arith, get-set_self key (record e { value = plus e.value delta }) m),
    )

    -- `incr` on an absent key makes it, with the value `delta` and no end.
    pub incr_absent :
        get key m ≡ none
        → ((incr plus key delta now m).0 ≡ delta)
          × ((t : ℕ) → peek key t (incr plus key delta now m).1 ≡ some delta)
    unfolding incr peek is_expired
    incr_absent h = (ground arith, λ t. grind (arith, get-set_self))

    -- `incr` on an expired entry reports `delta`, but the value that it writes has expired too: no
    -- read at this time or later shows it.
    incr_expired_lost :
        (e : CacheEntry V) (t : ℕ)
        → get key m ≡ some e
        → is_expired now e ≡ true
        → now ≤ t
        → ((incr plus key delta now m).0 ≡ delta)
          × (peek key t (incr plus key delta now m).1 ≡ none)
    unfolding incr peek is_expired
    incr_expired_lost e t h x le = (ground arith, grind (arith, get-set_self))

    -- `incr` leaves the other keys alone.
    pub incr_others : (j : String) → j ≢ key → get j (incr plus key delta now m).1 ≡ get j m
    unfolding incr
    incr_others j ne = grind (arith, get-set_ne)
