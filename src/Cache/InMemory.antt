-- ===== src/Cache/InMemory.antt =====
-- src/infrastructure/cache/in-memory-cache.ts. An operation does not wait, so it reads the clock
-- once, `now`. A value is any `V`; `plus` stands for JavaScript's `+` on two values.
pub mod Laws
pub mod Calls
pub mod Runs
mod Tests
use mathlib.Core.Option
use onlyapi.Base.{
  Bool, Map, Option, String, [], count, delete, false, get, has, if◌then◌else◌, keep_if, leb, map,
  none, not, set, some, true, ℕ, ◌+◌,
}

pub record CacheEntry {ℓ} (V : Type ℓ) : Type ℓ where
  pub value : V
  pub expires_at : Option ℕ

abbrev pub Cache {ℓ} : Type ℓ → Type ℓ
Cache V = Map (CacheEntry V)

module _ {ℓ} {V : Type ℓ} where
  unfoldable pub is_expired : ℕ → CacheEntry V → Bool
  is_expired now e = elim e.expires_at [ none ↦ false | some t ↦ leb t now ]

  -- `cache.get`
  pub fetch : String → ℕ → Cache V → Option V × Cache V
  unfolding is_expired
  fetch key now m = elim (get key m) [
    | none ↦ (none, m)
    | some e ↦ if is_expired now e then (none, delete key m) else (some e.value, m)
  ]

  -- `cache.set`
  pub put : String → V → Option ℕ → ℕ → Cache V → Cache V
  put key v ttl_ms now m =
      set key (record { value = v; expires_at = Option.map (λ ttl. now + ttl) ttl_ms }) m

  -- `cache.del`
  pub del : String → Cache V → Bool × Cache V
  del key m = (has key m, delete key m)

  -- `cache.has`
  pub exists : String → ℕ → Cache V → Bool × Cache V
  unfolding is_expired
  exists key now m = elim (get key m) [
    | none ↦ (false, m)
    | some e ↦ if is_expired now e then (false, delete key m) else (true, m)
  ]

  -- `cache.incr`: the branch for a missing or expired entry keeps `entry?.expiresAt`.
  pub incr : (V → V → V) → String → V → ℕ → Cache V → V × Cache V
  unfolding is_expired
  incr plus key delta now m = elim (get key m) [
    | none ↦ (delta, set key (record { value = delta; expires_at = none }) m)
    | some e ↦
        if is_expired now e
        then (delta, set key (record { value = delta; expires_at = e.expires_at }) m)
        else (let v = plus e.value delta in (v, set key (record e { value = v }) m))
  ]

  -- `cache.delPattern`, over the test of the regular expression that the pattern is turned into.
  pub del_pattern : (String → Bool) → Cache V → ℕ × Cache V
  del_pattern test m = (count (λ e. test e.0) m, keep_if (λ k e. not (test k)) m)

  -- `cache.close`
  pub close : Cache V → Cache V
  close m = []
