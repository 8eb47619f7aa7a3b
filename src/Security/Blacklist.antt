-- ===== src/Security/Blacklist.antt =====
-- src/infrastructure/security/token-blacklist.ts. An operation reads the clock once, `now`.
pub mod Laws
mod Tests
use onlyapi.Base.{
  Bool, Map, String, [], count, delete, false, get, if◌then◌else◌, keep_if, leb, ltb, none, not,
  set, some, true, ℕ, ◌+◌,
}

-- The store maps the hash of a token to the time at which its entry runs out.
pub record Blacklist : Type 0 where
  pub store : Map ℕ
  pub last_prune : ℕ

pub create : Blacklist
create = record { store = []; last_prune = 0 }

pub add : String → ℕ → Blacklist → Blacklist
add token_hash expires_at b = record b { store = set token_hash expires_at b.store }

unfoldable pub is_blacklisted : String → ℕ → Blacklist → Bool × Blacklist
is_blacklisted token_hash now b = elim (get token_hash b.store) [
  | none ↦ (false, b)
  | some t ↦
      if leb t now then (false, record b { store = delete token_hash b.store }) else (true, b)
]

abbrev pub lives : ℕ → String → ℕ → Bool
lives now hash t = not (leb t now)

-- The count of what goes, and the loop that deletes it; at most once a minute.
pub prune : ℕ → Blacklist → ℕ × Blacklist
prune now b = if ltb now (b.last_prune + 60000) then (0, b) else (
  count (λ e. leb e.1 now) b.store,
  record { store = keep_if (lives now) b.store; last_prune = now },
)
