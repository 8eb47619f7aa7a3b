-- ===== src/Application/Auth/Replay/Interleaved.antt =====
-- Refreshes that are served at the same time: each waits for the token service between its check and
-- its writes, so that the parts of several refreshes, and logins and logouts, of
-- src/application/services/auth.service.ts come in any order.
use onlyapi.Application.Auth.{Ports, day_ms, revoked_token, login}
use onlyapi.Application.Auth.Memory.{Platform, System, memory_ports}
use onlyapi.Application.Auth.Memory.Laws.{memory-BlacklistLaws}
use onlyapi.Application.Auth.Sessions.{refresh, refresh_check, refresh_rotate, logout}
use onlyapi.Application.Auth.Replay.{BlacklistLaws, Keeps-add_now, PortsKeep, refresh-refused}
use onlyapi.Application.Auth.Replay.Requests.{
  Keeps-login, Keeps-refresh_check, Keeps-refresh_rotate, Stands-logout,
}
use onlyapi.Base.{Option, String, ℕ, arith, ◌*◌, ◌+◌, ◌<◌, ◌≡◌, ◌≢◌}
use onlyapi.Core.Results.{err, ok}
use onlyapi.Core.Tokens.{TokenPair}
use onlyapi.Database.Families.{RefreshTokenFamily}

module _ {S : Type 0} (P : Ports S) (L : BlacklistLaws P) (h : String) where
  -- The check of a refresh, its call of the token service and its writes, each for any refresh, with
  -- logins, logouts and waits between them. An access token that is logged out has not the hash `h`.
  pub data Interleaved (s : S) : S → Type 0 where
    nothing_yet : Interleaved s s
    waits_on : {t : S} (n : ℕ) → Interleaved s t → Interleaved s (L.wait n t)
    logs_in : {t : S} (a b : String) → Interleaved s t → Interleaved s (login P a b t).1
    checks : {t : S} (token : String) → Interleaved s t → Interleaved s (refresh_check P token t).1
    exchanges :
        {t : S} (token : String) → Interleaved s t → Interleaved s (P.refresh_token token t).1
    rotates :
        {t : S} (token : String) (family : Option RefreshTokenFamily) (pair : TokenPair)
        → Interleaved s t
        → Interleaved s (refresh_rotate P token family pair t).1
    logs_out :
        {t : S} (a b : String)
        → P.hash_token a ≢ h
        → Interleaved s t
        → Interleaved s (logout P a b t).1

  Interleaved-Stands :
      (since : ℕ) {s t : S} → Interleaved s t → L.Stands h since s → L.Stands h since t
  Interleaved-Stands since nothing_yet b = b
  Interleaved-Stands since (waits_on {t} n i) b = L.waits h since n t (Interleaved-Stands since i b)
  Interleaved-Stands since (logs_in {t} a c i) b =
      Keeps-login P (L.Stands h since) (L.others h since) a c t (Interleaved-Stands since i b)
  Interleaved-Stands since (checks {t} token i) b =
      Keeps-refresh_check P (L.Stands h since) (L.others h since) token t
        (Interleaved-Stands since i b)
  Interleaved-Stands since (exchanges {t} token i) b =
      PortsKeep.refresh_token (L.others h since) token t (Interleaved-Stands since i b)
  Interleaved-Stands since (rotates {t} token family pair i) b =
      Keeps-refresh_rotate P (L.Stands h since) (L.others h since)
        (λ j. Keeps-add_now P L h j since) token family pair t (Interleaved-Stands since i b)
  Interleaved-Stands since (logs_out {t} a c ne i) b =
      Stands-logout P L h since a c t ne (Interleaved-Stands since i b)

module _ {S : Type 0} (P : Ports S) (L : BlacklistLaws P) where
  refresh_rotate-Stands :
      (token : String) (family : Option RefreshTokenFamily) (pair : TokenPair) (s : S)
      → L.Stands (P.hash_token token) (P.now s) (refresh_rotate P token family pair s).1
  unfolding refresh_rotate
  refresh_rotate-Stands token family pair s = grind (
    arith,
    L.adds (P.hash_token token) (P.now s) (P.now s + 7 * day_ms) s,
    PortsKeep.rotate (L.others (P.hash_token token) (P.now s)),
  )

  refresh_check-refused :
      (token : String) (since : ℕ) (s : S)
      → L.Stands (P.hash_token token) since s
      → P.now s < since + 7 * day_ms
      → (refresh_check P token s).0 ≡ err revoked_token
  unfolding refresh_check
  refresh_check-refused token since s b lt =
      let refused = L.refuses (P.hash_token token) since s b lt in ground arith

refresh_rotate-ok :
    {S : Type 0} (P : Ports S) (token : String) (family : Option RefreshTokenFamily)
    (pair : TokenPair) (s : S)
    → (refresh_rotate P token family pair s).0 ≡ ok pair
unfolding refresh_rotate
refresh_rotate-ok P token family pair s = ground arith

-- With the adapters in memory, the writes of a refresh give out its pair and spend its token: for seven
-- days from them, however the checks, exchanges and writes of other refreshes and whole logins and
-- logouts come in between, the check of a refresh with the token refuses it, and so does a refresh, which
-- writes nothing but by its look at the blacklist (no access token that is logged out has its hash).
pub rotation_spent :
    (E : Platform) (token : String) (family : Option RefreshTokenFamily) (pair : TokenPair)
    (s t : System)
    → Interleaved
        (memory_ports E)
        (memory-BlacklistLaws E)
        (E.hash_token token)
        (refresh_rotate (memory_ports E) token family pair s).1
        t
    → t.clock < s.clock + 7 * day_ms
    → let P = memory_ports E in
      ((refresh_rotate P token family pair s).0 ≡ ok pair)
      × ((refresh_check P token t).0 ≡ err revoked_token)
      × (refresh P token t ≡ (err revoked_token, (P.is_blacklisted (E.hash_token token) t).1))
unfolding memory_ports
rotation_spent E token family pair s t i lt =
    let P = memory_ports E in
    let L = memory-BlacklistLaws E in
    let b =
      Interleaved-Stands P L (E.hash_token token) s.clock i
        (refresh_rotate-Stands P L token family pair s) in
    (
      refresh_rotate-ok P token family pair s,
      refresh_check-refused P L token s.clock t b lt,
      refresh-refused P L token s.clock t b lt,
    )
