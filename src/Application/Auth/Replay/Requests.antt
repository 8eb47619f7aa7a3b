-- ===== src/Application/Auth/Replay/Requests.antt =====
-- Logins, refreshes and logouts keep what is refused, and so does any run of them.
use onlyapi.Application.Auth.Sessions.{refresh_check, refresh_rotate, refresh, logout, logout_at}
use onlyapi.Application.Auth.{
  Ports, create_tokens, login, login_rejected, login_unlocked, login_verified, day_ms,
  revoked_token,
}
use onlyapi.Application.Auth.Replay.{
  Keeps, PortsKeep, BlacklistLaws, Keeps-add, refresh-refused, Keeps-add_now,
}
use onlyapi.Base.{ap, ◌<◌, String, arith, Option, ℕ, ◌*◌, ◌+◌, ◌≡◌, ◌≢◌}
use onlyapi.Database.Families.{RefreshTokenFamily}
use onlyapi.Core.Results.{err}
use onlyapi.Core.Tokens.{TokenPayload, TokenPair}
use onlyapi.Core.Users.{User}

module _ {S : Type 0} (P : Ports S) (B : S → Type 0) (K : PortsKeep P B) where
  Keeps-create_tokens : (payload : TokenPayload) → Keeps B (create_tokens P payload)
  unfolding create_tokens
  Keeps-create_tokens payload s b = grind (arith, K.sign, K.create_family)

  Keeps-login_verified : (email : String) (u : User) → Keeps B (login_verified P email u)
  unfolding login_verified
  Keeps-login_verified email u s b = grind (arith, K.reset_attempts, K.sign, Keeps-create_tokens)

  pub Keeps-login : (email password : String) → Keeps B (login P email password)
  unfolding login login_unlocked login_rejected
  Keeps-login email password s b = grind (
    arith, K.is_locked, K.find_by_email, K.verify_password, K.record_failed_attempt,
    Keeps-login_verified,
  )

  pub Keeps-refresh_check : (token : String) → Keeps B (refresh_check P token)
  unfolding refresh_check
  Keeps-refresh_check token s b =
      grind (arith, K.is_blacklisted, K.find_by_token_hash, K.revoke_all_for_user)

  Keeps-logout :
      (access refresh_tk : String)
      → ((s : S)
          → B s
          → let s1 = (P.add_blacklisted (P.hash_token access) (P.now s + 15 * 60 * 1000) s).1 in
            B (P.add_blacklisted (P.hash_token refresh_tk) (P.now s + 7 * day_ms) s1).1)
      → Keeps B (logout P access refresh_tk)
  unfolding logout logout_at
  Keeps-logout access refresh_tk both s b =
      grind (arith, both s b, K.find_by_token_hash, K.revoke_family)

  module _
      (added : (j : String) → Keeps B (λ s. P.add_blacklisted j (P.now s + 7 * day_ms) s)) where
    pub Keeps-refresh_rotate :
        (token : String) (family : Option RefreshTokenFamily) (pair : TokenPair)
        → Keeps B (refresh_rotate P token family pair)
    unfolding refresh_rotate
    Keeps-refresh_rotate token family pair s b =
        grind (arith, added (P.hash_token token) s b, K.rotate)

    pub Keeps-refresh : (token : String) → Keeps B (refresh P token)
    unfolding refresh
    Keeps-refresh token s b =
        grind (arith, Keeps-refresh_check, K.refresh_token, Keeps-refresh_rotate)

module _ {S : Type 0} (P : Ports S) (L : BlacklistLaws P) where
  -- Requests that are served one after another, and time that passes. An access token that is logged
  -- out is not the refresh token `h` in question.
  pub data Later (h : String) : S → S → Type 0 where
    at_once : {s : S} → Later h s s
    then_wait : {s t : S} (n : ℕ) → Later h s t → Later h s (L.wait n t)
    then_login : {s t : S} (a b : String) → Later h s t → Later h s (login P a b t).1
    then_refresh : {s t : S} (a : String) → Later h s t → Later h s (refresh P a t).1
    then_logout :
        {s t : S} (a b : String) → P.hash_token a ≢ h → Later h s t → Later h s (logout P a b t).1

  -- A logout keeps what is refused, where its access token is another.
  pub Stands-logout :
      (h : String) (since : ℕ) (access refresh_tk : String) (s : S)
      → P.hash_token access ≢ h
      → L.Stands h since s
      → L.Stands h since (logout P access refresh_tk s).1
  Stands-logout h since access refresh_tk s ne b =
      Keeps-logout P (L.Stands h since) (L.others h since) access refresh_tk
        (λ u c.
          let le = L.begun h since u c in
          let t1 = P.now u + 15 * 60 * 1000 in
          Keeps-add P L h (P.hash_token refresh_tk) since (P.now u + 7 * day_ms) (omega arith)
            (P.add_blacklisted (P.hash_token access) t1 u).1
            (L.add_other h (P.hash_token access) t1 since ne u c))
        s b

  Later-Stands :
      (h : String) (since : ℕ) {s t : S} → Later h s t → L.Stands h since s → L.Stands h since t
  Later-Stands h since at_once b = b
  Later-Stands h since (then_wait {s} {t} n l) b = L.waits h since n t (Later-Stands h since l b)
  Later-Stands h since (then_login {s} {t} e p l) b =
      Keeps-login P (L.Stands h since) (L.others h since) e p t (Later-Stands h since l b)
  Later-Stands h since (then_refresh {s} {t} a l) b =
      Keeps-refresh P (L.Stands h since) (L.others h since) (λ j. Keeps-add_now P L h j since) a t
        (Later-Stands h since l b)
  Later-Stands h since (then_logout {s} {t} a c ne l) b =
      Stands-logout h since a c t ne (Later-Stands h since l b)

  logout-Stands :
      (access token : String) (s : S)
      → L.Stands (P.hash_token token) (P.now s) (logout P access token s).1
  unfolding logout logout_at
  logout-Stands access token s =
      let t1 = P.now s + 15 * 60 * 1000 in
      let s1 = (P.add_blacklisted (P.hash_token access) t1 s).1 in
      let k = L.others (P.hash_token token) (P.now s) in
      let added =
        L.adds (P.hash_token token) (P.now s) (P.now s + 7 * day_ms) s1
          (L.clock (P.hash_token access) t1 s) (omega arith) in
      grind (arith, added, k.find_by_token_hash, k.revoke_family)

  -- A refresh token that was logged out is refused for seven days from the call of the logout, whatever
  -- logins, refreshes and logouts come in between (no access token that is logged out has its hash).
  pub logout_spent :
      (access token : String) (s t : S)
      → Later (P.hash_token token) (logout P access token s).1 t
      → P.now t < P.now s + 7 * day_ms
      → (refresh P token t).0 ≡ err revoked_token
  logout_spent access token s t l lt =
      ap (λ r. r.0)
        (refresh-refused P L token (P.now s) t
          (Later-Stands (P.hash_token token) (P.now s) l (logout-Stands access token s)) lt)
