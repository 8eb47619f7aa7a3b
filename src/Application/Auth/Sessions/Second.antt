-- ===== src/Application/Auth/Sessions/Second.antt =====
-- Who passes the second factor.
use onlyapi.Application.Auth.{Ports}
use onlyapi.Application.Auth.Sessions.{mfa_check, mfa_verify}
use onlyapi.Base.{String, arith, inl, inr, some, true, ◌≡◌, Option-cases, none}
use onlyapi.Core.Errors.{AppError}
use onlyapi.Core.Results.{Outcome-cases, err, ok}
use onlyapi.Core.Tokens.{TokenPair, TokenPayload}
use onlyapi.Core.Users.{User}

module _ {S : Type 0} (P : Ports S) where
  mfa_check-ok :
      (u : User) (code : String) (s : S) (pair : TokenPair)
      → (mfa_check P u code s).0 ≡ ok pair
      → (u.mfa_enabled ≡ true)
        × ((secret : String) × (u.mfa_secret ≡ some secret)
            × ((P.totp_verify secret code s).0 ≡ ok true))
  unfolding mfa_check
  mfa_check-ok u code s pair h = elim (Option-cases u.mfa_secret) [
    | inl n ↦ absurd (unset n)
    | inr (secret, e) ↦ (ground arith, (secret, e, ground arith))
  ]
    where
      unset : u.mfa_secret ≡ none → ⊥
      unset n = ground arith

  -- An MFA login succeeds only for a token that the token service accepts, whose user has MFA on with a
  -- secret, and with a code that the TOTP service accepts for that secret.
  pub mfa_verify-ok :
      (mfa_token code : String) (s : S) (pair : TokenPair)
      → (mfa_verify P mfa_token code s).0 ≡ ok pair
      → let (payload', s1) = P.verify_token mfa_token s in
        (payload : TokenPayload) × (payload' ≡ ok payload)
        × (let (user', s2) = P.find_by_id payload.sub s1 in
            (u : User) × (user' ≡ ok u)
            × (u.mfa_enabled ≡ true)
            × ((secret : String) × (u.mfa_secret ≡ some secret)
                × ((P.totp_verify secret code s2).0 ≡ ok true)))
  unfolding mfa_verify
  mfa_verify-ok mfa_token code s pair h = elim (Outcome-cases (P.verify_token mfa_token s).0) [
    | inl (e, p) ↦ absurd (untrusted e p)
    | inr (payload, p) ↦
        elim (Outcome-cases (P.find_by_id payload.sub (P.verify_token mfa_token s).1).0) [
          | inl (e, q) ↦ absurd (unknown payload e p q)
          | inr (u, q) ↦
              let s2 = (P.find_by_id payload.sub (P.verify_token mfa_token s).1).1 in
              let (on, factor) = mfa_check-ok u code s2 pair (ground arith) in
              (payload, p, (u, q, on, factor))
        ]
  ]
    where
      untrusted : (e : AppError) → (P.verify_token mfa_token s).0 ≡ err e → ⊥
      untrusted e p = ground arith

      unknown :
          (payload : TokenPayload) (e : AppError)
          → (P.verify_token mfa_token s).0 ≡ ok payload
          → (P.find_by_id payload.sub (P.verify_token mfa_token s).1).0 ≡ err e
          → ⊥
      unknown payload e p q = ground arith
