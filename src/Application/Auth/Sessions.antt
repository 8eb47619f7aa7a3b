-- ===== src/Application/Auth/Sessions.antt =====
-- refresh, logout and mfaVerify of src/application/services/auth.service.ts. `refresh` is cut where it
-- waits for the token service: `refresh_check` is what it reads before, `refresh_rotate` what it
-- writes after.
pub mod Second
use onlyapi.Application.Auth.{Ports, create_tokens, day_ms, found, holds, payload_of, revoked_token}
use onlyapi.Base.{if◌then◌else◌, Option, String, none, not, some, str_eq, ◌*◌, ◌+◌, ◌||◌, All, ℕ}
use onlyapi.Core.Errors.{AppError, app_error, bad_request, unauthorized}
use onlyapi.Core.Operations.{Op, attempt, done, fail, ◌>>=◌, lift}
use onlyapi.Core.Results.{err, ok}
use onlyapi.Core.Tokens.{TokenPair}
use onlyapi.Core.Users.{User}
use onlyapi.Database.Families.{
  RefreshTokenFamily, find_by_token_hash, revoke_all_for_user, revoke_family, rotate,
}

abbrev pub reused_token : AppError
reused_token = app_error unauthorized "Token reuse detected. All sessions revoked."

module _ {S : Type 0} (P : Ports S) where
  -- The family of the token, if it has one.
  unfoldable pub refresh_check : String → Op S (Option RefreshTokenFamily)
  refresh_check token = do
    blacklisted ← attempt (P.is_blacklisted (P.hash_token token))
    if holds blacklisted then fail revoked_token else (do
      family ← P.find_by_token_hash (P.hash_token token)
      elim family [
        | none ↦ done none
        | some f ↦
            if f.revoked
            then (do ended ← attempt (P.revoke_all_for_user f.user_id); fail reused_token)
            else done (some f)
      ])

  unfoldable pub refresh_rotate : String → Option RefreshTokenFamily → TokenPair → Op S TokenPair
  refresh_rotate token family pair = do
    added ← attempt (λ s. P.add_blacklisted (P.hash_token token) (P.now s + 7 * day_ms) s)
    elim family [
      | none ↦ done pair
      | some f ↦ (do
        moved ← attempt (P.rotate f.id (P.hash_token token) (P.hash_token pair.refresh_token))
        done pair)
    ]

  unfoldable pub refresh : String → Op S TokenPair
  unfolding refresh_check refresh_rotate
  refresh token = do
    family ← refresh_check token
    pair ← P.refresh_token token
    refresh_rotate token family pair

  -- After the clock is read: both additions are made before either result is looked at.
  unfoldable pub logout_at : ℕ → String → String → Op S (Unit {0})
  logout_at now access refresh_tk = do
    first ← attempt (P.add_blacklisted (P.hash_token access) (now + 15 * 60 * 1000))
    second ← attempt (P.add_blacklisted (P.hash_token refresh_tk) (now + 7 * day_ms))
    a ← lift first
    b ← lift second
    family ← attempt (P.find_by_token_hash (P.hash_token refresh_tk))
    elim (found family) [
      | none ↦ done tt
      | some f ↦ (do ended ← attempt (P.revoke_family f.id); done tt)
    ]

  unfoldable pub logout : String → String → Op S (Unit {0})
  unfolding logout_at
  logout access refresh_tk s = logout_at (P.now s) access refresh_tk s

  -- With the user that the token names.
  unfoldable pub mfa_check : User → String → Op S TokenPair
  mfa_check u code = elim u.mfa_secret [
    | none ↦ fail (app_error bad_request "MFA is not enabled for this account")
    | some secret ↦
        if not u.mfa_enabled || str_eq secret ""
        then fail (app_error bad_request "MFA is not enabled for this account")
        else (do
          matches ← P.totp_verify secret code
          if matches
              then create_tokens P (payload_of u)
              else fail (app_error unauthorized "Invalid MFA code"))
  ]

  unfoldable pub mfa_verify : String → String → Op S TokenPair
  unfolding mfa_check
  mfa_verify mfa_token code = do
    token ← attempt (P.verify_token mfa_token)
    elim token [
      | err e ↦ fail (app_error unauthorized "Invalid or expired MFA token")
      | ok payload ↦ (do u ← P.find_by_id payload.sub; mfa_check u code)
    ]
