-- ===== src/Application/Auth.antt =====
-- src/application/services/auth.service.ts: login, refresh, logout and mfaVerify, over the ports that
-- createAuthService is given. Each port call is an operation on a state `S` of the whole system, the
-- clock included, and may fail; one call runs with no other request between its awaits. What is
-- logged is left out.
pub mod Login
pub mod Memory
pub mod Sessions
pub mod Replay
mod Tests
use Prim.Native.String.{◌++◌ as append}
use onlyapi.Base.{
  Bool, Option, String, decimal, false, if◌then◌else◌, none, not, some, true, ℕ, ◌*◌, ◌+◌, ◌-◌, ◌/◌,
  has,
}
use onlyapi.Core.Errors.{AppError, app_error, forbidden, unauthorized}
use onlyapi.Core.Operations.{Op, attempt, done, fail, ◌>>=◌}
use onlyapi.Core.Results.{Outcome, err, ok}
use onlyapi.Core.Tokens.{TokenPair, TokenPayload}
use onlyapi.Core.Users.{User, user}
use onlyapi.Database.Families.{RefreshTokenFamily}

-- The ports of `Deps` that these calls use. `is_expired` and `totp_verify` read the clock in `S`.
pub record Ports (S : Type 0) : Type 0 where
  pub now : S → ℕ
  pub hash_token : String → String
  pub verify_password : String → String → Op S Bool
  pub is_password_expired : Option ℕ → S → Bool
  pub find_by_id : String → Op S User
  pub find_by_email : String → Op S User
  pub is_locked : String → Op S (Option ℕ)
  pub record_failed_attempt : String → Op S Bool
  pub reset_attempts : String → Op S (Unit {0})
  pub sign : TokenPayload → Op S TokenPair
  pub verify_token : String → Op S TokenPayload
  pub refresh_token : String → Op S TokenPair
  pub totp_verify : String → String → Op S Bool
  pub is_blacklisted : String → Op S Bool
  pub add_blacklisted : String → ℕ → Op S (Unit {0})
  pub create_family : String → String → Op S String
  pub find_by_token_hash : String → Op S (Option RefreshTokenFamily)
  pub rotate : String → String → String → Op S (Unit {0})
  pub revoke_family : String → Op S (Unit {0})
  pub revoke_all_for_user : String → Op S (Unit {0})

-- `mfa_required` is false where the response has no such field.
pub record LoginResponse : Type 0 where
  pub access_token : String
  pub refresh_token : String
  pub mfa_required : Bool
  pub mfa_token : Option String

abbrev pub day_ms : ℕ
day_ms = 24 * 60 * 60 * 1000

abbrev pub revoked_token : AppError
revoked_token = app_error unauthorized "Token has been revoked"

abbrev pub bad_credentials : AppError
bad_credentials = app_error unauthorized "Invalid credentials"

-- `remaining_ms` is rounded up to minutes.
abbrev pub locked_error : ℕ → AppError
locked_error remaining_ms = app_error forbidden (
    append "Account locked. Try again in "
      (append (decimal ((remaining_ms + 59999) / 60000)) " minute(s)."))

-- `result.ok && result.value !== null`
abbrev pub found {ℓ} : {A : Type ℓ} → Outcome (Option A) → Option A
found (ok o) = o
found (err e) = none

-- `result.ok && result.value`
abbrev pub holds : Outcome Bool → Bool
holds (ok b) = b
holds (err e) = false

abbrev pub payload_of : User → TokenPayload
payload_of u = record { sub = u.id; role = u.role }

abbrev pub full_response : TokenPair → LoginResponse
full_response p = record {
  access_token = p.access_token;
  refresh_token = p.refresh_token;
  mfa_required = false;
  mfa_token = none;
}

abbrev pub mfa_response : TokenPair → LoginResponse
mfa_response p = record {
  access_token = "";
  refresh_token = "";
  mfa_required = true;
  mfa_token = some p.access_token;
}

module _ {S : Type 0} (P : Ports S) where
  unfoldable pub create_tokens : TokenPayload → Op S TokenPair
  create_tokens payload = do
    pair ← P.sign payload
    stored ← attempt (P.create_family payload.sub (P.hash_token pair.refresh_token))
    done pair

  -- After the password check.
  unfoldable pub login_verified : String → User → Op S LoginResponse
  unfolding create_tokens
  login_verified email u = do
    reset ← attempt (P.reset_attempts email)
    λ s.
        if P.is_password_expired u.password_changed_at s
        then fail (app_error forbidden "Password has expired. Please reset your password.") s
        else if u.mfa_enabled
        then (do pair ← P.sign (payload_of u); done (mfa_response pair)) s
        else (do pair ← create_tokens (payload_of u); done (full_response pair)) s

  unfoldable pub login_rejected : String → Op S LoginResponse
  login_rejected email = do
    locked ← attempt (P.record_failed_attempt email)
    if holds locked
        then fail
            (app_error forbidden "Account locked due to too many failed attempts. Try again later.")
        else fail bad_credentials

  unfoldable pub login_unlocked : String → String → Op S LoginResponse
  unfolding login_verified login_rejected
  login_unlocked email password = do
    result ← attempt (P.find_by_email email)
    elim result [
      | err e ↦ (do counted ← attempt (P.record_failed_attempt email); fail bad_credentials)
      | ok u ↦ (do
        matches ← P.verify_password password u.password_hash
        if matches then login_verified email u else login_rejected email)
    ]

  unfoldable pub login : String → String → Op S LoginResponse
  unfolding login_unlocked
  login email password = do
    lock ← attempt (P.is_locked email)
    λ s. elim (found lock) [
      | some t ↦ fail (locked_error (t - P.now s)) s
      | none ↦ login_unlocked email password s
    ]
