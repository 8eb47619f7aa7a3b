-- ===== src/Application/Account.antt =====
-- The other calls of src/application/services/auth.service.ts: registration, verification of the email,
-- reset of the password, MFA and the login by an outside provider. They use the ports of Auth and those
-- of AccountPorts. What is logged is left out.
pub mod Guards
mod Tests
use Prim.Native.String.{◌++◌ as append}
use onlyapi.Application.Auth.{LoginResponse, Ports, create_tokens, found, full_response, payload_of}
use onlyapi.Base.{
  Bool, Option, String, if◌then◌else◌, none, not, some, str_eq, true, false, ℕ, ◌*◌, ◌||◌,
}
use onlyapi.Core.Errors.{AppError, app_error, bad_request, policy_error, unauthorized}
use onlyapi.Core.Operations.{Op, attempt, done, fail, lift, ◌>>=◌}
use onlyapi.Core.Results.{err, ok}
use onlyapi.Core.Tokens.{TokenPair}
use onlyapi.Core.Users.{User, user}
use onlyapi.Database.Users.{CreateUserData, UpdateUserData, find_by_email, find_by_id}
use onlyapi.Security.PasswordPolicy.{PasswordPolicyResult, Password}

pub data VerificationTokenType : Type 0 where
  email_verification password_reset : VerificationTokenType

pub record OauthUserInfo : Type 0 where
  pub provider_id : String
  pub email : String

pub record OauthAccount : Type 0 where
  pub id : String
  pub user_id : String

pub record AccountPorts (S : Type 0) : Type 0 where
  pub auth : Ports S
  pub validate : String → PasswordPolicyResult
  pub check_history : String → String → Op S Bool
  pub history_count : ℕ
  pub hash_password : String → Op S String
  pub create_user : CreateUserData → Op S User
  pub update_user : String → UpdateUserData → Op S User
  pub add_history : String → String → Op S (Unit {0})
  pub prune_history : String → ℕ → Op S (Unit {0})
  pub create_verification : String → VerificationTokenType → ℕ → Op S String
  pub verify_verification : String → VerificationTokenType → Op S String
  pub invalidate_all : String → VerificationTokenType → Op S (Unit {0})
  pub generate_secret : Op S String
  pub generate_uri : String → String → String → String
  pub random_uuid : Op S String
  pub oauth_provider : String → Option (String → String → Op S OauthUserInfo)
  pub find_by_provider : String → String → Op S (Option OauthAccount)
  pub link : String → String → String → String → Op S OauthAccount

pub record MfaSetupResponse : Type 0 where
  pub secret : String
  pub uri : String

-- The fields that an update leaves out.
abbrev pub no_update : UpdateUserData
no_update = record {
  email = none;
  password_hash = none;
  role = none;
  email_verified = none;
  mfa_enabled = none;
  mfa_secret = none;
  password_changed_at = none;
}

abbrev pub email_verify_ttl : ℕ
email_verify_ttl = 24 * 60 * 60 * 1000

abbrev pub password_reset_ttl : ℕ
password_reset_ttl = 60 * 60 * 1000

module _ {S : Type 0} (A : AccountPorts S) where
  -- With a user id, against that user's history too.
  unfoldable pub validate_password : String → Option String → Op S (Unit {0})
  validate_password password user_id =
      if not (A.validate password).valid
      then fail (
          policy_error "Password does not meet policy requirements"
            (A.validate password).violations)
      else elim user_id [
        | none ↦ done tt
        | some id ↦ (do
          reused ← A.check_history id password
          if reused
              then fail
                  (app_error bad_request "Password was recently used. Choose a different password.")
              else done tt)
      ]

  unfoldable pub register : String → String → Op S LoginResponse
  unfolding validate_password
  register email password = do
    allowed ← validate_password password none
    hash ← A.hash_password password
    u ← A.create_user (record { email = email; password_hash = hash; role = user })
    noted ← attempt (A.add_history u.id hash)
    token ← attempt (A.create_verification u.id email_verification email_verify_ttl)
    pair ← create_tokens A.auth (payload_of u)
    done (full_response pair)

  unfoldable pub verify_email : String → Op S (Unit {0})
  verify_email token = do
    id ← A.verify_verification token email_verification
    u ← A.update_user id (record no_update { email_verified = some true })
    done tt

  unfoldable pub resend_verification : String → Op S String
  resend_verification id = do
    gone ← attempt (A.invalidate_all id email_verification)
    A.create_verification id email_verification email_verify_ttl

  -- An unknown email is answered like a known one, with no token.
  unfoldable pub forgot_password : String → Op S String
  forgot_password email = do
    result ← attempt (A.auth.find_by_email email)
    elim result [
      | err e ↦ done ""
      | ok u ↦ (do
        gone ← attempt (A.invalidate_all u.id password_reset)
        A.create_verification u.id password_reset password_reset_ttl)
    ]

  -- The part of a reset after its checks.
  unfoldable pub store_password : String → String → Op S (Unit {0})
  store_password id password = do
    hash ← A.hash_password password
    u ← λ s.
        A.update_user id
          (record no_update {
            password_hash = some hash;
            password_changed_at = some (A.auth.now s);
          })
          s
    noted ← attempt (A.add_history id hash)
    pruned ← attempt (A.prune_history id A.history_count)
    revoked ← attempt (A.auth.revoke_all_for_user id)
    done tt

  unfoldable pub reset_password : String → String → Op S (Unit {0})
  unfolding validate_password store_password
  reset_password token password = do
    id ← A.verify_verification token password_reset
    allowed ← validate_password password (some id)
    store_password id password

  unfoldable pub mfa_setup : String → Op S MfaSetupResponse
  mfa_setup email = do
    secret ← A.generate_secret
    done (record { secret = secret; uri = A.generate_uri secret email "onlyApi" })

  unfoldable pub mfa_enable : String → String → String → Op S (Unit {0})
  mfa_enable id secret code = do
    matches ← A.auth.totp_verify secret code
    if not matches then fail (app_error unauthorized "Invalid MFA code") else (do
      u ←
          A.update_user id
            (record no_update { mfa_secret = some (some secret); mfa_enabled = some true })
      done tt)

  -- With the user that was found.
  unfoldable pub mfa_disable_for : String → User → String → Op S (Unit {0})
  mfa_disable_for id u code = elim u.mfa_secret [
    | none ↦ fail (app_error bad_request "MFA is not enabled")
    | some secret ↦
        if not u.mfa_enabled || str_eq secret ""
        then fail (app_error bad_request "MFA is not enabled")
        else (do
          matches ← A.auth.totp_verify secret code
          if not matches then fail (app_error unauthorized "Invalid MFA code") else (do
            v ←
                A.update_user id
                  (record no_update { mfa_secret = some none; mfa_enabled = some false })
            done tt))
  ]

  unfoldable pub mfa_disable : String → String → Op S (Unit {0})
  unfolding mfa_disable_for
  mfa_disable id code = do u ← A.auth.find_by_id id; mfa_disable_for id u code

  -- The account of an outside identity that is not linked yet: by its email, or new.
  unfoldable pub oauth_account : OauthUserInfo → Op S String
  oauth_account info = do
    result ← attempt (A.auth.find_by_email info.email)
    elim result [
      | ok u ↦ done u.id
      | err e ↦ (do
        secret ← A.random_uuid
        hash ← A.hash_password secret
        u ← A.create_user (record { email = info.email; password_hash = hash; role = user })
        marked ← attempt (A.update_user u.id (record no_update { email_verified = some true }))
        done u.id)
    ]

  unfoldable pub oauth_user_id : String → OauthUserInfo → Op S String
  unfolding oauth_account
  oauth_user_id provider info = do
    linked ← A.find_by_provider provider info.provider_id
    elim linked [
      | some a ↦ done a.user_id
      | none ↦ (do
        id ← oauth_account info
        a ← A.link id provider info.provider_id info.email
        done id)
    ]

  unfoldable pub oauth_login : String → String → String → Op S LoginResponse
  unfolding oauth_user_id
  oauth_login provider code redirect_uri = elim (A.oauth_provider provider) [
    | none ↦ fail (app_error bad_request (append "Unknown OAuth provider: " provider))
    | some exchange ↦ (do
      info ← exchange code redirect_uri
      id ← oauth_user_id provider info
      u ← A.auth.find_by_id id
      pair ← create_tokens A.auth (payload_of u)
      done (full_response pair))
  ]
