-- ===== src/Application/Auth/Memory.antt =====
-- The ports of the authentication service, filled by the modelled adapters: in-memory lockouts,
-- blacklist and users, and the table of refresh-token families. A call does not move the clock.
pub mod Laws
use onlyapi.Application.Auth.{Ports}
use onlyapi.Base.{String, ℕ, Bool, suc}
use onlyapi.Core.Results.{Outcome, ok}
use onlyapi.Core.Tokens.{TokenPair, TokenPayload}
use onlyapi.Database.Families
use onlyapi.Database.Users
use onlyapi.Security.Blacklist
use onlyapi.Security.Lockout
use onlyapi.Security.PasswordPolicy.{PasswordPolicyConfig, is_expired}

pub record System : Type 0 where
  pub clock : ℕ
  pub users : Users.UserStore
  pub lockouts : Lockout.LockoutStore
  pub blacklist : Blacklist.Blacklist
  pub families : Families.FamilyStore
  pub issued : ℕ

-- What the run time does: hashes, passwords, tokens and fresh ids; `ℕ` is the time.
pub record Platform : Type 0 where
  pub hash_token : String → String
  pub verify_password : String → String → Outcome Bool
  pub sign : TokenPayload → ℕ → Outcome TokenPair
  pub verify_token : String → ℕ → Outcome TokenPayload
  pub refresh_token : String → ℕ → Outcome TokenPair
  pub totp_verify : String → String → ℕ → Outcome Bool
  pub generate_id : ℕ → String
  pub lockout_config : Lockout.LockoutConfig
  pub policy : PasswordPolicyConfig

unfoldable pub memory_ports : Platform → Ports System
memory_ports E = record {
  now = λ s. s.clock;
  hash_token = E.hash_token;
  verify_password = λ password hash s. (E.verify_password password hash, s);
  is_password_expired = λ t s. is_expired E.policy t s.clock;
  find_by_id = λ id s. (Users.find_by_id id s.users, s);
  find_by_email = λ email s. (Users.find_by_email email s.users, s);
  is_locked = λ email s.
      let (r, m) = Lockout.is_locked email s.clock s.lockouts in (ok r, record s { lockouts = m });
  record_failed_attempt = λ email s.
      let (r, m) = Lockout.record_failed_attempt E.lockout_config email s.clock s.lockouts in
      (ok r, record s { lockouts = m });
  reset_attempts =
      λ email s. (ok tt, record s { lockouts = Lockout.reset_attempts email s.lockouts });
  sign = λ payload s. (E.sign payload s.clock, s);
  verify_token = λ token s. (E.verify_token token s.clock, s);
  refresh_token = λ token s. (E.refresh_token token s.clock, s);
  totp_verify = λ secret code s. (E.totp_verify secret code s.clock, s);
  is_blacklisted = λ hash s.
      let (r, b) = Blacklist.is_blacklisted hash s.clock s.blacklist in
      (ok r, record s { blacklist = b });
  add_blacklisted = λ hash t s. (ok tt, record s { blacklist = Blacklist.add hash t s.blacklist });
  create_family = λ user hash s.
      let (r, m) = Families.create_family (E.generate_id s.issued) user hash s.clock s.families in
      (r, record s { families = m; issued = suc s.issued });
  find_by_token_hash = λ hash s. (ok (Families.find_by_token_hash hash s.families), s);
  rotate = λ id old_hash new_hash s.
      let (r, m) = Families.rotate id old_hash new_hash s.clock s.families in
      (r, record s { families = m });
  revoke_family =
      λ id s. (ok tt, record s { families = Families.revoke_family id s.clock s.families });
  revoke_all_for_user = λ user s.
      (ok tt, record s { families = Families.revoke_all_for_user user s.clock s.families });
}
