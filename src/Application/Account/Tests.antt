-- ===== src/Application/Account/Tests.antt =====
-- The guards at a concrete system: its state counts the sessions that were revoked.
use onlyapi.Application.Account.{AccountPorts, password_reset, reset_password}
use onlyapi.Application.Account.Guards.{reset_password-ok}
use onlyapi.Application.Auth.{Ports}
use onlyapi.Base.{[], String, false, none, refl, some, str_eq, true, ℕ, ◌+◌, ◌≡◌}
use onlyapi.Core.Results.{ok}
use onlyapi.Core.Users.{User, user}

abbrev ann : User
ann = record {
  id = "1";
  email = "ann@x.org";
  password_hash = "pw";
  role = user;
  email_verified = true;
  mfa_enabled = true;
  mfa_secret = some "JBSWY3DP";
  password_changed_at = none;
  created_at = 5;
  updated_at = 5;
}

abbrev auth_ports : Ports ℕ
auth_ports = record {
  now = λ s. s;
  hash_token = λ token. token;
  verify_password = λ password hash s. (ok (str_eq password hash), s);
  is_password_expired = λ t s. false;
  find_by_id = λ id s. (ok ann, s);
  find_by_email = λ email s. (ok ann, s);
  is_locked = λ email s. (ok none, s);
  record_failed_attempt = λ email s. (ok false, s);
  reset_attempts = λ email s. (ok tt, s);
  sign = λ payload s. (ok (record { access_token = "a1"; refresh_token = "r1" }), s);
  verify_token = λ token s. (ok (record { sub = "1"; role = user }), s);
  refresh_token = λ token s. (ok (record { access_token = "a2"; refresh_token = "r2" }), s);
  totp_verify = λ secret code s. (ok (str_eq code "123456"), s);
  is_blacklisted = λ hash s. (ok false, s);
  add_blacklisted = λ hash t s. (ok tt, s);
  create_family = λ id hash s. (ok "f1", s);
  find_by_token_hash = λ hash s. (ok none, s);
  rotate = λ id old_hash new_hash s. (ok tt, s);
  revoke_family = λ id s. (ok tt, s + 1);
  revoke_all_for_user = λ id s. (ok tt, s + 1);
}

abbrev account_ports : AccountPorts ℕ
account_ports = record {
  auth = auth_ports;
  validate = λ password. record { valid = true; violations = [] };
  check_history = λ id password s. (ok false, s);
  history_count = 5;
  hash_password = λ password s. (ok password, s);
  create_user = λ d s. (ok ann, s);
  update_user = λ id d s. (ok ann, s);
  add_history = λ id hash s. (ok tt, s);
  prune_history = λ id n s. (ok tt, s);
  create_verification = λ id type ttl s. (ok "t1", s);
  verify_verification = λ token type s. (ok "1", s);
  invalidate_all = λ id type s. (ok tt, s);
  generate_secret = λ s. (ok "JBSWY3DP", s);
  generate_uri = λ secret email issuer. email;
  random_uuid = λ s. (ok "u", s);
  oauth_provider = λ name. none;
  find_by_provider = λ provider id s. (ok none, s);
  link = λ id provider provider_id email s. (ok (record { id = "o1"; user_id = id }), s);
}

reset_password-ok_example :
    let (id', s1) = account_ports.verify_verification "t1" password_reset 0 in
    (id : String) × (id' ≡ ok id)
    × ((account_ports.validate "Secret12").valid ≡ true)
    × ((account_ports.check_history id "Secret12" s1).0 ≡ ok false)
    × ((t : ℕ) × ((reset_password account_ports "t1" "Secret12" 0).1
          ≡ (account_ports.auth.revoke_all_for_user id t).1))
unfolding reset_password
reset_password-ok_example = reset_password-ok account_ports "t1" "Secret12" 0 refl
