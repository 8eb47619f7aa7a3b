-- ===== src/Application/Auth/Tests.antt =====
-- The theorems about authentication at a concrete system, with a platform of plain functions.
use onlyapi.Application.Auth.Sessions.{refresh_check, refresh_rotate, refresh, logout, logout_at}
use onlyapi.Database.Users.{find_by_email, find_email}
use onlyapi.Database.Families.{RefreshTokenFamily, find_by_token_hash}
use onlyapi.Application.Auth.Memory.Laws.{memory-BlacklistLaws}
use onlyapi.Application.Auth.Replay.Interleaved.{rotation_spent, nothing_yet, rotates}
use onlyapi.Application.Auth.Replay.Requests.{at_once, logout_spent}
use onlyapi.Application.Auth.{
  Ports, found, login, mfa_response, LoginResponse, login_verified, revoked_token,
}
use onlyapi.Application.Auth.Login.{Grants, login-ok, login_verified-mfa}
use onlyapi.Application.Auth.Memory.{Platform, System, memory_ports}
use onlyapi.Base.{
  find_value, get, delete, [], decimal, false, none, refl, some, str_eq, true, ◌∷◌, ◌≡◌, arith,
}
use onlyapi.Core.Results.{ok, err}
use onlyapi.Core.Tokens.{TokenPair}
use onlyapi.Core.Users.{User, user}
use onlyapi.Security.Lockout.{default_config, is_locked, reset_attempts}
use onlyapi.Security.PasswordPolicy.{is_expired}
use onlyapi.Security.Blacklist.{is_blacklisted}

abbrev platform : Platform
platform = record {
  hash_token = λ token. token;
  verify_password = λ password hash. ok (str_eq password hash);
  sign = λ payload now. ok (record { access_token = "a1"; refresh_token = "r1" });
  verify_token = λ token now. ok (record { sub = "1"; role = user });
  refresh_token = λ token now. ok (record { access_token = "a2"; refresh_token = "r2" });
  totp_verify = λ secret code now. ok (str_eq code "123456");
  generate_id = λ n. decimal n;
  lockout_config = default_config;
  policy = record {
    min_length = 8;
    require_uppercase = false;
    require_lowercase = false;
    require_digit = false;
    require_special = false;
    history_count = 0;
    max_age_days = 0;
  };
}

abbrev ann : User
ann = record {
  id = "1";
  email = "ann@x.org";
  password_hash = "pw";
  role = user;
  email_verified = true;
  mfa_enabled = true;
  mfa_secret = some "JBSWY3DP";
  password_changed_at = none;
  created_at = 5;
  updated_at = 5;
}

abbrev session_r1 : RefreshTokenFamily
session_r1 = record {
  id = "f1";
  user_id = "1";
  current_token_hash = "r1";
  revoked = false;
  created_at = 6;
  updated_at = 6;
}

abbrev system : System
system = record {
  clock = 100;
  users = ("1", ann) ∷ [];
  lockouts = [];
  blacklist = record { store = []; last_prune = 0 };
  families = ("f1", session_r1) ∷ [];
  issued = 7;
}

abbrev ports : Ports System
ports = memory_ports platform

login-ok_example :
    (found (ports.is_locked "ann@x.org" system).0 ≡ none)
    × ((u : User) × ((ports.find_by_email "ann@x.org" (ports.is_locked "ann@x.org" system).1).0
          ≡ ok u)
        × (let (matches, s3) =
              ports.verify_password "pw" u.password_hash
                (ports.find_by_email "ann@x.org" (ports.is_locked "ann@x.org" system).1).1 in
            (matches ≡ ok true)
            × (ports.is_password_expired u.password_changed_at
                  (ports.reset_attempts "ann@x.org" s3).1
                ≡ false)
            × Grants ports "ann@x.org" u s3
                (mfa_response (record { access_token = "a1"; refresh_token = "r1" }))))
unfolding memory_ports login is_locked find_by_email find_email find_value is_expired reset_attempts
    get delete
login-ok_example =
    login-ok ports "ann@x.org" "pw" system
      (mfa_response (record { access_token = "a1"; refresh_token = "r1" })) refl

challenge_is_a_token :
    (r' : LoginResponse) × ((login_verified ports "ann@x.org"
        (record ann { mfa_enabled = false })
        system).0
      ≡ ok r')
    × ((mfa_response (record { access_token = "a1"; refresh_token = "r1" })).mfa_token
        ≡ some r'.access_token)
unfolding memory_ports login_verified is_expired
challenge_is_a_token =
    login_verified-mfa ports "ann@x.org" ann system
      (mfa_response (record { access_token = "a1"; refresh_token = "r1" })) refl refl

logout_spent_example : (refresh ports "r1" (logout ports "a1" "r1" system).1).0 ≡ err revoked_token
unfolding memory_ports logout logout_at find_by_token_hash find_value
logout_spent_example =
    logout_spent ports (memory-BlacklistLaws platform) "a1" "r1" system
      (logout ports "a1" "r1" system).1 at_once (omega arith)

abbrev pair_2 : TokenPair
pair_2 = record { access_token = "a2"; refresh_token = "r2" }

abbrev written : System
written = (refresh_rotate ports "r1" (some session_r1) pair_2 system).1

-- The first of two refreshes that both checked has made its writes; then the second makes its own.
rotation_spent_example :
    let t = (refresh_rotate ports "r1" (some session_r1) pair_2 written).1 in
    ((refresh_rotate ports "r1" (some session_r1) pair_2 system).0 ≡ ok pair_2)
    × ((refresh_check ports "r1" t).0 ≡ err revoked_token)
    × (refresh ports "r1" t ≡ (err revoked_token, (ports.is_blacklisted "r1" t).1))
unfolding memory_ports refresh_rotate
rotation_spent_example =
    rotation_spent platform "r1" (some session_r1) pair_2 system
      (refresh_rotate ports "r1" (some session_r1) pair_2 written).1
      (rotates "r1" (some session_r1) pair_2 nothing_yet) (omega arith)

-- Two refreshes with one token that both check before either writes: both are given a pair.
both_exchanged :
    let s1 = (refresh_check ports "r1" system).1 in
    let (first, s2) = refresh_rotate ports "r1" (some session_r1) pair_2 s1 in
    ((refresh_check ports "r1" s1).0 ≡ ok (some session_r1))
    × (first ≡ ok pair_2)
    × ((refresh_rotate ports "r1" (some session_r1) pair_2 s2).0 ≡ ok pair_2)
unfolding memory_ports refresh_check refresh_rotate is_blacklisted find_by_token_hash find_value get
both_exchanged = (refl, refl, refl)
