-- ===== src/Database/Users.antt =====
-- src/infrastructure/database/in-memory-user.repository.ts, and the data of
-- src/core/ports/user.repository.ts. An operation does not wait, so it reads the clock once, `now`.
pub mod Emails
pub mod Pages
mod Tests
use mathlib.Core.Option
use onlyapi.Base.{
  find_value, Bool, Map, Option, String, [], delete, false, get, has, if◌then◌else◌, length, none,
  not, set, some, str_eq, ℕ, ◌∷◌,
}
use onlyapi.Core.Errors.{AppError, app_error, conflict, not_found}
use onlyapi.Core.Results.{Outcome, err, ok}
use onlyapi.Core.Users.{User, UserRole}

pub record CreateUserData : Type 0 where
  pub email : String
  pub password_hash : String
  pub role : UserRole

-- A field that is `none` is left as it is; `mfa_secret` may be set to null, `some none`.
pub record UpdateUserData : Type 0 where
  pub email : Option String
  pub password_hash : Option String
  pub role : Option UserRole
  pub email_verified : Option Bool
  pub mfa_enabled : Option Bool
  pub mfa_secret : Option (Option String)
  pub password_changed_at : Option ℕ

abbrev pub UserStore : Type 0
UserStore = Map User

abbrev pub not_found_user : AppError
not_found_user = app_error not_found "User not found"

unfoldable pub find_by_id : String → UserStore → Outcome User
find_by_id id m = elim (get id m) [ none ↦ err not_found_user | some u ↦ ok u ]

abbrev pub has_email : String → User → Bool
has_email email u = str_eq u.email email

-- The first user with the email, in the order of the store.
unfoldable pub find_email : String → UserStore → Option User
find_email email m = find_value (has_email email) m

unfoldable pub find_by_email : String → UserStore → Outcome User
find_by_email email m = elim (find_email email m) [ none ↦ err not_found_user | some u ↦ ok u ]

-- The user that `create` makes; `id` is what `generateId` returns.
unfoldable pub new_user : String → CreateUserData → ℕ → User
new_user id data' now = record {
  id = id;
  email = data'.email;
  password_hash = data'.password_hash;
  role = data'.role;
  email_verified = false;
  mfa_enabled = false;
  mfa_secret = none;
  password_changed_at = none;
  created_at = now;
  updated_at = now;
}

unfoldable pub create : String → CreateUserData → ℕ → UserStore → Outcome User × UserStore
unfolding new_user
create id data' now m = elim (find_email data'.email m) [
  | some u ↦ (err (app_error conflict "Email already exists"), m)
  | none ↦ (ok (new_user id data' now), set id (new_user id data' now) m)
]

unfoldable pub updated : UpdateUserData → ℕ → User → User
updated d now u = record {
  id = u.id;
  email = Option.get_or d.email u.email;
  password_hash = Option.get_or d.password_hash u.password_hash;
  role = Option.get_or d.role u.role;
  email_verified = Option.get_or d.email_verified u.email_verified;
  mfa_enabled = Option.get_or d.mfa_enabled u.mfa_enabled;
  mfa_secret = Option.get_or d.mfa_secret u.mfa_secret;
  password_changed_at = elim d.password_changed_at [
    | none ↦ u.password_changed_at
    | some t ↦ some t
  ];
  created_at = u.created_at;
  updated_at = now;
}

unfoldable pub update : String → UpdateUserData → ℕ → UserStore → Outcome User × UserStore
unfolding updated
update id d now m = elim (get id m) [
  | none ↦ (err not_found_user, m)
  | some u ↦ (ok (updated d now u), set id (updated d now u) m)
]

unfoldable pub remove : String → UserStore → Outcome (Unit {0}) × UserStore
remove id m = if has id m then (ok tt, delete id m) else (err not_found_user, m)

-- `count`
unfoldable pub size : UserStore → ℕ
size m = length m
