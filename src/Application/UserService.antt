-- ===== src/Application/UserService.antt =====
-- src/application/services/user.service.ts, over the repository and the hasher as ports. What is logged
-- is left out.
pub mod Profile
mod Tests
use onlyapi.Base.{Option, String, none, some, ℕ}
use onlyapi.Core.Operations.{Op, done, ◌>>=◌}
use onlyapi.Core.Users.{User, UserRole}
use onlyapi.Database.Users.{UpdateUserData}

-- A user without what is secret.
pub record UserView : Type 0 where
  pub id : String
  pub email : String
  pub role : UserRole
  pub created_at : ℕ
  pub updated_at : ℕ

abbrev pub to_view : User → UserView
to_view u = record {
  id = u.id;
  email = u.email;
  role = u.role;
  created_at = u.created_at;
  updated_at = u.updated_at;
}

pub record UserPorts (S : Type 0) : Type 0 where
  pub find_by_id : String → Op S User
  pub update_user : String → UpdateUserData → Op S User
  pub delete_user : String → Op S (Unit {0})
  pub hash_password : String → Op S String

pub record UpdateUserDto : Type 0 where
  pub email : Option String
  pub password : Option String

module _ {S : Type 0} (P : UserPorts S) where
  unfoldable pub get_by_id : String → Op S UserView
  get_by_id id = do u ← P.find_by_id id; done (to_view u)

  -- The hash of the new password, if there is one.
  unfoldable pub hash_of : Option String → Op S (Option String)
  hash_of none = done none
  hash_of (some password) = do hash ← P.hash_password password; done (some hash)

  unfoldable pub update_profile : String → UpdateUserDto → Op S UserView
  unfolding hash_of
  update_profile id dto = do
    hash ← hash_of dto.password
    u ← P.update_user id (record {
      email = dto.email;
      password_hash = hash;
      role = none;
      email_verified = none;
      mfa_enabled = none;
      mfa_secret = none;
      password_changed_at = none;
    })
    done (to_view u)

  unfoldable pub remove_user : String → Op S (Unit {0})
  remove_user id = P.delete_user id
