-- ===== src/Application/AdminService.antt =====
-- src/application/services/admin.service.ts, over the repository and the audit log as ports. What is
-- logged is left out.
pub mod Bans
mod Tests
use Prim.Native.String.{◌++◌ as append}
use onlyapi.Application.UserService.{UserView, to_view}
use onlyapi.Base.{Bool, List, Option, String, if◌then◌else◌, map, none, some, str_eq, ℕ}
use onlyapi.Core.Errors.{app_error, forbidden}
use onlyapi.Core.Operations.{Op, attempt, done, fail, ◌>>=◌}
use onlyapi.Core.Results.{err, ok}
use onlyapi.Core.Pages.{PaginatedResult, UserListOptions}
use onlyapi.Core.Users.{User, UserRole, admin, user}
use onlyapi.Database.Users.{UpdateUserData, not_found_user}

pub data AuditAction : Type 0 where
  user_registered user_logged_in user_logged_out user_login_failed user_updated : AuditAction
  user_deleted user_banned user_unbanned user_role_changed : AuditAction
  token_refreshed account_locked : AuditAction

-- An entry as it is appended: the log adds its id and its time.
pub record AuditEntry : Type 0 where
  pub user_id : Option String
  pub action : AuditAction
  pub resource : String
  pub resource_id : Option String
  pub detail : Option String
  pub ip : String

pub record AdminPorts (S : Type 0) : Type 0 where
  pub list : UserListOptions → Op S (PaginatedResult User)
  pub find_by_id : String → Op S User
  pub update_user : String → UpdateUserData → Op S User
  pub append_entry : AuditEntry → Op S (Unit {0})

abbrev pub role_text : UserRole → String
role_text admin = "admin"
role_text user = "user"

-- An update of the role alone.
abbrev pub to_role : UserRole → UpdateUserData
to_role role = record {
  email = none;
  password_hash = none;
  role = some role;
  email_verified = none;
  mfa_enabled = none;
  mfa_secret = none;
  password_changed_at = none;
}

-- An entry about a user.
abbrev pub entry : String → AuditAction → String → Option String → String → AuditEntry
entry actor_id action id detail ip = record {
  user_id = some actor_id;
  action = action;
  resource = "user";
  resource_id = some id;
  detail = detail;
  ip = ip;
}

module _ {S : Type 0} (P : AdminPorts S) where
  unfoldable pub list_users : UserListOptions → Op S (PaginatedResult UserView)
  list_users dto = do
    page ← P.list dto
    done (record {
      items = map to_view page.items;
      next_cursor = page.next_cursor;
      has_more = page.has_more;
    })

  unfoldable pub get_user : String → Op S UserView
  get_user id = do u ← P.find_by_id id; done (to_view u)

  unfoldable pub change_role : String → UserRole → String → String → Op S UserView
  change_role id role actor_id ip =
      if str_eq id actor_id then fail (app_error forbidden "Cannot change your own role") else (do
        existing ← P.find_by_id id
        u ← P.update_user id (to_role role)
        noted ← attempt (
            P.append_entry (
              entry actor_id user_role_changed id
                (some (
                  append "Role changed from "
                    (append (role_text existing.role) (append " to " (role_text role)))))
                ip))
        done (to_view u))

  unfoldable pub ban_user : String → Option String → String → String → Op S (Unit {0})
  ban_user id reason actor_id ip =
      if str_eq id actor_id then fail (app_error forbidden "Cannot ban yourself") else (do
        result ← attempt (P.find_by_id id)
        elim result [
          | err e ↦ fail not_found_user
          | ok existing ↦ (do
            u ← P.update_user id (to_role existing.role)
            noted ← attempt (P.append_entry (entry actor_id user_banned id reason ip))
            done tt)
        ])

  unfoldable pub unban_user : String → String → String → Op S (Unit {0})
  unban_user id actor_id ip = do
    result ← attempt (P.find_by_id id)
    elim result [
      | err e ↦ fail not_found_user
      | ok existing ↦ (do
        noted ← attempt (P.append_entry (entry actor_id user_unbanned id none ip))
        done tt)
    ]
