-- ===== src/Application/AdminService/Tests.antt =====
-- A ban at a concrete repository.
use onlyapi.Core.Pages.{PaginatedResult, UserListOptions}
use onlyapi.Application.AdminService.Bans.{AdminSystem}
use onlyapi.Base.{[], false, none, ◌∷◌, true}
use onlyapi.Core.Results.{Outcome, ok}
use onlyapi.Core.Users.{User, user}
use onlyapi.Database.Users.{UserStore}

abbrev eve : User
eve = record {
  id = "2";
  email = "eve@x.org";
  password_hash = "pw";
  role = user;
  email_verified = true;
  mfa_enabled = false;
  mfa_secret = none;
  password_changed_at = none;
  created_at = 1;
  updated_at = 1;
}

abbrev admin_system : AdminSystem
admin_system = record { users = ("2", eve) ∷ []; log = [] }

abbrev empty_page : UserListOptions → UserStore → Outcome (PaginatedResult User)
empty_page o m = ok (record { items = []; next_cursor = none; has_more = false })
