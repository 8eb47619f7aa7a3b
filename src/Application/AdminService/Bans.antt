-- ===== src/Application/AdminService/Bans.antt =====
-- What a ban changes, with the in-memory repository behind the service.
use onlyapi.Core.Pages.{PaginatedResult, UserListOptions}
use onlyapi.Application.AdminService.{AdminPorts, AuditEntry, ban_user, entry, to_role, user_banned}
use onlyapi.Base.{List, Option, String, arith, get, get-set_self, some, str_eq_ne, ℕ, ◌∷◌, ◌≡◌, ◌≢◌}
use onlyapi.Core.Results.{Outcome, ok}
use onlyapi.Core.Users.{User}
use onlyapi.Database.Users
use onlyapi.Database.Users.{UserStore, find_by_id, update, updated}

pub record AdminSystem : Type 0 where
  pub users : UserStore
  pub log : List AuditEntry

-- The entries of the log, the last one first.
abbrev pub admin_ports :
    (UserListOptions → UserStore → Outcome (PaginatedResult User)) → ℕ → AdminPorts AdminSystem
admin_ports list now = record {
  list = λ o s. (list o s.users, s);
  find_by_id = λ id s. (Users.find_by_id id s.users, s);
  update_user = λ id d s. let (r, m) = Users.update id d now s.users in (r, record s { users = m });
  append_entry = λ e s. (ok tt, record s { log = e ∷ s.log });
}

-- A ban of another user is reported and logged, but of the user only the time of the last update
-- changes.
ban_user-nothing :
    (list : UserListOptions → UserStore → Outcome (PaginatedResult User)) (now : ℕ)
    (id actor_id ip : String) (reason : Option String) (u : User) (s : AdminSystem)
    → get id s.users ≡ some u
    → id ≢ actor_id
    → let (r, s') = ban_user (admin_ports list now) id reason actor_id ip s in
      (r ≡ ok tt)
      × (s'.log ≡ entry actor_id user_banned id reason ip ∷ s.log)
      × (get id s'.users ≡ some (record u { updated_at = now }))
unfolding ban_user find_by_id update updated
ban_user-nothing list now id actor_id ip reason u s g ne =
    let n = str_eq_ne id actor_id ne in
    let w = updated (to_role u.role) now u in
    (ground arith, ground arith, ground (arith, get-set_self id w s.users))
