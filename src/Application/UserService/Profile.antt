-- ===== src/Application/UserService/Profile.antt =====
-- A change of a profile, with the in-memory repository behind the service.
use onlyapi.Application.UserService.{UpdateUserDto, UserPorts, to_view, update_profile}
use onlyapi.Base.{String, arith, get, get-set_self, none, some, ℕ, ◌≡◌, refl}
use onlyapi.Core.Results.{Outcome, ok}
use onlyapi.Core.Users.{User}
use onlyapi.Database.Users
use onlyapi.Database.Users.{UserStore, update, updated, find_by_id, remove, UpdateUserData}

abbrev pub profile_ports : (String → Outcome String) → ℕ → UserPorts UserStore
profile_ports hash now = record {
  find_by_id = λ id m. (Users.find_by_id id m, m);
  update_user = λ id d m. Users.update id d now m;
  delete_user = λ id m. Users.remove id m;
  hash_password = λ password m. (hash password, m);
}

-- Where the hasher hashes the new password of a user who exists, a change of the profile stores that
-- hash, and leaves the time of the last change of the password as it was.
update_profile-age :
    (hash : String → Outcome String) (now : ℕ) (id password h : String) (u : User) (m : UserStore)
    → get id m ≡ some u
    → hash password ≡ ok h
    → let dto : UpdateUserDto = record { email = none; password = some password } in
      let (r, m') = update_profile (profile_ports hash now) id dto m in
      (v : User) × (r ≡ ok (to_view v))
      × (get id m' ≡ some v)
      × (v.password_hash ≡ h)
      × (v.password_changed_at ≡ u.password_changed_at)
unfolding update_profile update
update_profile-age hash now id password h u m g e =
    let d : UpdateUserData = record {
      email = none;
      password_hash = some h;
      role = none;
      email_verified = none;
      mfa_enabled = none;
      mfa_secret = none;
      password_changed_at = none;
    } in
    let v = updated d now u in
    (
      v,
      ground arith,
      ground (arith, get-set_self id v m),
      unfold updated in refl,
      unfold updated in refl,
    )
