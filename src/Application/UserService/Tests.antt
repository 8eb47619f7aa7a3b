-- ===== src/Application/UserService/Tests.antt =====
-- A change of a profile at a concrete repository.
use onlyapi.Base.{[], false, none, some, ◌∷◌, String}
use onlyapi.Core.Results.{Outcome, ok}
use onlyapi.Core.Users.{User, user}
use onlyapi.Database.Users.{UserStore}

abbrev ann : User
ann = record {
  id = "1";
  email = "ann@x.org";
  password_hash = "old";
  role = user;
  email_verified = false;
  mfa_enabled = false;
  mfa_secret = none;
  password_changed_at = some 3;
  created_at = 2;
  updated_at = 3;
}

abbrev users : UserStore
users = ("1", ann) ∷ []

abbrev plain : String → Outcome String
plain password = ok password
