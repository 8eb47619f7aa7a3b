-- ===== src/Core/Users.antt =====
-- src/core/entities/user.entity.ts. Ids and texts are `String`, time stamps are milliseconds.
use onlyapi.Base.{ℕ, String, Bool, Option}

pub data UserRole : Type 0 where
  admin user : UserRole

pub record User : Type 0 where
  pub id : String
  pub email : String
  pub password_hash : String
  pub role : UserRole
  pub email_verified : Bool
  pub mfa_enabled : Bool
  pub mfa_secret : Option String
  pub password_changed_at : Option ℕ
  pub created_at : ℕ
  pub updated_at : ℕ
