-- ===== src/Core/Tokens.antt =====
-- src/core/ports/token-service.ts.
use onlyapi.Base.{String}
use onlyapi.Core.Users.{UserRole}

pub record TokenPayload : Type 0 where
  pub sub : String
  pub role : UserRole

pub record TokenPair : Type 0 where
  pub access_token : String
  pub refresh_token : String
