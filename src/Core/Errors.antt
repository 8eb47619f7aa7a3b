-- ===== src/Core/Errors.antt =====
-- src/core/errors/app-error.ts, with the violations that src/infrastructure/security/password-policy.ts
-- puts into an error's details. The optional `cause` is only logged, and is left out.
use onlyapi.Base.{ℕ, String, List, Option, none, some}

pub data ErrorCode : Type 0 where
  bad_request unauthorized forbidden not_found conflict rate_limited validation : ErrorCode
  internal service_unavailable timeout : ErrorCode

-- A message of the password policy; the first carries the configured length.
pub data Violation : Type 0 where
  too_short : ℕ → Violation
  no_uppercase no_lowercase no_digit no_special : Violation

pub record AppError : Type 0 where
  pub code : ErrorCode
  pub message : String
  pub details : Option (List Violation)

unfoldable pub http_status : ErrorCode → ℕ
http_status bad_request = 400
http_status unauthorized = 401
http_status forbidden = 403
http_status not_found = 404
http_status conflict = 409
http_status rate_limited = 429
http_status validation = 422
http_status internal = 500
http_status service_unavailable = 503
http_status timeout = 504

abbrev pub app_error : ErrorCode → String → AppError
app_error code message = record { code = code; message = message; details = none }

abbrev pub policy_error : String → List Violation → AppError
policy_error message vs = record { code = bad_request; message = message; details = some vs }
