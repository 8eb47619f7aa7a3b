-- ===== src/Core/Pages.antt =====
-- src/core/types/pagination.ts and the list options of src/core/ports/user.repository.ts.
use onlyapi.Base.{Bool, List, Option, String, ℕ}
use onlyapi.Core.Users.{UserRole}

pub record UserListOptions : Type 0 where
  pub cursor : Option String
  pub limit : ℕ
  pub search : Option String
  pub role : Option UserRole

pub record PaginatedResult (T : Type 0) : Type 0 where
  pub items : List T
  pub next_cursor : Option String
  pub has_more : Bool
