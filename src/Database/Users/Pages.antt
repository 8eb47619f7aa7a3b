-- ===== src/Database/Users/Pages.antt =====
-- `list` of src/infrastructure/database/in-memory-user.repository.ts, over the
-- cursors of src/core/types/pagination.ts.
pub mod Order
pub mod Walk
mod Tests
use onlyapi.Base.{
  filter, take, Bool, List, Option, String, [], if◌then◌else◌, length, leb, ltb, min, none, some,
  true, false, ℕ, ◌∷◌,
}
use onlyapi.Core.Pages.{PaginatedResult, UserListOptions}
use onlyapi.Core.Users.{User, UserRole, admin, user}
use onlyapi.Database.Users.{UserStore}

-- The run time's base64, numbers and texts: `encode_cursor` of a time stamp; what `decode_cursor`
-- and `Number` make of a cursor, `none` for null, as the time stamps that are `<` it; and whether an
-- email includes a text in lower case.
pub record Texts : Type 0 where
  pub encode_cursor : ℕ → String
  pub decode_cursor : String → Option (ℕ → Bool)
  pub includes_lower : String → String → Bool

-- `sort((a, b) => b.createdAt - a.createdAt)`, which keeps the order of equal users.
unfoldable pub insert : User → List User → List User
insert u [] = u ∷ []
insert u (v ∷ vs) = if leb v.created_at u.created_at then u ∷ v ∷ vs else v ∷ insert u vs

unfoldable pub sort : List User → List User
unfolding insert
sort [] = []
sort (u ∷ us) = insert u (sort us)

-- `Array.from(store.values())`
unfoldable pub values : UserStore → List User
values [] = []
values ((id, u) ∷ m) = u ∷ values m

-- `items[items.length - 1]`
unfoldable pub last : List User → Option User
last [] = none
last (u ∷ []) = some u
last (u ∷ v ∷ us) = last (v ∷ us)

unfoldable pub role_eq : UserRole → UserRole → Bool
role_eq admin admin = true
role_eq user user = true
role_eq _ _ = false

module _ (T : Texts) where
  unfoldable pub before_cursor : Option String → User → Bool
  before_cursor none u = true
  before_cursor (some c) u = elim (T.decode_cursor c) [
    | none ↦ true
    | some before ↦ before u.created_at
  ]

  unfoldable pub has_role : Option UserRole → User → Bool
  unfolding role_eq
  has_role none u = true
  has_role (some r) u = role_eq u.role r

  unfoldable pub is_found : Option String → User → Bool
  is_found none u = true
  is_found (some q) u = T.includes_lower u.email q

  -- The users that an answer is cut from.
  unfoldable pub listed : UserListOptions → UserStore → List User
  unfolding values sort before_cursor has_role is_found
  listed o m =
      filter (is_found o.search)
        (filter (has_role o.role) (filter (before_cursor o.cursor) (sort (values m))))

  unfoldable pub page_of : ℕ → List User → PaginatedResult User
  unfolding last
  page_of limit users =
      let items = take limit users in
      let has_more = ltb limit (length users) in
      let cursor : Option String = elim (last items) [
        | none ↦ none
        | some u ↦ some (T.encode_cursor u.created_at)
      ] in
      record { items = items; next_cursor = if has_more then cursor else none; has_more = has_more }

  unfoldable pub list : UserListOptions → UserStore → PaginatedResult User
  unfolding listed page_of
  list o m = page_of (min o.limit 100) (listed o m)
