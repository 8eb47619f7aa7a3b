-- ===== src/Database/SqliteUsers.antt =====
-- src/infrastructure/database/sqlite-user.repository.ts, on the rows of the table users by primary
-- key, with the texts of the statements left out. A statement that a UNIQUE column refuses throws;
-- other failures of the database are left out. `generateId` and the clock are arguments.
pub mod Rows
pub mod Statements
pub mod Agreement
pub mod Pages
pub mod Searches
mod Tests
use onlyapi.Base.{
  Bool, List, Map, Option, String, [], delete, false, filter, find_value, get, has, if◌then◌else◌,
  length, ltb, map, min, none, not, set, some, str_eq, take, true, ℕ, ◌&&◌, ◌+◌, ◌++◌, ◌==◌, ◌||◌,
  ◌∷◌,
}
use onlyapi.Core.Errors.{app_error, conflict, internal}
use onlyapi.Core.Pages.{PaginatedResult, UserListOptions}
use onlyapi.Core.Results.{Outcome, err, ok}
use onlyapi.Core.Users.{User, UserRole}
use onlyapi.Database.Users.{CreateUserData, UpdateUserData, new_user, not_found_user, update}
use onlyapi.Database.Users.Pages.{last, role_eq}

pub record UserRow : Type 0 where
  pub id : String
  pub email : String
  pub password_hash : String
  pub role : UserRole
  pub email_verified : ℕ
  pub mfa_secret : Option String
  pub mfa_enabled : ℕ
  pub password_changed_at : Option ℕ
  pub failed_login_attempts : ℕ
  pub locked_until : Option ℕ
  pub created_at : ℕ
  pub updated_at : ℕ

abbrev pub UserTable : Type 0
UserTable = Map UserRow

pub row_to_user : UserRow → User
row_to_user row = record {
  id = row.id;
  email = row.email;
  password_hash = row.password_hash;
  role = row.role;
  email_verified = row.email_verified == 1;
  mfa_enabled = row.mfa_enabled == 1;
  mfa_secret = row.mfa_secret;
  password_changed_at = row.password_changed_at;
  created_at = row.created_at;
  updated_at = row.updated_at;
}

-- An entry of the SET clause: a column with its value.
pub data Assignment : Type 0 where
  set_email : String → Assignment
  set_password_hash : String → Assignment
  set_role : UserRole → Assignment
  set_email_verified : ℕ → Assignment
  set_mfa_enabled : ℕ → Assignment
  set_mfa_secret : Option String → Assignment
  set_password_changed_at : ℕ → Assignment
  set_updated_at : ℕ → Assignment

-- `if (v !== undefined) fields.push(...)`
abbrev pub push_if : {A : Type 0} → Option A → (A → Assignment) → List Assignment → List Assignment
push_if none column rest = rest
push_if (some v) column rest = column v ∷ rest

-- `flag ? 1 : 0`
abbrev pub flag_bit : Bool → ℕ
flag_bit b = if b then 1 else 0

pub build_update_fields : UpdateUserData → ℕ → List Assignment
build_update_fields d now = push_if d.email set_email (
    push_if d.password_hash set_password_hash (
      push_if d.role set_role (
        push_if d.email_verified (λ b. set_email_verified (flag_bit b))
          (push_if d.mfa_enabled (λ b. set_mfa_enabled (flag_bit b))
            (push_if d.mfa_secret set_mfa_secret
              (push_if d.password_changed_at set_password_changed_at (set_updated_at now ∷ [])))))))

-- What the database does to a row for one entry, and for the whole clause.
pub assign : Assignment → UserRow → UserRow
assign (set_email v) row = record row { email = v }
assign (set_password_hash v) row = record row { password_hash = v }
assign (set_role v) row = record row { role = v }
assign (set_email_verified v) row = record row { email_verified = v }
assign (set_mfa_enabled v) row = record row { mfa_enabled = v }
assign (set_mfa_secret v) row = record row { mfa_secret = v }
assign (set_password_changed_at v) row = record row { password_changed_at = some v }
assign (set_updated_at v) row = record row { updated_at = v }

pub assign_all : List Assignment → UserRow → UserRow
unfolding assign
assign_all [] row = row
assign_all (a ∷ rest) row = assign_all rest (assign a row)

-- Another row has the email, so that the UNIQUE column refuses it for the row of the id.
pub is_taken : String → String → UserTable → Bool
is_taken id email [] = false
is_taken id email ((k, row) ∷ m) =
    not (str_eq k id) && str_eq row.email email || is_taken id email m

-- `SELECT * FROM users WHERE id = ?`
pub find_row : String → UserTable → Outcome User
unfolding row_to_user
find_row id m = elim (get id m) [ none ↦ err not_found_user | some row ↦ ok (row_to_user row) ]

-- `SELECT * FROM users WHERE email = ?`
pub find_row_by_email : String → UserTable → Outcome User
unfolding row_to_user
find_row_by_email email m = elim (find_value (λ row. str_eq row.email email) m) [
  | none ↦ err not_found_user
  | some row ↦ ok (row_to_user row)
]

-- The row that `insertStmt` writes.
pub inserted_row : String → CreateUserData → ℕ → UserRow
inserted_row id d now = record {
  id = id;
  email = d.email;
  password_hash = d.password_hash;
  role = d.role;
  email_verified = 0;
  mfa_secret = none;
  mfa_enabled = 0;
  password_changed_at = none;
  failed_login_attempts = 0;
  locked_until = none;
  created_at = now;
  updated_at = now;
}

pub create_row : String → CreateUserData → ℕ → UserTable → Outcome User × UserTable
unfolding is_taken inserted_row
create_row id d now m =
    if has id m || is_taken id d.email m
    then (err (app_error conflict "Email already exists"), m)
    else (ok (new_user id d now), m ++ (id, inserted_row id d now) ∷ [])

pub update_row_of : String → UpdateUserData → ℕ → UserTable → Outcome User × UserTable
unfolding build_update_fields assign_all is_taken row_to_user
update_row_of id d now m = elim (get id m) [
  | none ↦ (err not_found_user, m)
  | some existing ↦
      let written = assign_all (build_update_fields d now) existing in
      let m' = set id written m in
      if is_taken id written.email m
      then (err (app_error conflict "Email already exists"), m)
      else elim (get id m') [
        | none ↦ (err (app_error internal "User disappeared after update"), m')
        | some row ↦ (ok (row_to_user row), m')
      ]
]

pub delete_row : String → UserTable → Outcome (Unit {0}) × UserTable
delete_row id m = elim (get id m) [
  | none ↦ (err not_found_user, m)
  | some row ↦ (ok tt, delete id m)
]

-- `SELECT COUNT(*) as cnt FROM users`
pub count_rows : UserTable → ℕ
count_rows m = length m

-- `SELECT failed_login_attempts, locked_until FROM users WHERE email = ?`
pub get_attempts : String → UserTable → Option (ℕ × Option ℕ)
get_attempts email m = elim (find_value (λ row. str_eq row.email email) m) [
  | none ↦ none
  | some row ↦ some (row.failed_login_attempts, row.locked_until)
]

-- `UPDATE users SET ... WHERE email = ?`
pub update_where : String → (UserRow → UserRow) → UserTable → UserTable
update_where email change [] = []
update_where email change ((k, row) ∷ m) =
    (k, if str_eq row.email email then change row else row) ∷ update_where email change m

pub increment_failed : String → UserTable → UserTable
unfolding update_where
increment_failed email m =
    update_where email (λ row. record row { failed_login_attempts = row.failed_login_attempts + 1 })
      m

pub lock_account : String → ℕ → ℕ → UserTable → UserTable
unfolding update_where
lock_account email until attempts m =
    update_where email
      (λ row. record row { locked_until = some until; failed_login_attempts = attempts }) m

pub reset_failed : String → UserTable → UserTable
unfolding update_where
reset_failed email m =
    update_where email (λ row. record row { failed_login_attempts = 0; locked_until = none }) m

-- The database and the run time: what ORDER BY created_at DESC makes of rows, the operator LIKE on a
-- text and a pattern, and the cursors as in the repository in memory.
pub record SqlTexts : Type 0 where
  pub order_by : List UserRow → List UserRow
  pub like : String → String → Bool
  pub around : String → String
  pub encode_cursor : ℕ → String
  pub decode_cursor : String → Option (ℕ → Bool)

-- `SELECT * FROM users` without a condition
pub rows_of : UserTable → List UserRow
rows_of [] = []
rows_of ((k, row) ∷ m) = row ∷ rows_of m

module _ (T : SqlTexts) where
  -- The conditions, joined by AND.
  pub satisfies : UserListOptions → UserRow → Bool
  unfolding role_eq
  satisfies o row =
      (elim o.cursor [
        | none ↦ true
        | some c ↦ elim (T.decode_cursor c) [ none ↦ true | some before ↦ before row.created_at ]
      ])
      && ((elim o.role [ none ↦ true | some r ↦ role_eq row.role r ])
          && (elim o.search [ none ↦ true | some q ↦ T.like row.email (T.around q) ]))

  -- The rows that the statement yields: one more than the limit at most.
  pub fetched : UserListOptions → UserTable → List UserRow
  unfolding satisfies rows_of
  fetched o m = take (min o.limit 100 + 1) (T.order_by (filter (satisfies o) (rows_of m)))

  pub page_of_rows : ℕ → List UserRow → PaginatedResult User
  unfolding row_to_user last
  page_of_rows limit rows =
      let has_more = ltb limit (length rows) in
      let items = map row_to_user (if has_more then take limit rows else rows) in
      let cursor : Option String = elim (last items) [
        | none ↦ none
        | some u ↦ some (T.encode_cursor u.created_at)
      ] in
      record { items = items; next_cursor = if has_more then cursor else none; has_more = has_more }

  pub list_rows : UserListOptions → UserTable → PaginatedResult User
  unfolding fetched page_of_rows
  list_rows o m = page_of_rows (min o.limit 100) (fetched o m)
