-- ===== src/Database/SqliteUsers/Statements.antt =====
-- Each operation over SQLite does what the one of the repository in memory does to the same users.
use mathlib.Core.Option
use onlyapi.Base.{
  Bool, Option-cases, String, [], ap, arith, false, get, get-set_self, has, inl, inr, none, refl,
  set, some, str_eq, true, ℕ, ◌++◌, ◌≡◌, ◌∷◌, ◌∙◌,
}
use onlyapi.Core.Errors.{app_error, conflict}
use onlyapi.Core.Results.{err}
use onlyapi.Database.SqliteUsers.{
  UserTable, create_row, delete_row, find_row, find_row_by_email, inserted_row, is_taken,
  row_to_user, update_row_of,
}
use onlyapi.Database.SqliteUsers.Rows.{
  append-set, assign_all-build, delete-view, find_value-view, get-view, is_taken_new, set-view,
  view, written-updated, written_row,
}
use onlyapi.Database.Users.{
  CreateUserData, UpdateUserData, create, find_by_email, find_by_id, find_email, new_user, remove,
  update, updated,
}

pub find_row-view : (id : String) (m : UserTable) → find_row id m ≡ find_by_id id (view m)
unfolding find_row find_by_id
find_row-view id m = ground (arith, get-view id m)

pub find_row_by_email-view :
    (email : String) (m : UserTable) → find_row_by_email email m ≡ find_by_email email (view m)
unfolding find_row_by_email find_by_email find_email row_to_user
find_row_by_email-view email m = ground (arith, find_value-view (λ u. str_eq u.email email) m)

pub delete_row-view :
    (id : String) (m : UserTable)
    → let (r, m') = delete_row id m in (r, view m') ≡ remove id (view m)
unfolding delete_row remove has
delete_row-view id m = ground (arith, get-view id m, delete-view id m)

inserted-new :
    (id : String) (d : CreateUserData) (now : ℕ)
    → row_to_user (inserted_row id d now) ≡ new_user id d now
unfolding row_to_user inserted_row new_user
inserted-new id d now = refl

pub create_row-view :
    (id : String) (d : CreateUserData) (now : ℕ) (m : UserTable)
    → get id m ≡ none
    → let (r, m') = create_row id d now m in (r, view m') ≡ create id d now (view m)
unfolding create_row create has find_email row_to_user
create_row-view id d now m new =
    let row = inserted_row id d now in
    let stored : view (m ++ (id, row) ∷ []) ≡ set id (new_user id d now) (view m) =
      ap view (append-set id row m new)
      ∙ set-view id row m
      ∙ ap (λ u. set id u (view m)) (inserted-new id d now) in
    ground (arith, find_value-view (λ u. str_eq u.email d.email) m, is_taken_new id d.email m new)

-- The email that the row of the id has after the update is another row's.
abbrev pub is_refused : String → UpdateUserData → UserTable → Bool
is_refused id d m = elim (get id m) [
  | none ↦ false
  | some row ↦ is_taken id (Option.get_or d.email row.email) m
]

pub update_row_of-view :
    (id : String) (d : UpdateUserData) (now : ℕ) (m : UserTable)
    → is_refused id d m ≡ false
    → let (r, m') = update_row_of id d now m in (r, view m') ≡ update id d now (view m)
unfolding update_row_of update
update_row_of-view id d now m free = elim (Option-cases (get id m)) [
  | inl n ↦ ground (arith, get-view id m)
  | inr (row, g) ↦
      let w = written_row d now row in
      let stored : view (set id w m) ≡ set id (updated d now (row_to_user row)) (view m) =
        set-view id w m ∙ ap (λ u. set id u (view m)) (written-updated d now row) in
      ground (
        arith,
        get-view id m,
        assign_all-build d now row,
        get-set_self id w m,
        written-updated d now row,
      )
]

pub update_row_of-refused :
    (id : String) (d : UpdateUserData) (now : ℕ) (m : UserTable)
    → is_refused id d m ≡ true
    → update_row_of id d now m ≡ (err (app_error conflict "Email already exists"), m)
unfolding update_row_of
update_row_of-refused id d now m taken = elim (Option-cases (get id m)) [
  | inl n ↦ ground arith
  | inr (row, g) ↦ ground (arith, assign_all-build d now row)
]
