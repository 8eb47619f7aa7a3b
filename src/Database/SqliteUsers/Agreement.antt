-- ===== src/Database/SqliteUsers/Agreement.antt =====
-- The repository over SQLite answers as the one in memory does, but for an email that is taken.
use mathlib.Core.Option
use onlyapi.Base.{
  absent_some, some_inj, Bool-cases, subst, sym, delete-Distinct, get-delete, Bool, Option-cases,
  String, ap, arith, false, get, inl, inr, none, some, true, ℕ, ◌≡◌, ◌∙◌, delete,
}
use onlyapi.Core.Errors.{app_error, conflict}
use onlyapi.Core.Results.{err, Outcome}
use onlyapi.Core.Users.{User}
use onlyapi.Database.SqliteUsers.{
  UserTable, create_row, delete_row, find_row, find_row_by_email, is_taken, row_to_user,
  update_row_of, UserRow,
}
use onlyapi.Database.SqliteUsers.Rows.{get-view, view, is_taken-others, seen}
use onlyapi.Database.SqliteUsers.Statements.{
  find_row-view, find_row_by_email-view, delete_row-view, create_row-view, update_row_of-view,
  update_row_of-refused, is_refused,
}
use onlyapi.Database.Users.Emails.{IsSound, IsSound-set, create_lem}
use onlyapi.Database.Users.{
  CreateUserData, UpdateUserData, create, find_by_email, find_by_id, remove, update, updated,
  UserStore,
}

-- The calls of a repository, and what they answer.
pub data UserCall : Type 0 where
  finds_id : String → UserCall
  finds_email : String → UserCall
  creates : String → CreateUserData → ℕ → UserCall
  updates : String → UpdateUserData → ℕ → UserCall
  deletes : String → UserCall

pub data Reply : Type 0 where
  of_user : Outcome User → Reply
  of_unit : Outcome (Unit {0}) → Reply

abbrev pub run_sqlite : UserCall → UserTable → Reply × UserTable
run_sqlite (finds_id id) m = (of_user (find_row id m), m)
run_sqlite (finds_email email) m = (of_user (find_row_by_email email m), m)
run_sqlite (creates id d now) m = let (r, m') = create_row id d now m in (of_user r, m')
run_sqlite (updates id d now) m = let (r, m') = update_row_of id d now m in (of_user r, m')
run_sqlite (deletes id) m = let (r, m') = delete_row id m in (of_unit r, m')

abbrev pub run_memory : UserCall → UserStore → Reply × UserStore
run_memory (finds_id id) m = (of_user (find_by_id id m), m)
run_memory (finds_email email) m = (of_user (find_by_email email m), m)
run_memory (creates id d now) m = let (r, m') = create id d now m in (of_user r, m')
run_memory (updates id d now) m = let (r, m') = update id d now m in (of_user r, m')
run_memory (deletes id) m = let (r, m') = remove id m in (of_unit r, m')

-- The id that is generated is new.
abbrev pub HasNewId : UserCall → UserTable → Type 0
HasNewId (creates id d now) m = get id m ≡ none
HasNewId _ m = Unit

-- An update to the email of another row.
abbrev pub takes_email : UserCall → UserTable → Bool
takes_email (updates id d now) m = is_refused id d m
takes_email _ m = false

agrees :
    (c : UserCall) (m : UserTable)
    → HasNewId c m
    → takes_email c m ≡ false
    → let (r, m') = run_sqlite c m in (r, view m') ≡ run_memory c (view m)
agrees (finds_id id) m new free = ap (λ r. (of_user r, view m)) (find_row-view id m)
agrees (finds_email email) m new free =
    ap (λ r. (of_user r, view m)) (find_row_by_email-view email m)
agrees (creates id d now) m new free =
    ap (λ (p : Outcome User × UserStore). (of_user p.0, p.1)) (create_row-view id d now m new)
agrees (updates id d now) m new free =
    ap (λ (p : Outcome User × UserStore). (of_user p.0, p.1)) (update_row_of-view id d now m free)
agrees (deletes id) m new free =
    ap (λ (p : Outcome (Unit {0}) × UserStore). (of_unit p.0, p.1)) (delete_row-view id m)

refused :
    (c : UserCall) (m : UserTable)
    → takes_email c m ≡ true
    → run_sqlite c m ≡ (of_user (err (app_error conflict "Email already exists")), m)
refused (updates id d now) m taken =
    ap (λ (p : Outcome User × UserTable). (of_user p.0, p.1))
      (update_row_of-refused id d now m taken)
refused (finds_id id) m taken = absurd cc
refused (finds_email email) m taken = absurd cc
refused (creates id d now) m taken = absurd cc
refused (deletes id) m taken = absurd cc

create-IsSound :
    (id : String) (d : CreateUserData) (now : ℕ) (m : UserStore)
    → IsSound m
    → get id m ≡ none
    → IsSound (create id d now m).1
create-IsSound id d now m s new = (create_lem id d now m s new).0

delete-IsSound : (id : String) (m : UserStore) → IsSound m → IsSound (delete id m)
delete-IsSound id m s = record {
  distinct = delete-Distinct id m s.distinct;
  keyed = λ k u g. ground (arith, get-delete k id m, s.keyed k u);
  unique =
      λ k j u v gu gv e. ground (arith, get-delete k id m, get-delete j id m, s.unique k j u v);
}

remove-IsSound : (id : String) (m : UserStore) → IsSound m → IsSound (remove id m).1
unfolding remove
remove-IsSound id m s = ground (arith, delete-IsSound id m s)

view_entry :
    (k : String) (v : User) (m : UserTable)
    → get k (view m) ≡ some v
    → (row : UserRow) × (get k m ≡ some row) × (row_to_user row ≡ v)
view_entry k v m g = elim (Option-cases (get k m)) [
  | inl n ↦ absurd (absent_some (sym g ∙ get-view k m ∙ ap seen n))
  | inr (row, h) ↦ (row, h, some_inj (sym (ap seen h) ∙ sym (get-view k m) ∙ g))
]

update_free-IsSound :
    (id : String) (d : UpdateUserData) (now : ℕ) (m : UserTable)
    → IsSound (view m)
    → is_refused id d m ≡ false
    → IsSound (update id d now (view m)).1
unfolding update updated row_to_user
update_free-IsSound id d now m s free = elim (Option-cases (get id m)) [
  | inl n ↦ let n' : get id (view m) ≡ none = get-view id m ∙ ap seen n in rw (n', update) s
  | inr (row, g) ↦
      let g' : get id (view m) ≡ some (row_to_user row) = get-view id m ∙ ap seen g in
      let email = Option.get_or d.email row.email in
      let open_ : is_taken id email m ≡ false = ground arith in
      let only : (k : String) (v : User) → get k (view m) ≡ some v → v.email ≡ email → k ≡ id =
        λ k v gv e.
          let (w, h, same) = view_entry k v m gv in
          is_taken-others id email k w m open_ h (ap (λ u. u.email) same ∙ e) in
      rw (g', update)
        (IsSound-set (view m) id (updated d now (row_to_user row)) s
          (s.keyed id (row_to_user row) g') only)
]

memory-IsSound :
    (c : UserCall) (m : UserTable)
    → IsSound (view m)
    → HasNewId c m
    → takes_email c m ≡ false
    → IsSound (run_memory c (view m)).1
memory-IsSound (finds_id id) m s new free = s
memory-IsSound (finds_email email) m s new free = s
memory-IsSound (creates id d now) m s new free =
    create-IsSound id d now (view m) s (get-view id m ∙ ap seen new)
memory-IsSound (updates id d now) m s new free = update_free-IsSound id d now m s free
memory-IsSound (deletes id) m s new free = remove-IsSound id (view m) s

-- In a sound table, where a created user gets a new id: the table stays sound, with every email in one
-- row at most. A call answers as the repository in memory does on the same users, and leaves the same
-- users, but for an update to the email of another row, which the table refuses as a conflict and which
-- changes nothing.
pub run_sqlite-agrees :
    (c : UserCall) (m : UserTable)
    → IsSound (view m)
    → HasNewId c m
    → let (r, m') = run_sqlite c m in
      IsSound (view m')
      × (takes_email c m ≡ false → (r, view m') ≡ run_memory c (view m))
      × (takes_email c m ≡ true
          → (r ≡ of_user (err (app_error conflict "Email already exists"))) × (m' ≡ m))
run_sqlite-agrees c m s new =
    let sound : IsSound (view (run_sqlite c m).1) = elim (Bool-cases (takes_email c m)) [
      | inl taken ↦ subst (λ p. IsSound (view p.1)) (sym (refused c m taken)) s
      | inr free ↦
          subst (λ p. IsSound p.1) (sym (agrees c m new free)) (memory-IsSound c m s new free)
    ] in
    (
      sound,
      agrees c m new,
      λ taken. (ap (λ p. p.0) (refused c m taken), ap (λ p. p.1) (refused c m taken)),
    )
