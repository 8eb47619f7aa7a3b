-- ===== src/Database/SqliteUsers/Tests.antt =====
-- Runs of the repository over SQLite, and its theorems at a concrete table.
use onlyapi.Base.{
  List, String, [], arith, eq_iff, false, get, if◌then◌else◌, leb, none, refl, some, true, ℕ, ◌≡◌,
  ◌∷◌, map, ap, find_value, ◌∙◌, All, Bool, codes, starts_with, subst, some_inj, ◌++◌,
}
use Prim.Native.Char.{code}
use Prim.Native.String.append
use onlyapi.Core.Errors.{app_error, conflict}
use onlyapi.Core.Pages.{UserListOptions}
use onlyapi.Core.Results.{err}
use onlyapi.Core.Users.{user}
use onlyapi.Database.SqliteUsers.{
  SqlTexts, UserRow, UserTable, get_attempts, increment_failed, is_taken, list_rows, lock_account,
  row_to_user, rows_of,
}
use onlyapi.Database.SqliteUsers.Agreement.{
  of_user, run_memory, run_sqlite, run_sqlite-agrees, takes_email, updates,
}
use onlyapi.Database.SqliteUsers.Pages.{Orders, memory_texts}
use onlyapi.Database.SqliteUsers.Searches.{
  IsLower, IsPlain, SearchLaws, any_tail, is_like, list_rows-list, lower,
}
use onlyapi.Database.SqliteUsers.Rows.{view}
use onlyapi.Database.Users.{UpdateUserData}
use onlyapi.Database.Users.Emails.{IsSound}
use onlyapi.Database.Users.Pages.{insert, list, sort, values}
use onlyapi.Database.Users.Pages.Order.{Apart}

abbrev row_at : String → String → ℕ → UserRow
row_at id email time = record {
  id = id;
  email = email;
  password_hash = "h";
  role = user;
  email_verified = 0;
  mfa_secret = none;
  mfa_enabled = 0;
  password_changed_at = none;
  failed_login_attempts = 0;
  locked_until = none;
  created_at = time;
  updated_at = time;
}

abbrev two_rows : UserTable
two_rows = ("1", row_at "1" "ann@x.org" 5) ∷ ("2", row_at "2" "bob@x.org" 7) ∷ []

two_rows-IsSound : IsSound (view two_rows)
unfolding get view row_to_user
two_rows-IsSound = record {
  distinct = (refl, (refl, tt));
  keyed = λ k u g. ground (arith, eq_iff "1" k, eq_iff "2" k);
  unique = λ k j u v gu gv e. ground (
    arith,
    eq_iff "1" k,
    eq_iff "2" k,
    eq_iff "1" j,
    eq_iff "2" j,
    eq_iff "ann@x.org" "bob@x.org",
  );
}

abbrev to_bob : UpdateUserData
to_bob = record {
  email = some "bob@x.org";
  password_hash = none;
  role = none;
  email_verified = none;
  mfa_enabled = none;
  mfa_secret = none;
  password_changed_at = none;
}

run_sqlite-agrees_example :
    let (r, m') = run_sqlite (updates "1" to_bob 9) two_rows in
    IsSound (view m')
    × (takes_email (updates "1" to_bob 9) two_rows ≡ false
        → (r, view m') ≡ run_memory (updates "1" to_bob 9) (view two_rows))
    × (takes_email (updates "1" to_bob 9) two_rows ≡ true
        → (r ≡ of_user (err (app_error conflict "Email already exists"))) × (m' ≡ two_rows))
run_sqlite-agrees_example = run_sqlite-agrees (updates "1" to_bob 9) two_rows two_rows-IsSound tt

bob_is_taken : takes_email (updates "1" to_bob 9) two_rows ≡ true
unfolding get is_taken
bob_is_taken = refl

counted :
    get_attempts "bob@x.org" (increment_failed "bob@x.org" (increment_failed "bob@x.org" two_rows))
    ≡ some (2, none)
unfolding get_attempts increment_failed find_value
counted = refl

locked : get_attempts "ann@x.org" (lock_account "ann@x.org" 900 5 two_rows) ≡ some (5, some 900)
unfolding get_attempts lock_account find_value
locked = refl

-- A database that orders as the repository in memory does.
insert_row : UserRow → List UserRow → List UserRow
insert_row row [] = row ∷ []
insert_row row (w ∷ ws) =
    if leb w.created_at row.created_at then row ∷ w ∷ ws else w ∷ insert_row row ws

abbrev sort_rows : List UserRow → List UserRow
sort_rows [] = []
sort_rows (row ∷ rows) = insert_row row (sort_rows rows)

insert_row-insert :
    (row : UserRow) (rows : List UserRow)
    → map row_to_user (insert_row row rows) ≡ insert (row_to_user row) (map row_to_user rows)
unfolding insert_row insert row_to_user
insert_row-insert row [] = refl
insert_row-insert row (w ∷ ws) = ground (arith, insert_row-insert row ws)

sort_rows-sort :
    (rows : List UserRow) → map row_to_user (sort_rows rows) ≡ sort (map row_to_user rows)
unfolding sort
sort_rows-sort [] = refl
sort_rows-sort (row ∷ rows) =
    insert_row-insert row (sort_rows rows) ∙ ap (insert (row_to_user row)) (sort_rows-sort rows)

-- `email.includes(search.toLowerCase())`, for ASCII.
unfoldable includes : String → String → Bool
unfolding any_tail
includes email search = any_tail (starts_with (map lower (codes search))) (codes email)

abbrev sql : SqlTexts
sql = record {
  order_by = sort_rows;
  like = λ email pattern. is_like (codes pattern) (codes email);
  around = λ search. Prim.Native.String.◌++◌ "%" (Prim.Native.String.◌++◌ search "%");
  encode_cursor = λ t. "c";
  decode_cursor = λ c. none;
}

sql-Orders : Orders sql
sql-Orders rows apart = sort_rows-sort rows

abbrev one_each : UserListOptions
one_each = record { cursor = none; limit = 1; search = some "Org"; role = some user }

two_rows-Apart : Apart (values (view two_rows))
unfolding Apart values view row_to_user
two_rows-Apart = ((omega arith, tt), (tt, tt))

codes-append : (q t : String) → codes (Prim.Native.String.◌++◌ q t) ≡ codes q ++ codes t
codes-append String.[] t = ap codes (append.nil t)
codes-append (String.◌∷◌ c q) t =
    ap codes (append.cons c q t) ∙ ap (λ cs. code c ∷ cs) (codes-append q t)

sql-SearchLaws : SearchLaws sql includes
unfolding includes
sql-SearchLaws = record {
  likes = λ email pattern. refl;
  around = λ q.
      codes-append "%" (Prim.Native.String.◌++◌ q "%") ∙ ap (λ cs. b'%' ∷ cs) (codes-append q "%");
  includes_lower = λ email q plain. refl;
}

org-IsPlain : (q : String) → some "Org" ≡ some q → IsPlain (codes q)
org-IsPlain q e =
    subst (λ x. IsPlain (codes x)) (some_inj e)
      (
        ((λ same. omega (arith, same)), (λ same. omega (arith, same)), omega arith),
        (
          ((λ same. omega (arith, same)), (λ same. omega (arith, same)), omega arith),
          (((λ same. omega (arith, same)), (λ same. omega (arith, same)), omega arith), tt),
        ),
      )

emails-IsLower : All (λ row. IsLower (codes row.email)) (rows_of two_rows)
unfolding rows_of
emails-IsLower = (
  (refl, (refl, (refl, (refl, (refl, (refl, (refl, (refl, (refl, tt))))))))),
  ((refl, (refl, (refl, (refl, (refl, (refl, (refl, (refl, (refl, tt))))))))), tt),
)

-- LIKE takes `_` in a search for any character, which the repository in memory does not.
wildcard_found :
    (sql.like "ann@x.org" (sql.around "a_n") ≡ true) × (includes "ann@x.org" "a_n" ≡ false)
unfolding is_like includes any_tail starts_with
wildcard_found = (refl, refl)

list_rows-list_example :
    list_rows sql one_each two_rows ≡ list (memory_texts sql includes) one_each (view two_rows)
list_rows-list_example =
    list_rows-list sql includes one_each two_rows sql-Orders sql-SearchLaws org-IsPlain
      emails-IsLower two_rows-Apart
