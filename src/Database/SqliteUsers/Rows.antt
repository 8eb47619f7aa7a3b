-- ===== src/Database/SqliteUsers/Rows.antt =====
-- The users that a table of rows stands for, and how the statements act on them.
use mathlib.Core.Option
use onlyapi.Base.{
  Bool, Option, String, [], arith, delete, eq_iff, false, find_value, get, none, refl, set, some,
  str_eq, true, ℕ, ◌++◌, ◌==◌, ◌≡◌, ◌∷◌, ◌∙◌, List,
}
use onlyapi.Core.Users.{User, UserRole}
use onlyapi.Database.SqliteUsers.{
  Assignment, UserRow, UserTable, assign_all, build_update_fields, flag_bit, is_taken, push_if,
  row_to_user, set_email, set_email_verified, set_mfa_enabled, set_mfa_secret,
  set_password_changed_at, set_password_hash, set_role,
}
use onlyapi.Database.Users.{UpdateUserData, UserStore, updated}

-- The store of the repository in memory with the same users.
unfoldable pub view : UserTable → UserStore
view [] = []
view ((k, row) ∷ m) = (k, row_to_user row) ∷ view m

abbrev pub seen : Option UserRow → Option User
seen none = none
seen (some row) = some (row_to_user row)

pub get-view : (id : String) (m : UserTable) → get id (view m) ≡ seen (get id m)
unfolding view get
get-view id [] = refl
get-view id ((k, row) ∷ m) = ground (arith, get-view id m)

pub find_value-view :
    (p : User → Bool) (m : UserTable)
    → find_value p (view m) ≡ seen (find_value (λ row. p (row_to_user row)) m)
unfolding view find_value
find_value-view p [] = refl
find_value-view p ((k, row) ∷ m) = ground (arith, find_value-view p m)

pub set-view :
    (id : String) (row : UserRow) (m : UserTable)
    → view (set id row m) ≡ set id (row_to_user row) (view m)
unfolding view set
set-view id row [] = refl
set-view id row ((k, w) ∷ m) = ground (arith, set-view id row m)

pub delete-view : (id : String) (m : UserTable) → view (delete id m) ≡ delete id (view m)
unfolding view delete
delete-view id [] = refl
delete-view id ((k, w) ∷ m) = ground (arith, delete-view id m)

-- A new row stands at the end, as a new key of a map does.
pub append-set :
    (id : String) (row : UserRow) (m : UserTable)
    → get id m ≡ none
    → m ++ (id, row) ∷ [] ≡ set id row m
unfolding get set
append-set id row [] h = refl
append-set id row ((k, w) ∷ m) h = ground (arith, append-set id row m)

-- For a new id, an email is taken where some row has it.
pub is_taken_new :
    (id email : String) (m : UserTable)
    → get id m ≡ none
    → is_taken id email m
      ≡ (elim (find_value (λ row. str_eq row.email email) m) [ none ↦ false | some row ↦ true ])
unfolding is_taken get find_value
is_taken_new id email [] h = refl
is_taken_new id email ((k, w) ∷ m) h = ground (arith, is_taken_new id email m)

-- An email that is not taken belongs to no other row.
pub is_taken-others :
    (id email k : String) (row : UserRow) (m : UserTable)
    → is_taken id email m ≡ false
    → get k m ≡ some row
    → row.email ≡ email
    → k ≡ id
unfolding is_taken get
is_taken-others id email k row [] t g e = absurd cc
is_taken-others id email k row ((j, w) ∷ m) t g e = ground (
  arith,
  eq_iff j k,
  eq_iff j id,
  eq_iff k id,
  eq_iff w.email email,
  is_taken-others id email k row m,
)

-- The value of a column after an entry for a field that may be absent.
abbrev pub flag_or : Option Bool → ℕ → ℕ
flag_or none old = old
flag_or (some b) old = flag_bit b

abbrev pub time_or : Option ℕ → Option ℕ → Option ℕ
time_or none old = old
time_or (some t) old = some t

module _ (rest : List Assignment) (row : UserRow) where
  email_entry :
      (o : Option String)
      → assign_all (push_if o set_email rest) row
        ≡ assign_all rest (record row { email = Option.get_or o row.email })
  unfolding assign_all
  email_entry none = refl
  email_entry (some v) = refl

  hash_entry :
      (o : Option String)
      → assign_all (push_if o set_password_hash rest) row
        ≡ assign_all rest (record row { password_hash = Option.get_or o row.password_hash })
  unfolding assign_all
  hash_entry none = refl
  hash_entry (some v) = refl

  role_entry :
      (o : Option UserRole)
      → assign_all (push_if o set_role rest) row
        ≡ assign_all rest (record row { role = Option.get_or o row.role })
  unfolding assign_all
  role_entry none = refl
  role_entry (some v) = refl

  verified_entry :
      (o : Option Bool)
      → assign_all (push_if o (λ b. set_email_verified (flag_bit b)) rest) row
        ≡ assign_all rest (record row { email_verified = flag_or o row.email_verified })
  unfolding assign_all
  verified_entry none = refl
  verified_entry (some v) = refl

  mfa_entry :
      (o : Option Bool)
      → assign_all (push_if o (λ b. set_mfa_enabled (flag_bit b)) rest) row
        ≡ assign_all rest (record row { mfa_enabled = flag_or o row.mfa_enabled })
  unfolding assign_all
  mfa_entry none = refl
  mfa_entry (some v) = refl

  secret_entry :
      (o : Option (Option String))
      → assign_all (push_if o set_mfa_secret rest) row
        ≡ assign_all rest (record row { mfa_secret = Option.get_or o row.mfa_secret })
  unfolding assign_all
  secret_entry none = refl
  secret_entry (some v) = refl

  changed_entry :
      (o : Option ℕ)
      → assign_all (push_if o set_password_changed_at rest) row
        ≡ assign_all rest (record row { password_changed_at = time_or o row.password_changed_at })
  unfolding assign_all
  changed_entry none = refl
  changed_entry (some v) = refl

-- The row that the whole clause leaves.
abbrev pub written_row : UpdateUserData → ℕ → UserRow → UserRow
written_row d now row = record row {
  email = Option.get_or d.email row.email;
  password_hash = Option.get_or d.password_hash row.password_hash;
  role = Option.get_or d.role row.role;
  email_verified = flag_or d.email_verified row.email_verified;
  mfa_enabled = flag_or d.mfa_enabled row.mfa_enabled;
  mfa_secret = Option.get_or d.mfa_secret row.mfa_secret;
  password_changed_at = time_or d.password_changed_at row.password_changed_at;
  updated_at = now;
}

pub assign_all-build :
    (d : UpdateUserData) (now : ℕ) (row : UserRow)
    → assign_all (build_update_fields d now) row ≡ written_row d now row
unfolding build_update_fields assign_all
assign_all-build d now row =
    email_entry _ row d.email
    ∙ hash_entry _ _ d.password_hash
    ∙ role_entry _ _ d.role
    ∙ verified_entry _ _ d.email_verified
    ∙ mfa_entry _ _ d.mfa_enabled
    ∙ secret_entry _ _ d.mfa_secret
    ∙ changed_entry _ _ d.password_changed_at

flag_or-get_or : (o : Option Bool) (n : ℕ) → (flag_or o n == 1) ≡ Option.get_or o (n == 1)
flag_or-get_or none n = refl
flag_or-get_or (some true) n = refl
flag_or-get_or (some false) n = refl

time_or_elim : (o old : Option ℕ) → time_or o old ≡ (elim o [ none ↦ old | some t ↦ some t ])
time_or_elim none old = refl
time_or_elim (some t) old = refl

pub written-updated :
    (d : UpdateUserData) (now : ℕ) (row : UserRow)
    → row_to_user (written_row d now row) ≡ updated d now (row_to_user row)
unfolding row_to_user updated
written-updated d now row = λ i. record {
  id = row.id;
  email = Option.get_or d.email row.email;
  password_hash = Option.get_or d.password_hash row.password_hash;
  role = Option.get_or d.role row.role;
  email_verified = flag_or-get_or d.email_verified row.email_verified i;
  mfa_enabled = flag_or-get_or d.mfa_enabled row.mfa_enabled i;
  mfa_secret = Option.get_or d.mfa_secret row.mfa_secret;
  password_changed_at = time_or_elim d.password_changed_at row.password_changed_at i;
  created_at = row.created_at;
  updated_at = now;
}
