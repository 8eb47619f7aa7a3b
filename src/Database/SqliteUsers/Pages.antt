-- ===== src/Database/SqliteUsers/Pages.antt =====
-- The statement that fetches a page finds the page that the repository in memory cuts from its users.
use onlyapi.Base.{
  subst, All, Bool, Bool-cases, List, Option, String, [], ap, arith, false, filter, if◌then◌else◌,
  inl, inr, leb, length, ltb, map, min, none, refl, ap₂, some, suc, sym, take, true, zero, ℕ, ◌&&◌,
  ◌+◌, ◌<◌, ◌≡◌, ◌≢◌, ◌∷◌, ◌∙◌,
}
use onlyapi.Core.Pages.{PaginatedResult, UserListOptions}
use onlyapi.Core.Users.{User}
use onlyapi.Database.SqliteUsers.{
  SqlTexts, UserRow, UserTable, fetched, list_rows, page_of_rows, row_to_user, rows_of, satisfies,
}
use onlyapi.Database.SqliteUsers.Rows.{view}
use onlyapi.Database.Users.Pages.{
  Texts, before_cursor, has_role, insert, is_found, last, list, listed, page_of, sort, values,
}
use onlyapi.Database.Users.Pages.Order.{All-map, Apart, Falling, sort-Falling}

-- A user that is newer than all of a list goes before them.
insert_first :
    (u : User) (vs : List User) → All (λ v. v.created_at < u.created_at) vs → insert u vs ≡ u ∷ vs
unfolding insert
insert_first u [] h = refl
insert_first u (v ∷ vs) (h, hs) = ground arith

filter-All : (P : User → Type 0) (p : User → Bool) (us : List User) → All P us → All P (filter p us)
filter-All P p [] h = tt
filter-All P p (u ∷ us) (h, hs) = elim (Bool-cases (p u)) [
  | inl t ↦ rw t (h, filter-All P p us hs)
  | inr f ↦ rw f (filter-All P p us hs)
]

filter-insert :
    (p : User → Bool) (u : User) (vs : List User)
    → Falling vs
    → filter p (insert u vs) ≡ (if p u then insert u (filter p vs) else filter p vs)
unfolding insert Falling
filter-insert p u [] h = refl
filter-insert p u (v ∷ vs) (h, hs) = elim (Bool-cases (leb v.created_at u.created_at)) [
  | inl t ↦
      let below =
        All-map (λ w. w.created_at < v.created_at) (λ w. w.created_at < u.created_at) vs
          (λ w lt. ground arith) h in
      ground (
        arith,
        insert_first u (filter p vs) (filter-All (λ w. w.created_at < u.created_at) p vs below),
      )
  | inr f ↦ ground (arith, filter-insert p u vs hs)
]

filter-sort :
    (p : User → Bool) (us : List User) → Apart us → filter p (sort us) ≡ sort (filter p us)
unfolding sort Apart
filter-sort p [] a = refl
filter-sort p (u ∷ us) (a, as') =
    filter-insert p u (sort us) (sort-Falling us as') ∙ ground (arith, filter-sort p us as')

filter-Apart : (p : User → Bool) (us : List User) → Apart us → Apart (filter p us)
unfolding Apart
filter-Apart p [] a = tt
filter-Apart p (u ∷ us) (a, as') = elim (Bool-cases (p u)) [
  | inl t ↦ rw t (filter-All (λ v. v.created_at ≢ u.created_at) p us a, filter-Apart p us as')
  | inr f ↦ rw f (filter-Apart p us as')
]

filter_and :
    (p q r : User → Bool) (us : List User)
    → filter r (filter q (filter p us)) ≡ filter (λ u. p u && (q u && r u)) us
filter_and p q r [] = refl
filter_and p q r (u ∷ us) = ground (arith, filter_and p q r us)

map-filter :
    (p : User → Bool) (q : UserRow → Bool) (rows : List UserRow)
    → All (λ row. q row ≡ p (row_to_user row)) rows
    → map row_to_user (filter q rows) ≡ filter p (map row_to_user rows)
map-filter p q [] h = refl
map-filter p q (row ∷ rows) (h, hs) = ground (arith, map-filter p q rows hs)

pub All-rows :
    (P Q : UserRow → Type 0) (rows : List UserRow)
    → ((row : UserRow) → P row → Q row)
    → All P rows
    → All Q rows
All-rows P Q [] f h = tt
All-rows P Q (row ∷ rows) f (h, hs) = (f row h, All-rows P Q rows f hs)

map-take :
    (n : ℕ) (rows : List UserRow) → map row_to_user (take n rows) ≡ take n (map row_to_user rows)
map-take zero [] = refl
map-take zero (row ∷ rows) = refl
map-take (suc n) [] = refl
map-take (suc n) (row ∷ rows) = ap (λ us. row_to_user row ∷ us) (map-take n rows)

map-rows_of : (m : UserTable) → map row_to_user (rows_of m) ≡ values (view m)
unfolding rows_of values view
map-rows_of [] = refl
map-rows_of ((k, row) ∷ m) = ap (λ us. row_to_user row ∷ us) (map-rows_of m)

length-map_rows : (rows : List UserRow) → length (map row_to_user rows) ≡ length rows
length-map_rows [] = refl
length-map_rows (row ∷ rows) = omega (arith, length-map_rows rows)

-- One more than the limit is enough to know whether there is more.
more_than : (n : ℕ) (us : List User) → ltb n (length (take (suc n) us)) ≡ ltb n (length us)
more_than n [] = refl
more_than zero (u ∷ us) = ground arith
more_than (suc n) (u ∷ us) = ground (arith, more_than n us)

cut : (n : ℕ) (us : List User) → take n (take (suc n) us) ≡ take n us
cut zero us = refl
cut (suc n) [] = refl
cut (suc n) (u ∷ us) = ap (λ vs. u ∷ vs) (cut n us)

uncut : (n : ℕ) (us : List User) → ltb n (length us) ≡ false → take (suc n) us ≡ take n us
uncut zero [] h = refl
uncut (suc n) [] h = refl
uncut zero (u ∷ us) h = ground arith
uncut (suc n) (u ∷ us) h = ap (λ vs. u ∷ vs) (uncut n us (ground arith))

-- The texts of the repository in memory, with the cursors of the one over SQLite.
abbrev pub memory_texts : SqlTexts → (String → String → Bool) → Texts
memory_texts T includes = record {
  encode_cursor = T.encode_cursor;
  decode_cursor = T.decode_cursor;
  includes_lower = includes;
}

-- The documented order: rows of different times come the newest first.
abbrev pub Orders : SqlTexts → Type 0
Orders T =
    (rows : List UserRow)
    → Apart (map row_to_user rows)
    → map row_to_user (T.order_by rows) ≡ sort (map row_to_user rows)

module _ (T : SqlTexts) (includes : String → String → Bool) where
  abbrev page : ℕ → List User → Bool → PaginatedResult User
  page n items has_more =
      let cursor : Option String = elim (last items) [
        | none ↦ none
        | some u ↦ some (T.encode_cursor u.created_at)
      ] in
      record { items = items; next_cursor = if has_more then cursor else none; has_more = has_more }

  -- A page that is cut from one user more than the limit.
  page_of_rows-page_of :
      (n : ℕ) (rows : List UserRow) (us : List User)
      → map row_to_user rows ≡ take (suc n) us
      → page_of_rows T n rows ≡ page_of (memory_texts T includes) n us
  unfolding page_of_rows page_of
  page_of_rows-page_of n rows us e =
      let more : ltb n (length rows) ≡ ltb n (length us) =
        ap (ltb n) (sym (length-map_rows rows) ∙ ap length e) ∙ more_than n us in
      let items : map row_to_user (if ltb n (length rows) then take n rows else rows) ≡ take n us =
        elim (Bool-cases (ltb n (length rows))) [
          | inl t ↦ rw t (map-take n rows ∙ ap (take n) e ∙ cut n us)
          | inr f ↦ rw f (e ∙ uncut n us (sym more ∙ f))
        ] in
      ap₂ (page n) items more

  -- What LIKE finds in the email of a row is what the repository in memory finds there.
  abbrev pub Finds : Option String → UserRow → Type 0
  Finds search row =
      (q : String) → search ≡ some q → T.like row.email (T.around q) ≡ includes row.email q

  search_same :
      (search : Option String) (row : UserRow)
      → Finds search row
      → (elim search [ none ↦ true | some q ↦ T.like row.email (T.around q) ])
        ≡ is_found (memory_texts T includes) search (row_to_user row)
  unfolding is_found row_to_user
  search_same none row like = refl
  search_same (some q) row like = like q refl

  satisfies-filters :
      (o : UserListOptions) (row : UserRow)
      → Finds o.search row
      → satisfies T o row ≡ (
          let X = memory_texts T includes in
          before_cursor X o.cursor (row_to_user row)
          && (has_role X o.role (row_to_user row) && is_found X o.search (row_to_user row)))
  unfolding satisfies before_cursor has_role is_found row_to_user
  satisfies-filters o row like = ground (arith, search_same o.search row like)

  -- Where no two users were created at one time, the database orders rows by that time, and LIKE finds the
  -- search asked for, if any, in the emails of the table's own rows that the repository in memory finds
  -- it in: a page over SQLite is the page that the repository
  -- in memory gives for the same users and options, its items, its cursor and whether there is more.
  pub list_rows-list_found :
      (o : UserListOptions) (m : UserTable)
      → Orders T
      → All (Finds o.search) (rows_of m)
      → Apart (values (view m))
      → list_rows T o m ≡ list (memory_texts T includes) o (view m)
  unfolding list_rows list fetched listed
  list_rows-list_found o m orders like apart =
      let X = memory_texts T includes in
      let limit = min o.limit 100 in
      let p = before_cursor X o.cursor in
      let q = has_role X o.role in
      let r = is_found X o.search in
      let all : User → Bool = λ u. p u && (q u && r u) in
      let users = values (view m) in
      let rows = filter (satisfies T o) (rows_of m) in
      let same : map row_to_user rows ≡ filter all users =
        map-filter all (satisfies T o) (rows_of m) (
          All-rows (Finds o.search) (λ row. satisfies T o row ≡ all (row_to_user row)) (rows_of m)
            (satisfies-filters o) like)
        ∙ ap (filter all) (map-rows_of m) in
      let ordered : map row_to_user (T.order_by rows) ≡ listed X o (view m) =
        orders rows (subst Apart (sym same) (filter-Apart all users apart))
        ∙ ap sort same
        ∙ sym (filter-sort all users apart)
        ∙ sym (filter_and p q r (sort users)) in
      let one_more : limit + 1 ≡ suc limit = omega arith in
      page_of_rows-page_of limit (fetched T o m) (listed X o (view m)) (
        map-take (limit + 1) (T.order_by rows)
        ∙ ap (take (limit + 1)) ordered
        ∙ ap (λ n. take n (listed X o (view m))) one_more)
