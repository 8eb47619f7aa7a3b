-- ===== src/Database/SqliteUsers/Searches.antt =====
-- The search of list in src/infrastructure/database/sqlite-user.repository.ts, by SQLite's LIKE, beside
-- that of src/infrastructure/database/in-memory-user.repository.ts, by includes.
use onlyapi.Base.{
  All, Bool, List, String, [], ap, arith, codes, false, if◌then◌else◌, leb, map, refl, some, sym,
  starts_with, true, ℕ, ◌&&◌, ◌++◌, ◌+◌, ◌<◌, ◌==◌, ◌||◌, ◌≡◌, ◌≢◌, ◌∙◌, ◌∷◌,
}
use onlyapi.Core.Pages.{UserListOptions}
use onlyapi.Database.SqliteUsers.{SqlTexts, UserTable, list_rows, rows_of}
use onlyapi.Database.SqliteUsers.Pages.{All-rows, Finds, Orders, list_rows-list_found, memory_texts}
use onlyapi.Database.SqliteUsers.Rows.{view}
use onlyapi.Database.Users.Pages.{list, values}
use onlyapi.Database.Users.Pages.Order.{Apart}

-- The tails of a text, from the whole text to the empty one.
unfoldable pub any_tail : (List ℕ → Bool) → List ℕ → Bool
any_tail test [] = test []
any_tail test (c ∷ cs) = test (c ∷ cs) || any_tail test cs

abbrev pub lower : ℕ → ℕ
lower c = if leb 65 c && leb c 90 then c + 32 else c

-- LIKE, as SQLite documents it: `%` is any text, `_` any character, and an ASCII letter is the same in
-- either case.
unfoldable pub is_like : List ℕ → List ℕ → Bool
unfolding any_tail
is_like [] [] = true
is_like [] (c ∷ cs) = false
is_like (p ∷ ps) [] = if p == b'%' then any_tail (is_like ps) [] else false
is_like (p ∷ ps) (c ∷ cs) =
    if p == b'%'
    then any_tail (is_like ps) (c ∷ cs)
    else (p == b'_' || lower p == lower c) && is_like ps cs

-- A search in ASCII without the wildcards of LIKE.
abbrev pub IsPlain : List ℕ → Type 0
IsPlain q = All (λ c. (c ≢ b'%') × (c ≢ b'_') × (c < 128)) q

abbrev pub IsLower : List ℕ → Type 0
IsLower cs = All (λ c. lower c ≡ c) cs

-- What the database does with LIKE, and the run time with `%${search}%` and with toLowerCase and includes.
pub record SearchLaws (T : SqlTexts) (includes : String → String → Bool) : Type 0 where
  pub likes :
      (email pattern : String) → T.like email pattern ≡ is_like (codes pattern) (codes email)
  pub around : (q : String) → codes (T.around q) ≡ b'%' ∷ (codes q ++ b'%' ∷ [])
  pub includes_lower :
      (email q : String)
      → IsPlain (codes q)
      → includes email q ≡ any_tail (starts_with (map lower (codes q))) (codes email)

any_tail_empty : (cs : List ℕ) → any_tail (is_like []) cs ≡ true
unfolding any_tail is_like
any_tail_empty [] = refl
any_tail_empty (c ∷ cs) = any_tail_empty cs

any_tail_same :
    (f g : List ℕ → Bool)
    → ((cs : List ℕ) → IsLower cs → f cs ≡ g cs)
    → (cs : List ℕ) → IsLower cs
    → any_tail f cs ≡ any_tail g cs
unfolding any_tail
any_tail_same f g h [] l = h [] l
any_tail_same f g h (c ∷ cs) (l, ls) = rw (h (c ∷ cs) (l, ls), any_tail_same f g h cs ls) refl

percent : (cs : List ℕ) → is_like (b'%' ∷ []) cs ≡ true
unfolding is_like
percent [] = refl
percent (c ∷ cs) = any_tail_empty (c ∷ cs)

is_like_plain :
    (q cs : List ℕ)
    → IsPlain q
    → IsLower cs
    → is_like (q ++ b'%' ∷ []) cs ≡ starts_with (map lower q) cs
unfolding is_like starts_with
is_like_plain [] cs plain l = percent cs
is_like_plain (p ∷ ps) [] (plain, rest) l = ground arith
is_like_plain (p ∷ ps) (c ∷ cs) ((not_any, not_one, ascii), rest) (l, ls) =
    let same = is_like_plain ps cs rest ls in ground arith

-- A search without wildcards finds in a lower-case text what includes finds there.
is_like_around :
    (q cs : List ℕ)
    → IsPlain q
    → IsLower cs
    → is_like (b'%' ∷ (q ++ b'%' ∷ [])) cs ≡ any_tail (starts_with (map lower q)) cs
unfolding is_like
is_like_around q [] plain l =
    any_tail_same (is_like (q ++ b'%' ∷ [])) (starts_with (map lower q))
      (λ ds. is_like_plain q ds plain) [] l
is_like_around q (c ∷ cs) plain l =
    any_tail_same (is_like (q ++ b'%' ∷ [])) (starts_with (map lower q))
      (λ ds. is_like_plain q ds plain) (c ∷ cs) l

-- Where no two users were created at one time, their emails are in lower case, the search, if any, is in
-- ASCII without % and _, and the database orders rows by their time and reads LIKE as SQLite documents
-- it: a page over SQLite is the page that the repository in memory gives for the same users and options,
-- its items, its cursor and whether there is more.
pub list_rows-list :
    (T : SqlTexts) (includes : String → String → Bool) (o : UserListOptions) (m : UserTable)
    → Orders T
    → SearchLaws T includes
    → ((q : String) → o.search ≡ some q → IsPlain (codes q))
    → All (λ row. IsLower (codes row.email)) (rows_of m)
    → Apart (values (view m))
    → list_rows T o m ≡ list (memory_texts T includes) o (view m)
list_rows-list T includes o m orders L plain lowered apart =
    list_rows-list_found T includes o m orders
      (All-rows (λ row. IsLower (codes row.email)) (Finds T includes o.search) (rows_of m)
        (λ row l q e.
          L.likes row.email (T.around q)
          ∙ ap (λ pattern. is_like pattern (codes row.email)) (L.around q)
          ∙ is_like_around (codes q) (codes row.email) (plain q e) l
          ∙ sym (L.includes_lower row.email q (plain q e)))
        lowered)
      apart
