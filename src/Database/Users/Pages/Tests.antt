-- ===== src/Database/Users/Pages/Tests.antt =====
-- Runs of `list`, and the walk over its pages at a concrete store.
use Prim.Native.String.{count}
use text.Mathlib.TextLemmas.{length-append}
use onlyapi.Base.{
  String, [], ap, arith, length, ltb, none, refl, some, suc, true, zero, ℕ, ◌≡◌, ◌∙◌, ◌∷◌, false,
}
use Prim.Native.String.{◌++◌ as append}
use onlyapi.Core.Pages.{UserListOptions}
use onlyapi.Core.Users.{User, user}
use onlyapi.Database.Users.{UserStore}
use onlyapi.Database.Users.Pages.{
  Texts, before_cursor, has_role, insert, is_found, last, list, listed, page_of, role_eq, sort,
  values,
}
use onlyapi.Database.Users.Pages.Order.{Apart}
use onlyapi.Database.Users.Pages.Walk.{IsCodec, matching, walk, walk-matching}

-- A cursor as long as its time stamp.
abbrev strokes : ℕ → String
strokes zero = ""
strokes (suc n) = append "|" (strokes n)

count-strokes : (n : ℕ) → count (strokes n) ≡ n
count-strokes zero = refl
count-strokes (suc n) =
    let one : count "|" ≡ 1 = refl in
    let ih = count-strokes n in length-append "|" (strokes n) ∙ omega arith

abbrev tally_texts : Texts
tally_texts = record {
  encode_cursor = strokes;
  decode_cursor = λ c. some (λ created. ltb created (count c));
  includes_lower = λ email q. true;
}

abbrev user_at : String → ℕ → User
user_at id time = record {
  id = id;
  email = id;
  password_hash = "h";
  role = user;
  email_verified = false;
  mfa_enabled = false;
  mfa_secret = none;
  password_changed_at = none;
  created_at = time;
  updated_at = time;
}

abbrev three : UserStore
three = ("a", user_at "a" 5) ∷ ("b", user_at "b" 9) ∷ ("c", user_at "c" 7) ∷ []

abbrev by_one : UserListOptions
by_one = record { cursor = none; limit = 1; search = some "x"; role = some user }

three-Apart : Apart (values three)
unfolding values Apart
three-Apart = (((λ h. omega arith), ((λ h. omega arith), tt)), (((λ h. omega arith), tt), (tt, tt)))

tally_texts-IsCodec : IsCodec tally_texts by_one three
tally_texts-IsCodec ts = ap (λ n. some (λ created. ltb created n)) (count-strokes ts)

walk-matching_example :
    walk tally_texts by_one three (suc (length (matching tally_texts by_one three))) none
    ≡ (matching tally_texts by_one three, true)
walk-matching_example =
    walk-matching tally_texts by_one three tally_texts-IsCodec (omega arith) three-Apart

-- Two users of one time, and pages of one user.
abbrev twins : UserStore
twins = ("a", user_at "a" 5) ∷ ("b", user_at "b" 5) ∷ []

-- The first page says that there is more, and the next one is empty.
first_twin :
    list tally_texts by_one twins
    ≡ record { items = user_at "a" 5 ∷ []; next_cursor = some (strokes 5); has_more = true }
unfolding list listed page_of values sort insert last before_cursor has_role is_found role_eq
first_twin = refl

second_twin_skipped :
    list tally_texts (record by_one { cursor = some (strokes 5) }) twins
    ≡ record { items = []; next_cursor = none; has_more = false }
unfolding list listed page_of values sort insert last before_cursor has_role is_found role_eq
second_twin_skipped = refl
