-- ===== src/Database/Users/Pages/Walk.antt =====
-- Following the cursors of `list` from page to page.
use onlyapi.Base.{
  append_assoc, subst, suc, Bool, List, Option, String, [], ap, arith, false, filter, length, none,
  refl, some, suc, take, zero, ℕ, ◌++◌, ◌≤◌, ◌≡◌, ◌∷◌, ◌-◌, not, ltb, sym, true, ◌<◌, ◌∙◌, All,
  Bool-cases, inl, inr, min, subst,
}
use onlyapi.Core.Pages.{UserListOptions, PaginatedResult}
use onlyapi.Core.Users.{User}
use onlyapi.Database.Users.{UserStore}
use onlyapi.Database.Users.Pages.{
  Texts, has_role, is_found, last, list, sort, values, before_cursor, listed, page_of,
}
use onlyapi.Database.Users.Pages.Order.{
  Apart, Falling, filter-Falling, filter_everything, filter_comm, filter_same, older, older_rest,
  sort-Falling,
}

drop : ℕ → List User → List User
drop zero us = us
drop (suc n) [] = []
drop (suc n) (u ∷ us) = drop n us

take-drop : (n : ℕ) (us : List User) → take n us ++ drop n us ≡ us
unfolding drop
take-drop zero us = refl
take-drop (suc n) [] = refl
take-drop (suc n) (u ∷ us) = ap (λ vs. u ∷ vs) (take-drop n us)

take_whole : (n : ℕ) (us : List User) → length us ≤ n → take n us ≡ us
take_whole zero [] h = refl
take_whole zero (u ∷ us) h = absurd (omega arith)
take_whole (suc n) [] h = refl
take_whole (suc n) (u ∷ us) h = ap (λ vs. u ∷ vs) (take_whole n us (omega arith))

length-drop : (n : ℕ) (us : List User) → length (drop n us) ≡ length us - n
unfolding drop
length-drop zero us = omega arith
length-drop (suc n) [] = omega arith
length-drop (suc n) (u ∷ us) = omega (arith, length-drop n us)

-- A page that is not empty has a last user.
last_of :
    (u : User) (us : List User)
    → (vs : List User) × (x : User) × (last (u ∷ us) ≡ some x) × (u ∷ us ≡ vs ++ x ∷ [])
unfolding last
last_of u [] = ([], u, refl, refl)
last_of u (v ∷ us) = let (vs, x, e, p) = last_of v us in (u ∷ vs, x, e, ap (λ ws. u ∷ ws) p)

-- An answer that holds every user that is left, and one that does not.
page_of_last :
    (T : Texts) (n : ℕ) (us : List User)
    → length us ≤ n
    → page_of T n us ≡ record { items = us; next_cursor = none; has_more = false }
unfolding page_of
page_of_last T n us le =
    let more : ltb n (length us) ≡ false = ground arith in
    rw (page_of, more, take_whole n us le) refl

page_of_next :
    (T : Texts) (n : ℕ) (us vs : List User) (x : User)
    → n < length us
    → take n us ≡ vs ++ x ∷ []
    → last (vs ++ x ∷ []) ≡ some x
    → page_of T n us ≡ record {
      items = vs ++ x ∷ [];
      next_cursor = some (T.encode_cursor x.created_at);
      has_more = true;
    }
unfolding page_of
page_of_next T n us vs x lt e l =
    let more : ltb n (length us) ≡ true = ground arith in rw (page_of, more, e, l) refl

-- Where there is more than a page, the page has a last user, and the rest follows it.
page_split :
    (n : ℕ) (us : List User)
    → 0 < n
    → n < length us
    → (vs : List User) × (x : User) × (take n us ≡ vs ++ x ∷ [])
      × (last (vs ++ x ∷ []) ≡ some x)
      × (us ≡ (vs ++ x ∷ []) ++ drop n us)
page_split zero us h lt = absurd (omega arith)
page_split (suc n) [] h lt = absurd (omega arith)
page_split (suc n) (u ∷ us) h lt =
    let (vs, x, l, e) = last_of u (take n us) in
    (
      vs,
      x,
      e,
      ap last (sym e) ∙ l,
      sym (take-drop (suc n) (u ∷ us)) ∙ ap (λ ws. ws ++ drop (suc n) (u ∷ us)) e,
    )

All-always : {P : User → Type 0} (us : List User) → ((u : User) → P u) → All P us
All-always [] h = tt
All-always (u ∷ us) h = (h u, All-always us h)

module _ (T : Texts) (o : UserListOptions) (m : UserStore) where
  abbrev from : Option String → UserListOptions
  from cursor = record o { cursor = cursor }

  -- The users that match the filters, the newest first.
  pub matching : List User
  matching = filter (is_found T o.search) (filter (has_role T o.role) (sort (values m)))

  -- The pages from a cursor on, put together, and whether the last of them says that there is no more.
  pub walk : ℕ → Option String → List User × Bool
  walk zero cursor = ([], false)
  walk (suc pages) cursor =
      let page = list T (from cursor) m in
      elim page.next_cursor [
        | none ↦ (page.items, not page.has_more)
        | some next ↦ (let rest = walk pages (some next) in (page.items ++ rest.0, rest.1))
      ]

  -- A time stamp that is encoded is decoded as the bound it was.
  abbrev pub IsCodec : Type 0
  IsCodec = (ts : ℕ) → T.decode_cursor (T.encode_cursor ts) ≡ some (λ created. ltb created ts)

  listed_first : listed T (from none) m ≡ matching
  unfolding listed before_cursor matching
  listed_first =
      let everyone = sort (values m) in
      ap (λ us. filter (is_found T o.search) (filter (has_role T o.role) us))
        (filter_everything (before_cursor T none) everyone (All-always everyone (λ u. refl)))

  listed_after :
      (ts : ℕ)
      → IsCodec
      → listed T (from (some (T.encode_cursor ts))) m ≡ filter (older ts) matching
  unfolding listed before_cursor matching
  listed_after ts codec =
      let everyone = sort (values m) in
      let found = filter (is_found T o.search) in
      let with_role = filter (has_role T o.role) in
      let before = before_cursor T (some (T.encode_cursor ts)) in
      let same : (u : User) → before u ≡ older ts u = λ u. rw (before_cursor, codec ts) refl in
      ap (λ us. found (with_role us)) (filter_same before (older ts) everyone same)
      ∙ ap found (filter_comm (has_role T o.role) (older ts) everyone)
      ∙ filter_comm (is_found T o.search) (older ts) (with_role everyone)

  walk_rest :
      (pages : ℕ) (cursor : Option String) (done rest : List User)
      → IsCodec
      → 0 < o.limit
      → Falling matching
      → length rest < pages
      → listed T (from cursor) m ≡ rest
      → matching ≡ done ++ rest
      → walk pages cursor ≡ (rest, true)
  unfolding walk list
  walk_rest zero cursor done rest codec some_limit falls lt here all = absurd (omega arith)
  walk_rest (suc pages) cursor done rest codec some_limit falls lt here all =
      let n = min o.limit 100 in
      let go = λ (p : PaginatedResult User). elim p.next_cursor as (λ c. List User × Bool) [
        | none ↦ (p.items, not p.has_more)
        | some next ↦ (let more = walk pages (some next) in (p.items ++ more.0, more.1))
      ] in
      elim (Bool-cases (ltb n (length rest))) [
        | inr f ↦ ap go (ap (page_of T n) here ∙ page_of_last T n rest (ground arith))
        | inl t ↦
            let (vs, x, e, l, split) = page_split n rest (ground arith) (ground arith) in
            let before = done ++ vs in
            let whole : matching ≡ before ++ x ∷ drop n rest =
              all
              ∙ ap (λ us. done ++ us) (split ∙ append_assoc vs (x ∷ []) (drop n rest))
              ∙ sym (append_assoc done vs (x ∷ drop n rest)) in
            let next = T.encode_cursor x.created_at in
            let after =
              listed_after x.created_at codec
              ∙ ap (filter (older x.created_at)) whole
              ∙ older_rest before x (drop n rest) (subst Falling whole falls) in
            let ih =
              walk_rest pages (some next) (before ++ x ∷ []) (drop n rest) codec some_limit falls
                (let shorter = length-drop n rest in ground arith) after
                (whole ∙ sym (append_assoc before (x ∷ []) (drop n rest))) in
            ap go (ap (page_of T n) here ∙ page_of_next T n rest vs x (ground arith) e l)
            ∙ ap (λ more. ((vs ++ x ∷ []) ++ more.0, more.1)) ih
            ∙ ap (λ us. (us, true)) (sym split)
      ]

  -- Where users were created at different times and the limit is not 0, following the cursors from
  -- the first page on, for one page more than there are users at most, gives every user that matches
  -- the filters once, the newest first, and ends with a page that says that there is no more.
  pub walk-matching :
      IsCodec
      → 0 < o.limit
      → Apart (values m)
      → walk (suc (length matching)) none ≡ (matching, true)
  unfolding matching
  walk-matching codec some_limit apart =
      let falls =
        filter-Falling (is_found T o.search) (filter (has_role T o.role) (sort (values m)))
          (filter-Falling (has_role T o.role) (sort (values m)) (sort-Falling (values m) apart)) in
      walk_rest (suc (length matching)) none [] matching codec some_limit falls (omega arith)
        listed_first refl
