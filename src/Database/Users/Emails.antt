-- ===== src/Database/Users/Emails.antt =====
-- Emails are unique in the repository, as long as no update changes one.
use onlyapi.Base.{
  Distinct, String, arith, eq_iff, get, inl, inr, none, some, ℕ, ◌↔◌, ◌≡◌, ◌≢◌, ◌⊎◌, Option-cases,
  get-set, get-set_ne, get-set_self, refl, set, set-Distinct, subst, sym, ◌∙◌, find_value-none,
  find_value-some, find_value_unique, str_eq_self,
}
use onlyapi.Core.Errors.{app_error, conflict}
use onlyapi.Core.Results.{err, ok}
use onlyapi.Core.Users.{User}
use onlyapi.Database.Users.{
  CreateUserData, UpdateUserData, UserStore, create, find_by_email, find_by_id, find_email,
  new_user, not_found_user, update, updated, has_email,
}

-- Every user stands under its id, and no two users share an email.
pub record IsSound (m : UserStore) : Type 0 where
  pub distinct : Distinct m
  pub keyed : (k : String) (u : User) → get k m ≡ some u → u.id ≡ k
  pub unique :
      (k j : String) (u v : User) → get k m ≡ some u → get j m ≡ some v → u.email ≡ v.email → k ≡ j

-- The search finds no user exactly when no entry has the email.
pub find_email-none :
    (email : String) (m : UserStore) (k : String) (u : User)
    → find_email email m ≡ none
    → get k m ≡ some u
    → u.email ≢ email
unfolding find_email
find_email-none email m k u n g e =
    ground (arith, eq_iff u.email email, find_value-none (has_email email) m k u n g)

-- What the search finds stands in the store, and has the email.
find_email-some :
    (email : String) (m : UserStore) (u : User)
    → Distinct m
    → find_email email m ≡ some u
    → (u.email ≡ email) × ((k : String) × (get k m ≡ some u))
unfolding find_email
find_email-some email m u d f =
    let (a, found) = find_value-some (has_email email) m u d f in
    ((eq_iff u.email email).0 a, found)

find_email-get :
    (m : UserStore) (u : User) → IsSound m → find_email u.email m ≡ some u → get u.id m ≡ some u
find_email-get m u s found =
    let (_, (k, g)) = find_email-some u.email m u s.distinct found in
    subst (λ x. get x m ≡ some u) (sym (s.keyed k u g)) g

get-find_email :
    (m : UserStore) (u : User) → IsSound m → get u.id m ≡ some u → find_email u.email m ≡ some u
unfolding find_email
get-find_email m u s stands =
    find_value_unique (has_email u.email) m u.id u s.distinct stands (str_eq_self u.email)
      (λ j w h a. s.unique j u.id w u h stands ((eq_iff w.email u.email).0 a))

ok-find_by_email :
    (email : String) (m : UserStore) (u : User)
    → (find_by_email email m ≡ ok u) ↔ (find_email email m ≡ some u)
unfolding find_by_email
ok-find_by_email email m u = (λ h. ground arith, λ h. ground arith)

ok-find_by_id :
    (id : String) (m : UserStore) (u : User) → (find_by_id id m ≡ ok u) ↔ (get id m ≡ some u)
unfolding find_by_id
ok-find_by_id id m u = (λ h. ground arith, λ h. ground arith)

-- A sound store finds a user by email exactly where it finds that user by its id.
pub find_by_email_iff :
    (m : UserStore) (u : User)
    → IsSound m
    → (find_by_email u.email m ≡ ok u) ↔ (find_by_id u.id m ≡ ok u)
find_by_email_iff m u s =
    let (e, e') = ok-find_by_email u.email m u in
    let (i, i') = ok-find_by_id u.id m u in
    (λ h. i' (find_email-get m u s (e h)), λ h. e' (get-find_email m u s (i h)))

-- A write of a user under its own id, whose email no other user has.
pub IsSound-set :
    (m : UserStore) (id : String) (w : User)
    → IsSound m
    → w.id ≡ id
    → ((k : String) (v : User) → get k m ≡ some v → v.email ≡ w.email → k ≡ id)
    → IsSound (set id w m)
IsSound-set m id w s own only = record {
  distinct = set-Distinct id w m s.distinct;
  keyed = λ k u g. ground (arith, get-set k id w m, eq_iff id k, s.keyed k u);
  unique = λ k j u v gu gv e. ground (
    arith,
    get-set k id w m,
    get-set j id w m,
    eq_iff id k,
    eq_iff id j,
    only k u,
    only j v,
    s.unique k j u v,
  );
}

-- A user is created under a new email only, and is then found by its email and by its id; the store
-- stays sound, whether it is created or not (the id is new).
pub create_lem :
    (id : String) (d : CreateUserData) (now : ℕ) (m : UserStore)
    → IsSound m
    → get id m ≡ none
    → let (r, m') = create id d now m in
      IsSound m'
      × ((r ≡ err (app_error conflict "Email already exists"))
            × (m' ≡ m)
            × ((u : User) × (find_by_email d.email m ≡ ok u))
          ⊎ (r ≡ ok (new_user id d now))
            × (find_by_email d.email m ≡ err not_found_user)
            × (find_by_email d.email m' ≡ r)
            × (find_by_id id m' ≡ r))
unfolding create new_user find_by_email find_by_id
create_lem id d now m s new = elim (Option-cases (find_email d.email m)) [
  | inr (u, f) ↦ rw (f, create, find_by_email) (s, inl (refl, refl, (u, refl)))
  | inl n ↦
      let w = new_user id d now in
      let only : (k : String) (v : User) → get k m ≡ some v → v.email ≡ w.email → k ≡ id =
        λ k v g e. absurd (find_email-none d.email m k v n g e) in
      let sound = IsSound-set m id w s refl only in
      let stored : find_by_id id (set id w m) ≡ ok w = rw (find_by_id, get-set_self id w m) in
      rw (n, create, find_by_email)
        (sound, inr (refl, refl, (find_by_email_iff (set id w m) w sound).1 stored, stored))
]

-- An update that names no email keeps the store sound.
pub update-IsSound :
    (id : String) (d : UpdateUserData) (now : ℕ) (m : UserStore)
    → IsSound m
    → d.email ≡ none
    → IsSound (update id d now m).1
unfolding update updated
update-IsSound id d now m s e = elim (Option-cases (get id m)) [
  | inl n ↦ rw (n, update) s
  | inr (u, g) ↦
      let w = updated d now u in
      rw (g, update)
        (IsSound-set m id w s (s.keyed id u g) (λ k v h same. s.unique k id v u h g (same ∙ rw e)))
]

-- An update to the email of another user is accepted, and leaves two users with one email.
pub update_duplicates :
    (m : UserStore) (k j : String) (u v : User) (d : UpdateUserData) (now : ℕ)
    → IsSound m
    → get k m ≡ some u
    → get j m ≡ some v
    → k ≢ j
    → d.email ≡ some v.email
    → ((update k d now m).0 ≡ ok (updated d now u)) × ¬ IsSound (update k d now m).1
unfolding update
update_duplicates m k j u v d now s gu gv ne e =
    let w = updated d now u in
    let same : w.email ≡ v.email = unfold updated in rw e in
    rw (gu, update)
      (
        refl,
        λ s'. ne (
            s'.unique k j w v (get-set_self k w m) (get-set_ne k j w m (λ p. ne (sym p)) ∙ gv)
              same),
      )
