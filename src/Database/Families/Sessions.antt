-- ===== src/Database/Families/Sessions.antt =====
-- A family is a login session: what each operation does to the session of an id.
use onlyapi.Base.{
  Bool, Distinct, Option, String, [], arith, eq_iff, get, if◌then◌else◌, none, refl, some, str_eq,
  ℕ, ◌∷◌, ◌≡◌, ap, ◌∙◌, ◌≢◌, ◌⊎◌,
}
use onlyapi.Database.Families.{
  FamilyStore, RefreshTokenFamily, is_at, rotate, rotated, update_where, revoke_all_for_user,
  revoke_family, revoked_at,
}

-- A row as an update leaves it.
abbrev pub changed :
    (RefreshTokenFamily → Bool)
    → (RefreshTokenFamily → RefreshTokenFamily)
    → Option RefreshTokenFamily
    → Option RefreshTokenFamily
changed test change none = none
changed test change (some f) = some (if test f then change f else f)

pub get-update_where :
    (test : RefreshTokenFamily → Bool) (change : RefreshTokenFamily → RefreshTokenFamily)
    (m : FamilyStore) (k : String)
    → get k (update_where test change m) ≡ changed test change (get k m)
unfolding update_where get
get-update_where test change [] k = refl
get-update_where test change ((j, f) ∷ m) k =
    ground (arith, eq_iff j k, get-update_where test change m k)

-- The rows stand under their ids, and no two of them hold the same hash.
pub record IsSound (m : FamilyStore) : Type 0 where
  pub distinct : Distinct m
  pub keyed : (k : String) (f : RefreshTokenFamily) → get k m ≡ some f → f.id ≡ k
  pub unique :
      (k j : String) (f g : RefreshTokenFamily)
      → get k m ≡ some f
      → get j m ≡ some g
      → f.current_token_hash ≡ g.current_token_hash
      → k ≡ j

-- The session of an id: its user and the hash that it would accept, unless it is revoked.
abbrev pub session_of : Option RefreshTokenFamily → Option (String × String)
session_of none = none
session_of (some f) = if f.revoked then none else some (f.user_id, f.current_token_hash)

pub session : String → FamilyStore → Option (String × String)
session k m = session_of (get k m)

-- A rotation moves the session of its id from the old hash to the new one.
abbrev pub advance : String → String → Option (String × String) → Option (String × String)
advance old_hash new_hash none = none
advance old_hash new_hash (some (u, h)) =
    if str_eq h old_hash then some (u, new_hash) else some (u, h)

-- Whatever it returns, a rotation writes the rows at its hash.
rotate-rows :
    (id old_hash new_hash : String) (now : ℕ) (m : FamilyStore)
    → (rotate id old_hash new_hash now m).1
      ≡ update_where (is_at id old_hash) (rotated new_hash now) m
unfolding rotate
rotate-rows id old_hash new_hash now m = ground arith

rotated-session :
    (k id old_hash new_hash : String) (now : ℕ) (o : Option RefreshTokenFamily)
    → ((f : RefreshTokenFamily) → o ≡ some f → f.id ≡ k)
    → session_of (changed (is_at id old_hash) (rotated new_hash now) o)
      ≡ (if str_eq k id then advance old_hash new_hash (session_of o) else session_of o)
rotated-session k id old_hash new_hash now none own = ground arith
rotated-session k id old_hash new_hash now (some f) own =
    let own' : f.id ≡ k = own f refl in ground (arith, eq_iff f.id id, eq_iff k id)

rotate-get :
    (id old_hash new_hash : String) (now : ℕ) (m : FamilyStore) (k : String)
    → get k (rotate id old_hash new_hash now m).1
      ≡ changed (is_at id old_hash) (rotated new_hash now) (get k m)
rotate-get id old_hash new_hash now m k =
    ap (λ n. get k n) (rotate-rows id old_hash new_hash now m)
    ∙ get-update_where (is_at id old_hash) (rotated new_hash now) m k

-- In a sound table, a rotation moves the session of its id from the old hash to the new one, where that
-- session is at the old hash, and changes no other session. It writes the hash and the time of the row
-- of its id, where that row holds the old hash, and nothing else of it: a revoked row has no session
-- before or after, although it is written too. Any other row stays, and none is added.
pub rotate-session :
    (id old_hash new_hash : String) (now : ℕ) (m : FamilyStore) (k : String)
    → IsSound m
    → let m' = (rotate id old_hash new_hash now m).1 in
      (session k m'
        ≡ (if str_eq k id then advance old_hash new_hash (session k m) else session k m))
      × ((f : RefreshTokenFamily)
          → get k m ≡ some f
          → k ≡ id
          → f.current_token_hash ≡ old_hash
          → get k m' ≡ some (record f { current_token_hash = new_hash; updated_at = now }))
      × ((f : RefreshTokenFamily)
          → get k m ≡ some f
          → (k ≢ id) ⊎ (f.current_token_hash ≢ old_hash)
          → get k m' ≡ some f)
      × (get k m ≡ none → get k m' ≡ none)
unfolding session
rotate-session id old_hash new_hash now m k s =
    let row = rotate-get id old_hash new_hash now m k in
    (
      ap session_of row ∙ rotated-session k id old_hash new_hash now (get k m) (s.keyed k),
      λ f g same at.
          let own = s.keyed k f g in
          row ∙ rw g (ground (arith, eq_iff f.id id, eq_iff f.current_token_hash old_hash)),
      λ f g other.
          let own = s.keyed k f g in
          row ∙ rw g (ground (arith, eq_iff f.id id, eq_iff f.current_token_hash old_hash)),
      λ n. row ∙ rw n refl,
    )

-- Revoking a user ends the sessions of that user and no other.
pub revoke_all_for_user-session :
    (user_id : String) (now : ℕ) (m : FamilyStore) (k : String)
    → session k (revoke_all_for_user user_id now m) ≡ elim (session k m) [
      | none ↦ none
      | some (u, h) ↦ if str_eq u user_id then none else some (u, h)
    ]
unfolding revoke_all_for_user session
revoke_all_for_user-session user_id now m k =
    ap session_of (get-update_where (λ f. str_eq f.user_id user_id) (revoked_at now) m k)
    ∙ ended (get k m)
  where
    ended :
        (o : Option RefreshTokenFamily)
        → session_of (changed (λ f. str_eq f.user_id user_id) (revoked_at now) o)
          ≡ elim (session_of o) [
            | none ↦ none
            | some (u, h) ↦ if str_eq u user_id then none else some (u, h)
          ]
    ended none = refl
    ended (some f) = ground arith

pub revoke_family-session :
    (id : String) (now : ℕ) (m : FamilyStore) (k : String)
    → IsSound m
    → session k (revoke_family id now m) ≡ (if str_eq k id then none else session k m)
unfolding revoke_family session
revoke_family-session id now m k s =
    ap session_of (get-update_where (λ f. str_eq f.id id) (revoked_at now) m k)
    ∙ ended (get k m) (s.keyed k)
  where
    ended :
        (o : Option RefreshTokenFamily)
        → ((f : RefreshTokenFamily) → o ≡ some f → f.id ≡ k)
        → session_of (changed (λ f. str_eq f.id id) (revoked_at now) o)
          ≡ (if str_eq k id then none else session_of o)
    ended none own = ground arith
    ended (some f) own =
        let own' : f.id ≡ k = own f refl in ground (arith, eq_iff f.id id, eq_iff k id)
