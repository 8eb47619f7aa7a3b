-- ===== src/Database/ApiKeys/Keys.antt =====
-- When a key is accepted.
use onlyapi.Base.{
  set-entry, true_ne_false, Distinct, List, Option, String, ap, find_value, find_value-none,
  find_value_unique, get, get-set_self, has, if◌then◌else◌, inl, inr, none, refl, set, set-Distinct,
  some, str_eq_self, subst, sym, ℕ, ◌≡◌, ◌∙◌, eq_iff,
}
use onlyapi.Core.Errors.{app_error, unauthorized}
use onlyapi.Core.Results.{Outcome, err, ok}
use onlyapi.Database.ApiKeys.{
  ApiKey, ApiKeyRow, KeyStore, KeyTexts, create, has_hash, is_over, new_key, new_row,
  row_to_api_key, verify,
}

-- The keys of the table: a row stands under its id, and no two rows have one hash.
pub record IsSound (m : KeyStore) : Type 0 where
  pub distinct : Distinct m
  pub ids : (k : String) (row : ApiKeyRow) → get k m ≡ some row → row.id ≡ k
  pub hashes :
      (j k : String) (r s : ApiKeyRow)
      → get j m ≡ some r
      → get k m ≡ some s
      → r.key_hash ≡ s.key_hash
      → j ≡ k

-- In a sound table the search by a hash finds the row that has it.
pub find_row :
    (m : KeyStore) (k : String) (row : ApiKeyRow)
    → IsSound m
    → get k m ≡ some row
    → find_value (has_hash row.key_hash) m ≡ some row
find_row m k row w e =
    find_value_unique (has_hash row.key_hash) m k row w.distinct e (str_eq_self row.key_hash)
      (λ j r g t. w.hashes j k r row g e ((eq_iff r.key_hash row.key_hash).0 t))

module _ (T : KeyTexts) where
  -- What `verify` answers by the row that the search finds.
  pub verify-none :
      (raw : String) (now : ℕ) (m : KeyStore)
      → find_value (has_hash (T.hash_key raw)) m ≡ none
      → verify T raw now m ≡ err (app_error unauthorized "Invalid API key")
  unfolding verify
  verify-none raw now m e = rw (verify, e) refl

  pub verify_row :
      (raw : String) (now : ℕ) (m : KeyStore) (row : ApiKeyRow) (key : ApiKey)
      → find_value (has_hash (T.hash_key raw)) m ≡ some row
      → row_to_api_key T row ≡ some key
      → verify T raw now m ≡ (
          if is_over row.expires_at now
          then err (app_error unauthorized "API key has expired")
          else ok key)
  unfolding verify
  verify_row raw now m row key e e' = rw (verify, e, e') refl

  -- A new row under an id and with a hash that no row has.
  set-IsSound :
      (m : KeyStore) (row : ApiKeyRow)
      → IsSound m
      → find_value (has_hash row.key_hash) m ≡ none
      → IsSound (set row.id row m)
  set-IsSound m row w fresh =
      let clash : (k : String) (s : ApiKeyRow) → get k m ≡ some s → s.key_hash ≡ row.key_hash → ⊥ =
        λ k s e h. true_ne_false (
          sym ((eq_iff s.key_hash row.key_hash).1 h)
          ∙ find_value-none (has_hash row.key_hash) m k s fresh e) in
      record {
        distinct = set-Distinct row.id row m w.distinct;
        ids = λ k r e. elim (set-entry row.id k row r m e) [
          | inl (same, p) ↦ ap (λ x. x.id) p ∙ same
          | inr old ↦ w.ids k r old
        ];
        hashes = λ j k r s e e' h. elim (set-entry row.id j row r m e) [
          | inl (same, p) ↦ elim (set-entry row.id k row s m e') [
            | inl (same', p') ↦ sym same ∙ same'
            | inr old' ↦ absurd (clash k s old' (sym h ∙ ap (λ x. x.key_hash) p))
          ]
          | inr old ↦ elim (set-entry row.id k row s m e') [
            | inl (same', p') ↦ absurd (clash j r old (h ∙ ap (λ x. x.key_hash) p'))
            | inr old' ↦ w.hashes j k r s old old' h
          ]
        ];
      }

  create_fresh :
      (id raw user_id name : String) (scopes : List String) (expires_at : Option ℕ) (now : ℕ)
      (m : KeyStore)
      → get id m ≡ none
      → find_value (has_hash (T.hash_key raw)) m ≡ none
      → create T id raw user_id name scopes expires_at now m ≡ (
        ok (new_key T id raw user_id name scopes expires_at now, raw),
        set id (new_row T id raw user_id name scopes expires_at now) m,
      )
  unfolding create has
  create_fresh id raw user_id name scopes expires_at now m n fresh = rw (create, has, n, fresh) refl

  -- Where the id and the hash are new and JSON gives the scopes back, `create` returns the key, and
  -- the raw key is accepted with it until it expires and refused from then on; the table stays sound.
  pub verify-create :
      (id raw user_id name : String) (scopes : List String) (expires_at : Option ℕ) (now at : ℕ)
      (m : KeyStore)
      → IsSound m
      → get id m ≡ none
      → find_value (has_hash (T.hash_key raw)) m ≡ none
      → T.parse (T.stringify scopes) ≡ some scopes
      → let (answer, m') = create T id raw user_id name scopes expires_at now m in
        let key = new_key T id raw user_id name scopes expires_at now in
        (answer ≡ ok (key, raw))
        × (verify T raw at m' ≡ (
            if is_over expires_at at
            then err (app_error unauthorized "API key has expired")
            else ok key))
        × IsSound m'
  unfolding new_row new_key row_to_api_key
  verify-create id raw user_id name scopes expires_at now at m w n fresh parsed =
      let row = new_row T id raw user_id name scopes expires_at now in
      let key = new_key T id raw user_id name scopes expires_at now in
      let made = create_fresh id raw user_id name scopes expires_at now m n fresh in
      let w' = set-IsSound m row w fresh in
      let found = find_row (set id row m) id row w' (get-set_self id row m) in
      subst
        (λ (r : Outcome (ApiKey × String) × KeyStore).
          (r.0 ≡ ok (key, raw))
          × (verify T raw at r.1 ≡ (
              if is_over expires_at at
              then err (app_error unauthorized "API key has expired")
              else ok key))
          × IsSound r.1)
        (sym made)
        (
          refl,
          verify_row raw at (set id row m) row key found (rw (row_to_api_key, parsed) refl),
          w',
        )
