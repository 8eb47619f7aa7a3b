-- ===== src/Database/ApiKeys/Revocation.antt =====
-- What a key is worth after `revoke` and `touch`.
use onlyapi.Base.{
  Bool, Bool-cases, Distinct, Option-cases, String, absent_some, ap, arith, count, false,
  find_value, find_value-some, get, get-keep_if, get-keep_if-some, if◌then◌else◌, inl, inr, keep_if,
  keep_if-Distinct, none, not, refl, some, some_inj, str_eq, str_eq-cases, str_eq_self, str_eq_ne,
  subst, sym, true, true_ne_false, ℕ, ◌==◌, ◌≡◌, ◌≢◌, ◌∙◌, ◌∷◌, [], eq_iff, kept,
}
use onlyapi.Core.Errors.{app_error, unauthorized}
use onlyapi.Core.Results.{err, ok}
use onlyapi.Database.ApiKeys.{
  ApiKeyRow, KeyStore, KeyTexts, has_hash, is_of, not_found_key, revoke, verify,
}
use onlyapi.Database.ApiKeys.Keys.{IsSound, verify-none}

-- Rows that no longer match leave a sound table.
keep_if-entry :
    (p : String → ApiKeyRow → Bool) (m : KeyStore) (k : String) (row : ApiKeyRow)
    → Distinct m
    → get k (keep_if p m) ≡ some row
    → (get k m ≡ some row) × (p k row ≡ true)
keep_if-entry p m k row d e = elim (Option-cases (get k m)) [
  | inl n ↦ absurd (absent_some (sym e ∙ get-keep_if k p m d ∙ ap (kept p k) n))
  | inr (r, f) ↦
      let whole : (if p k r then some r else none) ≡ some row =
        sym (ap (kept p k) f) ∙ sym (get-keep_if k p m d) ∙ e in
      elim (Bool-cases (p k r)) [
        | inl t ↦
            let same : r ≡ row = some_inj (sym (ap (λ b. if b then some r else none) t) ∙ whole) in
            (f ∙ ap some same, subst (λ x. p k x ≡ true) same t)
        | inr n ↦ absurd (absent_some (sym whole ∙ ap (λ b. if b then some r else none) n))
      ]
]

keep_if-IsSound : (p : String → ApiKeyRow → Bool) (m : KeyStore) → IsSound m → IsSound (keep_if p m)
keep_if-IsSound p m w = record {
  distinct = keep_if-Distinct p m w.distinct;
  ids = λ k row e. w.ids k row (keep_if-entry p m k row w.distinct e).0;
  hashes = λ j k r s e e' h.
      w.hashes j k r s (keep_if-entry p m j r w.distinct e).0
        (keep_if-entry p m k s w.distinct e').0 h;
}

-- A row that matches is counted.
count-get :
    (test : ApiKeyRow → Bool) (m : KeyStore) (k : String) (row : ApiKeyRow)
    → get k m ≡ some row
    → test row ≡ true
    → (count (λ e. test e.1) m == 0) ≡ false
unfolding get
count-get test [] k row e t = absurd (absent_some (sym e))
count-get test ((j, r) ∷ m) k row e t = grind (arith, count-get test m k row)

count_none :
    (test : ApiKeyRow → Bool) (m : KeyStore)
    → ((k : String) (row : ApiKeyRow) → get k m ≡ some row → test row ≡ false)
    → Distinct m
    → (count (λ e. test e.1) m == 0) ≡ true
unfolding get
count_none test [] h d = ground arith
count_none test ((j, r) ∷ m) h d =
    let first = h j r (rw (str_eq_self j) refl) in
    let rest =
      count_none test m
        (λ k row e. h k row (elim (str_eq-cases j k) [
          | inl (y, same) ↦ absurd (absent_some (sym e ∙ ap (λ i. get i m) (sym same) ∙ d.0))
          | inr (f, other) ↦ rw f e
        ]))
        d.1 in
    ground (arith, first, rest)

is_of_self : (row : ApiKeyRow) → is_of row.id row.user_id row ≡ true
is_of_self row = rw (str_eq_self row.id, str_eq_self row.user_id) refl

-- The table without the rows that `revoke` deletes.
abbrev others : String → String → KeyStore → KeyStore
others id user_id m = keep_if (λ k r. not (is_of id user_id r)) m

-- The hash of a deleted row is found no more.
others-hash :
    (m : KeyStore) (row : ApiKeyRow) (hash : String)
    → IsSound m
    → get row.id m ≡ some row
    → hash ≡ row.key_hash
    → find_value (has_hash hash) (others row.id row.user_id m) ≡ none
others-hash m row hash w e h =
    elim (Option-cases (find_value (has_hash hash) (others row.id row.user_id m))) [
      | inl n ↦ n
      | inr (s, f) ↦
          let p : String → ApiKeyRow → Bool = λ k r. not (is_of row.id row.user_id r) in
          let (t, (k, g)) =
            find_value-some (has_hash hash) (keep_if p m) s (keep_if-Distinct p m w.distinct) f in
          let (g', stays) = keep_if-entry p m k s w.distinct g in
          let place = w.hashes k row.id s row g' e ((eq_iff s.key_hash hash).0 t ∙ h) in
          let same : s ≡ row = some_inj (sym g' ∙ ap (λ i. get i m) place ∙ e) in
          absurd (
            true_ne_false (
              sym stays
              ∙ ap (λ r. not (is_of row.id row.user_id r)) same
              ∙ ap not (is_of_self row)))
    ]

others-get :
    (m : KeyStore) (id user_id j : String)
    → IsSound m
    → j ≢ id
    → get j (others id user_id m) ≡ get j m
others-get m id user_id j w ne =
    let p : String → ApiKeyRow → Bool = λ k r. not (is_of id user_id r) in
    elim (Option-cases (get j m)) [
      | inl n ↦ get-keep_if j p m w.distinct ∙ ap (kept p j) n ∙ sym n
      | inr (s, f) ↦
          let away : str_eq s.id id ≡ false = str_eq_ne s.id id (λ q. ne (sym (w.ids j s f) ∙ q)) in
          get-keep_if-some j p m s f (rw away refl) ∙ sym f
    ]

-- A row that its user revokes is answered with success; its key is then unknown, and every other
-- row stays. The table stays sound.
pub verify-revoke :
    (T : KeyTexts) (m : KeyStore) (row : ApiKeyRow) (raw : String) (at : ℕ)
    → IsSound m
    → get row.id m ≡ some row
    → T.hash_key raw ≡ row.key_hash
    → let (answer, m') = revoke row.id row.user_id m in
      (answer ≡ ok tt)
      × (verify T raw at m' ≡ err (app_error unauthorized "Invalid API key"))
      × ((j : String) → j ≢ row.id → get j m' ≡ get j m)
      × IsSound m'
unfolding revoke
verify-revoke T m row raw at w e h =
    let some_row = count-get (is_of row.id row.user_id) m row.id row e (is_of_self row) in
    let m' = others row.id row.user_id m in
    rw some_row (
      refl,
      verify-none T raw at m' (others-hash m row (T.hash_key raw) w e h),
      λ j ne. others-get m row.id row.user_id j w ne,
      keep_if-IsSound (λ k r. not (is_of row.id row.user_id r)) m w,
    )

-- A user who is not that of the row is answered that there is no such key, and nothing changes.
pub revoke_others :
    (m : KeyStore) (row : ApiKeyRow) (user_id : String)
    → IsSound m
    → get row.id m ≡ some row
    → row.user_id ≢ user_id
    → revoke row.id user_id m ≡ (err not_found_key, m)
unfolding revoke
revoke_others m row user_id w e ne =
    let nobody : (k : String) (r : ApiKeyRow) → get k m ≡ some r → is_of row.id user_id r ≡ false =
      λ k r f. elim (str_eq-cases r.id row.id) [
        | inl (y, same) ↦
            let place = sym (w.ids k r f) ∙ same in
            let it : r ≡ row = some_inj (sym f ∙ ap (λ i. get i m) place ∙ e) in
            let differ = str_eq_ne r.user_id user_id (λ q. ne (sym (ap (λ x. x.user_id) it) ∙ q)) in
            rw (y, differ) refl
        | inr (n, other) ↦ rw n refl
      ] in
    rw (count_none (is_of row.id user_id) m nobody w.distinct) refl
