-- ===== src/Security/TokenService/Forgery.antt =====
-- What an accepted token carries: the HMAC of its first two parts.
use onlyapi.Base.{
  split, join, join-split, str_eq-cases, bind_some, Bool, List, Option, Option-cases, [],
  absent_some, some_inj, ap, arith, if◌then◌else◌, inl, inr, false, true, none, refl, some, sym, ℕ,
  ◌++◌, ◌≡◌, ◌∙◌, ◌∷◌, subst,
}
use onlyapi.Core.Errors.{app_error, unauthorized, internal}
use onlyapi.Core.Results.{Outcome, err, ok}
use onlyapi.Security.TokenService.{
  Claims, JwtPair, JwtPayload, Platform, base64url_decode, create_pair, is_expired, refresh,
  refresh_claims, verify, verify_jwt, verify_parts, verify_split, same_bytes, read_claims,
}

same_bytes-≡ : (a b : List ℕ) → same_bytes a b ≡ true → a ≡ b
unfolding same_bytes
same_bytes-≡ [] [] h = refl
same_bytes-≡ [] (b ∷ bs) h = absurd cc
same_bytes-≡ (a ∷ as') [] h = absurd cc
same_bytes-≡ (a ∷ as') (b ∷ bs) h = ground (arith, same_bytes-≡ as' bs)

unexpired_some :
    (b : Bool) (c claims : Claims)
    → (if b then some none else some (some c)) ≡ some (some claims)
    → (b ≡ false) × (c ≡ claims)
unexpired_some true c claims h = absurd (absent_some (sym (some_inj h)))
unexpired_some false c claims h = (refl, some_inj (some_inj h))

accepted_some :
    (b : Bool) (o : Option (Option Claims)) (claims : Claims)
    → (if b then o else some none) ≡ some (some claims)
    → (b ≡ true) × (o ≡ some (some claims))
accepted_some true o claims h = (refl, h)
accepted_some false o claims h = absurd (absent_some (sym (some_inj h)))

module _ (P : Platform) (secret : List ℕ) (at : ℕ) (claims : Claims) where
  -- The body holds these claims, which have not expired.
  pub Holds : List ℕ → Type 0
  Holds body =
      (text : List ℕ) × (base64url_decode P body ≡ some text)
      × (P.parse text ≡ some claims)
      × (is_expired claims at ≡ false)

  -- The last part is the HMAC of the first two, and the second holds the claims.
  pub Signed : List ℕ → Type 0
  unfolding Holds
  Signed token =
      (header body sig mac : List ℕ) × (token ≡ join 46 (header ∷ body ∷ sig ∷ []))
      × (base64url_decode P sig ≡ some mac)
      × (P.hmac (P.utf8 secret) (P.utf8 (header ++ 46 ∷ body)) ≡ some mac)
      × Holds body

  read_claims-Holds : (body : List ℕ) → read_claims P body at ≡ some (some claims) → Holds body
  unfolding Holds read_claims
  read_claims-Holds body h =
      let unexpired = λ (c : Claims). if is_expired c at then some none else some (some c) in
      let (text, e, h') =
        bind_some (base64url_decode P body)
          (λ t. elim (P.parse t) [ none ↦ none | some c ↦ unexpired c ]) h in
      let (c, e', last) = bind_some (P.parse text) unexpired h' in
      let (live, same) = unexpired_some (is_expired c at) c claims last in
      (text, e, e' ∙ ap some same, ap (λ d. is_expired d at) (sym same) ∙ live)

  verify_parts-Signed :
      (header body sig : List ℕ)
      → verify_parts P secret header body sig at ≡ some (some claims)
      → Signed (join 46 (header ∷ body ∷ sig ∷ []))
  unfolding Signed verify_parts
  verify_parts-Signed header body sig h =
      let checked =
        λ (buf mac : List ℕ). if same_bytes mac buf then read_claims P body at else some none in
      let (buf, e, h') =
        bind_some (base64url_decode P sig)
          (λ b. elim (P.hmac (P.utf8 secret) (P.utf8 (header ++ 46 ∷ body))) [
            | none ↦ none
            | some mac ↦ checked b mac
          ])
          h in
      let (mac, e', last) =
        bind_some (P.hmac (P.utf8 secret) (P.utf8 (header ++ 46 ∷ body))) (checked buf) h' in
      let (equal, read) = accepted_some (same_bytes mac buf) (read_claims P body at) claims last in
      let same = same_bytes-≡ mac buf equal in
      (
        header,
        body,
        sig,
        buf,
        refl,
        e,
        e' ∙ ap some same,
        unfold Holds in read_claims-Holds body read,
      )

  verify_split-Signed :
      (ps : List (List ℕ)) → verify_split P ps secret at ≡ some (some claims) → Signed (join 46 ps)
  unfolding verify_split
  verify_split-Signed (header ∷ body ∷ sig ∷ []) h = verify_parts-Signed header body sig h
  verify_split-Signed [] h = absurd cc
  verify_split-Signed (p ∷ []) h = absurd cc
  verify_split-Signed (p ∷ q ∷ []) h = absurd cc
  verify_split-Signed (p ∷ q ∷ r ∷ s ∷ ps) h = absurd cc

  verify_jwt-Signed :
      (token : List ℕ) → verify_jwt P token secret at ≡ some (some claims) → Signed token
  unfolding verify_jwt
  verify_jwt-Signed token h =
      subst Signed (join-split 46 token) (verify_split-Signed (split 46 token) h)

-- The check that an accepting answer of `verify` comes from.
verify_ok :
    (checked : Option (Option Claims)) (payload : JwtPayload)
    → elim checked [
      | none ↦ err (app_error unauthorized "Token verification failed")
      | some none ↦ err (app_error unauthorized "Invalid or expired token")
      | some (some claims) ↦ ok (record { sub = claims.sub; role = claims.role })
    ]
      ≡ ok payload
    → (claims : Claims) × (checked ≡ some (some claims))
      × (payload ≡ record { sub = claims.sub; role = claims.role })
verify_ok none payload h = absurd cc
verify_ok (some none) payload h = absurd cc
verify_ok (some (some claims)) payload h = (claims, refl, cc)

refresh_ok :
    (checked : Option (Option Claims)) (answer : Claims → Outcome JwtPair) (pair : JwtPair)
    → elim checked [
      | none ↦ err (app_error internal "Failed to refresh token")
      | some none ↦ err (app_error unauthorized "Invalid refresh token")
      | some (some claims) ↦ answer claims
    ]
      ≡ ok pair
    → (claims : Claims) × (checked ≡ some (some claims)) × (answer claims ≡ ok pair)
refresh_ok none answer pair h = absurd cc
refresh_ok (some none) answer pair h = absurd cc
refresh_ok (some (some claims)) answer pair h = (claims, refl, h)

pair_ok :
    (made : Option JwtPair) (pair : JwtPair)
    → elim made [ none ↦ err (app_error internal "Failed to refresh token") | some p ↦ ok p ]
      ≡ ok pair
    → made ≡ some pair
pair_ok none pair h = absurd cc
pair_ok (some p) pair h = cc

refresh_claims_ok :
    (P : Platform) (secret : List ℕ) (access_ttl refresh_ttl : ℕ) (claims : Claims) (now now' : ℕ)
    (pair : JwtPair)
    → refresh_claims P secret access_ttl refresh_ttl claims now now' ≡ ok pair
    → (claims.type_ ≡ some "refresh")
      × (create_pair P claims.sub claims.role secret access_ttl refresh_ttl now now' ≡ some pair)
unfolding refresh_claims
refresh_claims_ok P secret access_ttl refresh_ttl claims now now' pair h =
    elim (Option-cases claims.type_) [
      | inl n ↦ absurd (
          let h' : refresh_claims P secret access_ttl refresh_ttl claims now now'
              ≡ err (app_error unauthorized "Invalid refresh token") =
            rw (refresh_claims, n) refl in
          cc)
      | inr (t, e) ↦ elim (str_eq-cases t "refresh") [
        | inl (y, same) ↦ (
          e ∙ ap some same,
          pair_ok (create_pair P claims.sub claims.role secret access_ttl refresh_ttl now now') pair
              (sym rw (refresh_claims, e, y) refl ∙ h),
        )
        | inr (f, other) ↦ absurd (
            let h' : refresh_claims P secret access_ttl refresh_ttl claims now now'
                ≡ err (app_error unauthorized "Invalid refresh token") =
              rw (refresh_claims, e, f) refl in
            cc)
      ]
    ]

-- A token that `verify` accepts carries three parts between dots, of which the last is the HMAC of
-- the two before under the secret, and the middle one the claims, not expired, that are returned.
pub verify-Signed :
    (P : Platform) (secret token : List ℕ) (at : ℕ) (payload : JwtPayload)
    → verify P secret token at ≡ ok payload
    → (claims : Claims) × Signed P secret at claims token
      × (payload ≡ record { sub = claims.sub; role = claims.role })
unfolding verify
verify-Signed P secret token at payload h =
    let (claims, e, same) = verify_ok (verify_jwt P token secret at) payload h in
    (claims, verify_jwt-Signed P secret at claims token e, same)

-- A token that `refresh` exchanges is one that carries the HMAC too, its claims have the type
-- "refresh", and the new pair is made for the subject and the role they hold.
pub refresh-Signed :
    (P : Platform) (secret : List ℕ) (access_ttl refresh_ttl : ℕ) (token : List ℕ) (at now now' : ℕ)
    (pair : JwtPair)
    → refresh P secret access_ttl refresh_ttl token at now now' ≡ ok pair
    → (claims : Claims) × Signed P secret at claims token
      × (claims.type_ ≡ some "refresh")
      × (create_pair P claims.sub claims.role secret access_ttl refresh_ttl now now' ≡ some pair)
unfolding refresh refresh_claims
refresh-Signed P secret access_ttl refresh_ttl token at now now' pair h =
    let (claims, e, h') =
      refresh_ok (verify_jwt P token secret at)
        (λ c. refresh_claims P secret access_ttl refresh_ttl c now now') pair h in
    let (t, made) = refresh_claims_ok P secret access_ttl refresh_ttl claims now now' pair h' in
    (claims, verify_jwt-Signed P secret at claims token e, t, made)
