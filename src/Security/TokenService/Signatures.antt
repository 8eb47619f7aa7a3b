-- ===== src/Security/TokenService/Signatures.antt =====
-- What the service promises of the tokens it signs, and what an accepted token carries.
use onlyapi.Base.{
  Bool-cases, List, Option, String, ap, arith, if◌then◌else◌, inl, inr, ltb, none, refl, some, ℕ,
  ◌+◌, ◌++◌, ◌/◌, ◌≡◌, ◌∙◌, ◌∷◌,
}
use onlyapi.Core.Errors.{app_error, unauthorized}
use onlyapi.Core.Results.{Outcome, err, ok}
use onlyapi.Security.TokenService.{
  Claims, JwtPair, Platform, base64url_encode, claims_of, create_jwt, base64url, jwt_header,
  create_pair, is_expired, refresh, refresh_claims, sign, verify, verify_jwt, with_times,
}
use onlyapi.Security.TokenService.RoundTrip.{IsPlatform, Survives, verify_jwt-create_jwt}

-- The HMAC can be computed with the secret.
abbrev pub HasKey : Platform → List ℕ → Type 0
HasKey P secret = (message : List ℕ) → (mac : List ℕ) × (P.hmac (P.utf8 secret) message ≡ some mac)

create_jwt_made :
    (P : Platform) (claims : Claims) (secret : List ℕ) (ttl now : ℕ)
    → HasKey P secret
    → (token : List ℕ) × (create_jwt P claims secret ttl now ≡ some token)
unfolding create_jwt
create_jwt_made P claims secret ttl now key =
    let data' =
      base64url_encode P jwt_header
      ++ 46 ∷ base64url_encode P (P.stringify (with_times claims ttl now)) in
    let (mac, e) = key (P.utf8 data') in (data' ++ 46 ∷ base64url P mac, rw (create_jwt, e) refl)

-- The two tokens of a pair, which the service makes whatever the subject and the role.
create_pair_made :
    (P : Platform) (sub role : Option String) (secret : List ℕ)
    (access_ttl refresh_ttl now now' : ℕ)
    → HasKey P secret
    → (pair : JwtPair) × (create_pair P sub role secret access_ttl refresh_ttl now now' ≡ some pair)
      × (create_jwt P (claims_of sub role "access") secret access_ttl now ≡ some pair.access_token)
      × (create_jwt P (claims_of sub role "refresh") secret refresh_ttl now'
          ≡ some pair.refresh_token)
unfolding create_pair
create_pair_made P sub role secret access_ttl refresh_ttl now now' key =
    let (access, e) = create_jwt_made P (claims_of sub role "access") secret access_ttl now key in
    let (refresh, e') =
      create_jwt_made P (claims_of sub role "refresh") secret refresh_ttl now' key in
    (record { access_token = access; refresh_token = refresh }, rw (create_pair, e, e') refl, e, e')

-- The claims of the two tokens that `sign` makes.
abbrev pub signed_claims : String → String → String → ℕ → ℕ → Claims
signed_claims type_ sub role ttl now = with_times (claims_of (some sub) (some role) type_) ttl now

-- An answer up to the second `exp`, and the one after it.
abbrev pub until : {A : Type 0} → ℕ → ℕ → Outcome A → Outcome A → Outcome A
until exp at live dead = if ltb exp (at / 1000) then dead else live

until_same : {A : Type 0} (exp at : ℕ) (answer : Outcome A) → until exp at answer answer ≡ answer
until_same exp at answer = ground arith

is_expired_exp :
    (claims : Claims) (exp at : ℕ)
    → claims.exp ≡ some exp
    → is_expired claims at ≡ ltb exp (at / 1000)
unfolding is_expired
is_expired_exp claims exp at e = rw (is_expired, e) refl

-- What the check of a token with an expiry returns.
abbrev Checked : Platform → List ℕ → List ℕ → Claims → ℕ → Type 0
Checked P secret token claims at =
    verify_jwt P token secret at ≡ (if is_expired claims at then some none else some (some claims))

verify-Checked :
    (P : Platform) (secret token : List ℕ) (claims : Claims) (exp at : ℕ)
    → claims.exp ≡ some exp
    → Checked P secret token claims at
    → verify P secret token at
      ≡ until exp at
          (ok (record { sub = claims.sub; role = claims.role }))
          (err (app_error unauthorized "Invalid or expired token"))
unfolding verify
verify-Checked P secret token claims exp at e h =
    let h' =
      h ∙ ap (λ b. if b then some none else some (some claims)) (is_expired_exp claims exp at e) in
    elim (Bool-cases (ltb exp (at / 1000))) [
      | inl t ↦ rw (t, verify, h', t) refl
      | inr f ↦ rw (f, verify, h', f) refl
    ]

refresh-Checked :
    (P : Platform) (secret token : List ℕ) (access_ttl refresh_ttl : ℕ) (claims : Claims)
    (exp at now now' : ℕ)
    → claims.exp ≡ some exp
    → Checked P secret token claims at
    → refresh P secret access_ttl refresh_ttl token at now now'
      ≡ until exp at
          (refresh_claims P secret access_ttl refresh_ttl claims now now')
          (err (app_error unauthorized "Invalid refresh token"))
unfolding refresh
refresh-Checked P secret token access_ttl refresh_ttl claims exp at now now' e h =
    let h' =
      h ∙ ap (λ b. if b then some none else some (some claims)) (is_expired_exp claims exp at e) in
    elim (Bool-cases (ltb exp (at / 1000))) [
      | inl t ↦ rw (t, refresh, h', t) refl
      | inr f ↦ rw (f, refresh, h', f) refl
    ]

module _ (P : Platform) (secret : List ℕ) (access_ttl refresh_ttl : ℕ) (sub role : String)
    (now now' : ℕ) (laws : IsPlatform P) (key : HasKey P secret)
    (survives : Survives P (signed_claims "access" sub role access_ttl now))
    (survives' : Survives P (signed_claims "refresh" sub role refresh_ttl now')) where
  -- Signing returns a pair. Until its expiry each of its two tokens is accepted with the subject and
  -- the role signed, the refresh token as well as the access token, and after it neither is.
  pub verify-sign :
      (at : ℕ)
      → (pair : JwtPair) × (sign P secret access_ttl refresh_ttl sub role now now' ≡ ok pair)
        × (verify P secret pair.access_token at
            ≡ until
                (now / 1000 + access_ttl)
                at
                (ok (record { sub = some sub; role = some role }))
                (err (app_error unauthorized "Invalid or expired token")))
        × (verify P secret pair.refresh_token at
            ≡ until
                (now' / 1000 + refresh_ttl)
                at
                (ok (record { sub = some sub; role = some role }))
                (err (app_error unauthorized "Invalid or expired token")))
  unfolding sign with_times claims_of
  verify-sign at =
      let (pair, made, access, refresh) =
        create_pair_made P (some sub) (some role) secret access_ttl refresh_ttl now now' key in
      (
        pair,
        rw (sign, made) refl,
        verify-Checked P secret pair.access_token (signed_claims "access" sub role access_ttl now)
            (now / 1000 + access_ttl) at refl
            (verify_jwt-create_jwt P laws (claims_of (some sub) (some role) "access") secret
              pair.access_token access_ttl now at survives access),
        verify-Checked P secret pair.refresh_token
            (signed_claims "refresh" sub role refresh_ttl now') (now' / 1000 + refresh_ttl) at refl
            (verify_jwt-create_jwt P laws (claims_of (some sub) (some role) "refresh") secret
              pair.refresh_token refresh_ttl now' at survives' refresh),
      )

  -- Until its expiry the refresh token of a pair is exchanged for the pair that signing the same
  -- subject and role anew gives; after it, it is refused. An access token is never exchanged.
  pub refresh-sign :
      (at later later' : ℕ)
      → (pair pair' : JwtPair) × (sign P secret access_ttl refresh_ttl sub role now now' ≡ ok pair)
        × (sign P secret access_ttl refresh_ttl sub role later later' ≡ ok pair')
        × (refresh P secret access_ttl refresh_ttl pair.refresh_token at later later'
            ≡ until
                (now' / 1000 + refresh_ttl)
                at
                (ok pair')
                (err (app_error unauthorized "Invalid refresh token")))
        × (refresh P secret access_ttl refresh_ttl pair.access_token at later later'
            ≡ err (app_error unauthorized "Invalid refresh token"))
  unfolding sign with_times claims_of refresh_claims
  refresh-sign at later later' =
      let (pair, made, access, refresh) =
        create_pair_made P (some sub) (some role) secret access_ttl refresh_ttl now now' key in
      let (pair', made', access', refresh') =
        create_pair_made P (some sub) (some role) secret access_ttl refresh_ttl later later' key in
      let checked =
        verify_jwt-create_jwt P laws (claims_of (some sub) (some role) "access") secret
          pair.access_token access_ttl now at survives access in
      let checked' =
        verify_jwt-create_jwt P laws (claims_of (some sub) (some role) "refresh") secret
          pair.refresh_token refresh_ttl now' at survives' refresh in
      (
        pair,
        pair',
        rw (sign, made) refl,
        rw (sign, made') refl,
        refresh-Checked P secret pair.refresh_token access_ttl refresh_ttl
              (signed_claims "refresh" sub role refresh_ttl now') (now' / 1000 + refresh_ttl) at
              later later' refl checked'
            ∙ ap
                (λ r.
                  until (now' / 1000 + refresh_ttl) at r
                    (err (app_error unauthorized "Invalid refresh token")))
                (rw (refresh_claims, made') refl),
        refresh-Checked P secret pair.access_token access_ttl refresh_ttl
              (signed_claims "access" sub role access_ttl now) (now / 1000 + access_ttl) at later
              later' refl checked
            ∙ until_same (now / 1000 + access_ttl) at
                (err (app_error unauthorized "Invalid refresh token")),
      )
