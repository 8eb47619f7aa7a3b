-- ===== src/Security/TokenService.antt =====
-- src/infrastructure/security/token-service.ts. Texts are lists of code units, and the clock reads
-- milliseconds. The run time's HMAC, text encoder, base64 and JSON are the record `Platform`.
pub mod Durations
pub mod RoundTrip
pub mod Forgery
pub mod Signatures
mod Tests
use onlyapi.Base.{
  split, Bool, List, Option, String, [], false, if◌then◌else◌, leb, ltb, map, none, some, true, ℕ,
  ◌&&◌, ◌*◌, ◌+◌, ◌++◌, ◌-◌, ◌/◌, ◌==◌, ◌∷◌, str_eq,
}
use onlyapi.Core.Errors.{app_error, internal, unauthorized}
use onlyapi.Core.Results.{Outcome, err, ok}
use onlyapi.Security.Base32.{strip_padding}

-- The object that JSON.parse returns, by the fields the service reads. `none` is a field that is
-- missing or, for `exp`, not a number.
pub record Claims : Type 0 where
  pub sub : Option String
  pub role : Option String
  pub type_ : Option String
  pub iat : Option ℕ
  pub exp : Option ℕ

-- A call that throws returns `none`; `hmac` takes the bytes of the secret and those of the message.
pub record Platform : Type 0 where
  pub hmac : List ℕ → List ℕ → Option (List ℕ)
  pub utf8 : List ℕ → List ℕ
  pub btoa : List ℕ → List ℕ
  pub atob : List ℕ → Option (List ℕ)
  pub stringify : Claims → List ℕ
  pub parse : List ℕ → Option Claims

pub record JwtPair : Type 0 where
  pub access_token : List ℕ
  pub refresh_token : List ℕ

-- What verify returns: the fields of TokenPayload, that `as` takes for present.
pub record JwtPayload : Type 0 where
  pub sub : Option String
  pub role : Option String

-- The multipliers of the units s, m, h and d.
pub multiplier : ℕ → Option ℕ
multiplier c =
    if c == 115
    then some 1
    else if c == 109
    then some 60
    else if c == 104
    then some 3600
    else if c == 100
    then some 86400
    else none

-- The unit, where the digits end.
pub parse_unit : ℕ → List ℕ → Option ℕ
unfolding multiplier
parse_unit value [] = none
parse_unit value (c ∷ d ∷ cs) = none
parse_unit value (c ∷ []) = elim (multiplier c) [ none ↦ none | some m ↦ some (value * m) ]

-- `(\d+)([smhd])$` from where `value` and `digits` digits are read. It throws `none`.
pub parse_digits : ℕ → ℕ → List ℕ → Option ℕ
unfolding parse_unit
parse_digits value digits [] = none
parse_digits value digits (c ∷ cs) =
    let rest = parse_digits (value * 10 + (c - 48)) (digits + 1) cs in
    if leb 48 c && leb c 57 then rest else if digits == 0 then none else parse_unit value (c ∷ cs)

pub parse_duration : List ℕ → Option ℕ
unfolding parse_digits
parse_duration duration = parse_digits 0 0 duration

-- `replace(/\+/g, "-").replace(/\//g, "_")`, and back.
pub url_char : ℕ → ℕ
url_char c = if c == 43 then 45 else if c == 47 then 95 else c

unfoldable pub plain_char : ℕ → ℕ
plain_char c = if c == 45 then 43 else if c == 95 then 47 else c

-- What crypto.subtle.verify says: the two signatures are equal.
unfoldable pub same_bytes : List ℕ → List ℕ → Bool
same_bytes [] [] = true
same_bytes [] (b ∷ bs) = false
same_bytes (a ∷ as') [] = false
same_bytes (a ∷ as') (b ∷ bs) = a == b && same_bytes as' bs

-- `{"alg":"HS256","typ":"JWT"}`
abbrev pub jwt_header : List ℕ
jwt_header =
    123 ∷ 34 ∷ 97 ∷ 108 ∷ 103 ∷ 34 ∷ 58 ∷ 34 ∷ 72 ∷ 83 ∷ 50 ∷ 53 ∷ 54 ∷ 34 ∷ 44 ∷ 34 ∷ 116 ∷ 121
    ∷ 112 ∷ 34 ∷ 58 ∷ 34 ∷ 74 ∷ 87 ∷ 84 ∷ 34 ∷ 125 ∷ []

unfoldable pub is_expired : Claims → ℕ → Bool
is_expired claims now = elim claims.exp [ none ↦ false | some exp ↦ ltb exp (now / 1000) ]

pub with_times : Claims → ℕ → ℕ → Claims
with_times claims ttl now = record {
  sub = claims.sub;
  role = claims.role;
  type_ = claims.type_;
  iat = some (now / 1000);
  exp = some (now / 1000 + ttl);
}

pub claims_of : Option String → Option String → String → Claims
claims_of sub role type_ = record {
  sub = sub;
  role = role;
  type_ = some type_;
  iat = none;
  exp = none;
}

module _ (P : Platform) where
  pub base64url : List ℕ → List ℕ
  unfolding url_char strip_padding
  base64url bytes = strip_padding (map url_char (P.btoa bytes))

  pub base64url_encode : List ℕ → List ℕ
  unfolding base64url
  base64url_encode text = base64url (P.utf8 text)

  unfoldable pub base64url_decode : List ℕ → Option (List ℕ)
  unfolding plain_char
  base64url_decode text = P.atob (map plain_char text)

  pub create_jwt : Claims → List ℕ → ℕ → ℕ → Option (List ℕ)
  unfolding base64url_encode with_times
  create_jwt claims secret ttl now =
      let header = base64url_encode jwt_header in
      let body = base64url_encode (P.stringify (with_times claims ttl now)) in
      let data' = header ++ 46 ∷ body in
      elim (P.hmac (P.utf8 secret) (P.utf8 data')) [
        | none ↦ none
        | some sig ↦ some (data' ++ 46 ∷ base64url sig)
      ]

  -- The claims of a body whose signature is good; `some none` is the source's `null`.
  unfoldable pub read_claims : List ℕ → ℕ → Option (Option Claims)
  unfolding base64url_decode is_expired
  read_claims body now = elim (base64url_decode body) [
    | none ↦ none
    | some text ↦ elim (P.parse text) [
      | none ↦ none
      | some claims ↦ if is_expired claims now then some none else some (some claims)
    ]
  ]

  unfoldable pub verify_parts : List ℕ → List ℕ → List ℕ → List ℕ → ℕ → Option (Option Claims)
  unfolding read_claims same_bytes
  verify_parts secret header body sig now = elim (base64url_decode sig) [
    | none ↦ none
    | some sig_buf ↦ elim (P.hmac (P.utf8 secret) (P.utf8 (header ++ 46 ∷ body))) [
      | none ↦ none
      | some mac ↦ if same_bytes mac sig_buf then read_claims body now else some none
    ]
  ]

  unfoldable pub verify_split : List (List ℕ) → List ℕ → ℕ → Option (Option Claims)
  unfolding verify_parts
  verify_split (header ∷ body ∷ sig ∷ []) secret now = verify_parts secret header body sig now
  verify_split _ secret now = some none

  unfoldable pub verify_jwt : List ℕ → List ℕ → ℕ → Option (Option Claims)
  unfolding verify_split split
  verify_jwt token secret now = verify_split (split 46 token) secret now

  -- The two createJwt calls under Promise.all, where the clock reads `now` and then `now'`.
  pub create_pair : Option String → Option String → List ℕ → ℕ → ℕ → ℕ → ℕ → Option JwtPair
  unfolding create_jwt claims_of
  create_pair sub role secret access_ttl refresh_ttl now now' =
      elim (create_jwt (claims_of sub role "access") secret access_ttl now) [
        | none ↦ none
        | some access ↦ elim (create_jwt (claims_of sub role "refresh") secret refresh_ttl now') [
          | none ↦ none
          | some refresh ↦ some (record { access_token = access; refresh_token = refresh })
        ]
      ]

  unfoldable pub verify : List ℕ → List ℕ → ℕ → Outcome JwtPayload
  unfolding verify_jwt
  verify secret token now = elim (verify_jwt token secret now) [
    | none ↦ err (app_error unauthorized "Token verification failed")
    | some none ↦ err (app_error unauthorized "Invalid or expired token")
    | some (some claims) ↦ ok (record { sub = claims.sub; role = claims.role })
  ]

  module _ (secret : List ℕ) (access_ttl refresh_ttl : ℕ) where
    pub sign : String → String → ℕ → ℕ → Outcome JwtPair
    unfolding create_pair
    sign sub role now now' =
        elim (create_pair (some sub) (some role) secret access_ttl refresh_ttl now now') [
          | none ↦ err (app_error internal "Failed to sign token")
          | some pair ↦ ok pair
        ]

    -- The clock at the check, and at the two new tokens.
    pub refresh_claims : Claims → ℕ → ℕ → Outcome JwtPair
    unfolding create_pair
    refresh_claims claims now now' = elim claims.type_ [
      | none ↦ err (app_error unauthorized "Invalid refresh token")
      | some t ↦
          let pair = create_pair claims.sub claims.role secret access_ttl refresh_ttl now now' in
          if str_eq t "refresh"
          then elim pair [
            | none ↦ err (app_error internal "Failed to refresh token")
            | some p ↦ ok p
          ]
          else err (app_error unauthorized "Invalid refresh token")
    ]

    pub refresh : List ℕ → ℕ → ℕ → ℕ → Outcome JwtPair
    unfolding verify_jwt refresh_claims
    refresh token at now now' = elim (verify_jwt token secret at) [
      | none ↦ err (app_error internal "Failed to refresh token")
      | some none ↦ err (app_error unauthorized "Invalid refresh token")
      | some (some claims) ↦ refresh_claims claims now now'
    ]
