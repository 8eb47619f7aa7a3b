-- ===== src/Security/TokenService/Tests.antt =====
-- Runs of the token service over a small platform, and its theorems there.
use onlyapi.Base.{
  split, prepend, subst, some_inj, All, List, Option, [], ap, ap₂, arith, if◌then◌else◌, map, none,
  refl, some, str_eq, ℕ, ◌+◌, ◌++◌, ◌-◌, ◌==◌, ◌≡◌, ◌∙◌, ◌∷◌, length, ◌%◌,
}
use onlyapi.Core.Errors.{app_error, unauthorized, internal}
use onlyapi.Core.Results.{err, ok}
use onlyapi.Security.Base32.{strip_padding, strip_step}
use onlyapi.Security.Base32.RoundTrip.{AreBytes}
use onlyapi.Security.TokenService.{
  jwt_header, create_jwt, base64url_encode, base64url, url_char, refresh_claims, verify_jwt,
  verify_split, verify_parts, read_claims, same_bytes, is_expired, base64url_decode, plain_char,
  Claims, JwtPair, Platform, multiplier, parse_digits, parse_duration, parse_unit, refresh, sign,
  verify, JwtPayload, claims_of, create_pair, with_times,
}
use onlyapi.Security.TokenService.RoundTrip.{IsPlatform, IsPlain, Survives}
use onlyapi.Security.TokenService.Signatures.{
  HasKey, refresh-sign, signed_claims, until, verify-sign,
}
use onlyapi.Security.TokenService.Forgery.{Signed, verify-Signed}

-- A base64 of one character for a byte, outside ASCII.
abbrev wide : List ℕ → List ℕ
wide bs = map (λ b. b + 256) bs

abbrev narrow : List ℕ → List ℕ
narrow cs = map (λ c. c - 256) cs

-- The type, the subject "u", the role "user" and the expiry in a text of one character each.
abbrev write : Claims → List ℕ
write claims =
    (elim claims.type_ [ none ↦ 0 | some t ↦ if str_eq t "refresh" then 2 else 1 ])
    ∷ (elim claims.iat [ none ↦ 0 | some i ↦ i % 256 ])
    ∷ (elim claims.exp [ none ↦ 0 | some e ↦ e % 256 ])
    ∷ []

abbrev read : List ℕ → Option Claims
read (t ∷ i ∷ e ∷ []) = some (record {
  sub = some "u";
  role = some "user";
  type_ = some (if t == 2 then "refresh" else "access");
  iat = some i;
  exp = some e;
})
read _ = none

abbrev small : Platform
small = record {
  hmac = λ key message. some (length key % 256 ∷ length message % 256 ∷ []);
  utf8 = λ text. text;
  btoa = wide;
  atob = λ text. some (narrow text);
  stringify = write;
  parse = read;
}

wide-IsPlain : (bs : List ℕ) → All IsPlain (wide bs)
wide-IsPlain [] = tt
wide-IsPlain (b ∷ bs) = ((λ h. omega arith, λ h. omega arith, λ h. omega arith), wide-IsPlain bs)

strip-wide : (bs : List ℕ) → strip_padding (wide bs) ≡ wide bs
unfolding strip_padding strip_step
strip-wide [] = refl
strip-wide (b ∷ []) = ground arith
strip-wide (b ∷ c ∷ bs) = rw (strip-wide (c ∷ bs)) refl

narrow-wide : (bs : List ℕ) → narrow (wide bs) ≡ bs
narrow-wide [] = refl
narrow-wide (b ∷ bs) = ap₂ (λ x xs. x ∷ xs) (omega arith) (narrow-wide bs)

small-IsPlatform : IsPlatform small
small-IsPlatform = record {
  btoa-plain = wide-IsPlain;
  atob-btoa = λ bs h. ap some (ap narrow (strip-wide bs) ∙ narrow-wide bs);
  hmac-bytes = λ key message mac h. subst AreBytes (some_inj h) (omega arith, (omega arith, tt));
}

abbrev secret : List ℕ
secret = 115 ∷ 51 ∷ []

small-HasKey : HasKey small secret
small-HasKey message = (length secret % 256 ∷ length message % 256 ∷ [], refl)

-- A pair signed at the second 100, its tokens for 15 and 60 seconds.
survives : Survives small (signed_claims "access" "u" "user" 15 100000)
unfolding with_times claims_of
survives = ((omega arith, (omega arith, (omega arith, tt))), refl, refl)

survives' : Survives small (signed_claims "refresh" "u" "user" 60 100000)
unfolding with_times claims_of
survives' = ((omega arith, (omega arith, (omega arith, tt))), refl, refl)

verify-sign_example :
    (pair : JwtPair) × (sign small secret 15 60 "u" "user" 100000 100000 ≡ ok pair)
    × (verify small secret pair.access_token 120000
        ≡ until 115 120000
            (ok (record { sub = some "u"; role = some "user" }))
            (err (app_error unauthorized "Invalid or expired token")))
    × (verify small secret pair.refresh_token 120000
        ≡ until 160 120000
            (ok (record { sub = some "u"; role = some "user" }))
            (err (app_error unauthorized "Invalid or expired token")))
verify-sign_example =
    verify-sign small secret 15 60 "u" "user" 100000 100000 small-IsPlatform small-HasKey survives
      survives' 120000

refresh-sign_example :
    (pair pair' : JwtPair) × (sign small secret 15 60 "u" "user" 100000 100000 ≡ ok pair)
    × (sign small secret 15 60 "u" "user" 120000 120000 ≡ ok pair')
    × (refresh small secret 15 60 pair.refresh_token 120000 120000 120000
        ≡ until 160 120000 (ok pair') (err (app_error unauthorized "Invalid refresh token")))
    × (refresh small secret 15 60 pair.access_token 120000 120000 120000
        ≡ err (app_error unauthorized "Invalid refresh token"))
refresh-sign_example =
    refresh-sign small secret 15 60 "u" "user" 100000 100000 small-IsPlatform small-HasKey survives
      survives' 120000 120000 120000

-- The two tokens of that pair.
abbrev access_token : List ℕ
access_token = (wide jwt_header ++ 46 ∷ 257 ∷ 356 ∷ 371 ∷ []) ++ 46 ∷ 258 ∷ 287 ∷ []

abbrev refresh_token : List ℕ
refresh_token = (wide jwt_header ++ 46 ∷ 258 ∷ 356 ∷ 416 ∷ []) ++ 46 ∷ 258 ∷ 287 ∷ []

the_pair :
    sign small secret 15 60 "u" "user" 100000 100000
    ≡ ok (record { access_token = access_token; refresh_token = refresh_token })
unfolding sign create_pair create_jwt with_times claims_of base64url_encode base64url url_char
    strip_padding strip_step
the_pair = refl

access_accepted :
    verify small secret access_token 115999 ≡ ok (record { sub = some "u"; role = some "user" })
unfolding verify verify_jwt verify_split verify_parts read_claims same_bytes is_expired split
    prepend base64url_decode plain_char
access_accepted = refl

access_expired :
    verify small secret access_token 116000
    ≡ err (app_error unauthorized "Invalid or expired token")
unfolding verify verify_jwt verify_split verify_parts read_claims same_bytes is_expired split
    prepend base64url_decode plain_char
access_expired = refl

-- Three parts of which the last is not base64 make `refresh` fail as if by an internal error.
abbrev strict : Platform
strict = record small { atob = λ text. none }

malformed_refresh :
    refresh strict secret 15 60 (120 ∷ 46 ∷ 121 ∷ 46 ∷ 122 ∷ []) 0 0 0
    ≡ err (app_error internal "Failed to refresh token")
unfolding refresh verify_jwt verify_split verify_parts read_claims same_bytes is_expired split
    prepend base64url_decode plain_char
malformed_refresh = refl

abbrev u_payload : JwtPayload
u_payload = record { sub = some "u"; role = some "user" }

verify-Signed_example :
    (claims : Claims) × Signed small secret 115999 claims access_token
    × (u_payload ≡ record { sub = claims.sub; role = claims.role })
verify-Signed_example =
    verify-Signed small secret access_token 115999 (record { sub = some "u"; role = some "user" })
      access_accepted

-- The pair that a refresh in the same second gives, the second of which is the token itself.
abbrev same_pair : JwtPair
same_pair = record { access_token = access_token; refresh_token = refresh_token }

same_second : refresh small secret 15 60 refresh_token 100500 100600 100600 ≡ ok same_pair
unfolding refresh refresh_claims create_pair create_jwt with_times claims_of base64url_encode
    base64url url_char strip_padding strip_step verify_jwt verify_split verify_parts read_claims
    same_bytes is_expired split prepend base64url_decode plain_char
same_second = refl

-- "15m" and "1.5h".
quarter_hour : parse_duration (49 ∷ 53 ∷ 109 ∷ []) ≡ some 900
unfolding parse_duration parse_digits parse_unit multiplier
quarter_hour = refl

no_fractions : parse_duration (49 ∷ 46 ∷ 53 ∷ 104 ∷ []) ≡ none
unfolding parse_duration parse_digits parse_unit multiplier
no_fractions = refl
