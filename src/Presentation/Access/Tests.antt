-- ===== src/Presentation/Access/Tests.antt =====
-- Runs of the middleware, and its theorems at a concrete request.
use onlyapi.Base.{
  List, [], none, refl, some, split, prepend, text_eq, ℕ, ◌++◌, ◌≡◌, ◌∷◌, length, ◌%◌,
}
use onlyapi.Core.Errors.{app_error, forbidden, unauthorized}
use onlyapi.Core.Results.{err, ok}
use onlyapi.Presentation.Access.{
  accepts_v1, authenticate, authenticate_api_key, authenticate_parts, authorise, bearer,
  cors_origin, includes_origin, includes_role, resolve_api_version, v1,
}
use onlyapi.Base.{starts_with}
use onlyapi.Presentation.Access.Bearer.{authenticate-Signed}
use onlyapi.Security.TokenService.{
  Claims, JwtPayload, Platform, verify, verify_jwt, verify_split, verify_parts, read_claims,
  same_bytes, is_expired, base64url_decode, plain_char,
}
use onlyapi.Security.TokenService.Forgery.{Signed}

-- A platform on which a signature is the length of the message, and every body holds one claim.
abbrev plain : Platform
plain = record {
  hmac = λ key message. some (length message % 256 ∷ []);
  utf8 = λ text. text;
  btoa = λ bytes. bytes;
  atob = λ text. some text;
  stringify = λ claims. [];
  parse = λ text. some (record {
    sub = some "u";
    role = some "user";
    type_ = some "access";
    iat = some 1;
    exp = some 9;
  });
}

-- "a.b" with its length, 3.
abbrev token : List ℕ
token = 97 ∷ 46 ∷ 98 ∷ 46 ∷ 3 ∷ []

abbrev payload : JwtPayload
payload = record { sub = some "u"; role = some "user" }

let_through : authenticate (λ t. verify plain [] t 9000) (some (bearer ++ 32 ∷ token)) ≡ ok payload
unfolding authenticate authenticate_parts split prepend text_eq verify verify_jwt verify_split
    verify_parts read_claims same_bytes is_expired base64url_decode plain_char
let_through = refl

authenticate-Signed_example :
    (t : List ℕ) × (claims : Claims) × (some (bearer ++ 32 ∷ token) ≡ some (bearer ++ 32 ∷ t))
    × Signed plain [] 9000 claims t
    × (payload ≡ record { sub = claims.sub; role = claims.role })
authenticate-Signed_example =
    authenticate-Signed plain [] 9000 (some (bearer ++ 32 ∷ token)) payload let_through

other_scheme :
    authenticate (λ t. ok payload) (some (66 ∷ 32 ∷ token))
    ≡ err (app_error unauthorized "Invalid Authorization header format")
unfolding authenticate authenticate_parts split prepend text_eq
other_scheme = refl

only_admins :
    authorise payload ("admin" ∷ []) ≡ err (app_error forbidden "Insufficient permissions")
unfolding authorise includes_role
only_admins = refl

no_key :
    authenticate_api_key (λ key. ok payload) none
    ≡ err (app_error unauthorized "Missing X-API-Key header")
unfolding authenticate_api_key
no_key = refl

-- With a wildcard every origin is named back.
any_origin : cors_origin ((42 ∷ []) ∷ []) (some (101 ∷ [])) ≡ some (101 ∷ [])
unfolding cors_origin includes_origin text_eq
any_origin = refl

asked_for_v1 : resolve_api_version (47 ∷ []) (some (49 ∷ [])) ≡ v1
unfolding resolve_api_version starts_with accepts_v1 text_eq
asked_for_v1 = refl
