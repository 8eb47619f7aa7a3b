-- ===== src/Presentation/Access.antt =====
-- src/presentation/middleware/auth.ts, api-key.ts, cors.ts and versioning.ts, without the Response
-- objects. Texts are lists of code units; a header is `none` where the request has none.
pub mod Bearer
pub mod Versions
mod Tests
use onlyapi.Base.{
  starts_with, substring, str_eq, zero, suc, ◌==◌, Bool, List, Option, String, [], false,
  if◌then◌else◌, none, some, split, text_eq, true, ℕ, ◌++◌, ◌∷◌, ◌||◌,
}
use onlyapi.Core.Errors.{app_error, forbidden, unauthorized}
use onlyapi.Core.Results.{Outcome, err, ok}
use onlyapi.Security.TokenService.{JwtPayload, verify}

-- "Bearer"
abbrev pub bearer : List ℕ
bearer = 66 ∷ 101 ∷ 97 ∷ 114 ∷ 101 ∷ 114 ∷ []

module _ (verify : List ℕ → Outcome JwtPayload) where
  -- The parts of the header between spaces.
  pub authenticate_parts : List (List ℕ) → Outcome JwtPayload
  authenticate_parts (scheme ∷ token ∷ []) =
      let format : Outcome JwtPayload =
        err (app_error unauthorized "Invalid Authorization header format") in
      if text_eq scheme bearer
      then elim token [
        | [] ↦ err (app_error unauthorized "Missing token")
        | c ∷ cs ↦ verify (c ∷ cs)
      ]
      else format
  authenticate_parts _ = err (app_error unauthorized "Invalid Authorization header format")

  pub authenticate : Option (List ℕ) → Outcome JwtPayload
  unfolding authenticate_parts
  authenticate none = err (app_error unauthorized "Missing Authorization header")
  authenticate (some []) = err (app_error unauthorized "Missing Authorization header")
  authenticate (some (c ∷ cs)) = authenticate_parts (split 32 (c ∷ cs))

-- `allowedRoles.includes(payload.role)`
pub includes_role : Option String → List String → Bool
includes_role none roles = false
includes_role (some r) [] = false
includes_role (some r) (s ∷ roles) = str_eq s r || includes_role (some r) roles

pub authorise : JwtPayload → List String → Outcome JwtPayload
unfolding includes_role
authorise payload roles =
    if includes_role payload.role roles
    then ok payload
    else err (app_error forbidden "Insufficient permissions")

-- `verify` is that of the API-key service.
pub authenticate_api_key : {A : Type 0} → (List ℕ → Outcome A) → Option (List ℕ) → Outcome A
authenticate_api_key verify none = err (app_error unauthorized "Missing X-API-Key header")
authenticate_api_key verify (some []) = err (app_error unauthorized "Missing X-API-Key header")
authenticate_api_key verify (some (c ∷ cs)) = verify (c ∷ cs)

-- `allowedOrigins.includes(origin)`
unfoldable pub includes_origin : List ℕ → List (List ℕ) → Bool
includes_origin origin [] = false
includes_origin origin (o ∷ origins) = text_eq o origin || includes_origin origin origins

-- The origin that Access-Control-Allow-Origin names, `none` where the request is refused. The other
-- headers are fixed.
pub cors_origin : List (List ℕ) → Option (List ℕ) → Option (List ℕ)
unfolding includes_origin
cors_origin origins none = some (42 ∷ [])
cors_origin origins (some origin) =
    if includes_origin (42 ∷ []) origins || includes_origin origin origins
    then some origin
    else none

-- "/api/v1/" and "/api/v2/"
abbrev pub v1_prefix : List ℕ
v1_prefix = 47 ∷ 97 ∷ 112 ∷ 105 ∷ 47 ∷ 118 ∷ 49 ∷ 47 ∷ []

abbrev pub v2_prefix : List ℕ
v2_prefix = 47 ∷ 97 ∷ 112 ∷ 105 ∷ 47 ∷ 118 ∷ 50 ∷ 47 ∷ []

pub data ApiVersion : Type 0 where
  v1 : ApiVersion
  v2 : ApiVersion

-- The header Accept-Version is "v1" or "1".
pub accepts_v1 : Option (List ℕ) → Bool
accepts_v1 none = false
accepts_v1 (some accept) = text_eq accept (118 ∷ 49 ∷ []) || text_eq accept (49 ∷ [])

pub resolve_api_version : List ℕ → Option (List ℕ) → ApiVersion
unfolding starts_with accepts_v1
resolve_api_version path accept =
    if starts_with v1_prefix path
    then v1
    else if starts_with v2_prefix path
    then v2
    else if accepts_v1 accept
    then v1
    else v2

pub normalize_versioned_path : List ℕ → List ℕ × ApiVersion
unfolding starts_with substring
normalize_versioned_path path =
    if starts_with v2_prefix path
    then (v1_prefix ++ substring 8 path, v2)
    else if starts_with v1_prefix path
    then (path, v1)
    else (path, v2)
