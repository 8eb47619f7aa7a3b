-- ===== src/Presentation/Access/Bearer.antt =====
-- What a request that is let through carries.
use onlyapi.Base.{
  Bool, List, Option, [], ap, false, if◌then◌else◌, join, join-split, none, refl, some, split,
  text_eq, text_eq-≡, true, ℕ, ◌++◌, ◌≡◌, ◌∙◌, ◌∷◌, subst,
}
use onlyapi.Core.Errors.{app_error, unauthorized}
use onlyapi.Core.Results.{Outcome, err, ok}
use onlyapi.Presentation.Access.{authenticate, authenticate_parts, bearer}
use onlyapi.Security.TokenService.{Claims, JwtPayload, Platform, verify}
use onlyapi.Security.TokenService.Forgery.{Signed, verify-Signed}

module _ (check : List ℕ → Outcome JwtPayload) (payload : JwtPayload) where
  -- The scheme, a space and a token that the check accepts.
  abbrev Carries : List ℕ → Type 0
  Carries header = (token : List ℕ) × (header ≡ bearer ++ 32 ∷ token) × (check token ≡ ok payload)

  scheme_ok :
      (scheme : List ℕ) (b : Bool) (c : ℕ) (cs : List ℕ)
      → text_eq scheme bearer ≡ b
      → (if b
          then check (c ∷ cs)
          else err (app_error unauthorized "Invalid Authorization header format"))
        ≡ ok payload
      → Carries (join 32 (scheme ∷ (c ∷ cs) ∷ []))
  unfolding join
  scheme_ok scheme true c cs e h =
      (c ∷ cs, ap (λ s. s ++ 32 ∷ c ∷ cs) (text_eq-≡ scheme bearer e), h)
  scheme_ok scheme false c cs e h = absurd cc

  no_token :
      (b : Bool)
      → (if b
          then err (app_error unauthorized "Missing token")
          else err (app_error unauthorized "Invalid Authorization header format"))
        ≡ ok payload
      → ⊥
  no_token true h = cc
  no_token false h = cc

  parts_ok :
      (parts : List (List ℕ))
      → authenticate_parts check parts ≡ ok payload
      → Carries (join 32 parts)
  unfolding authenticate_parts
  parts_ok [] h = absurd cc
  parts_ok (p ∷ []) h = absurd cc
  parts_ok (scheme ∷ [] ∷ []) h = absurd (no_token (text_eq scheme bearer) h)
  parts_ok (scheme ∷ (c ∷ cs) ∷ []) h = scheme_ok scheme (text_eq scheme bearer) c cs refl h
  parts_ok (p ∷ q ∷ r ∷ ps) h = absurd cc

  authenticate_ok :
      (header : Option (List ℕ))
      → authenticate check header ≡ ok payload
      → (text : List ℕ) × (header ≡ some text) × Carries text
  unfolding authenticate
  authenticate_ok none h = absurd cc
  authenticate_ok (some []) h = absurd cc
  authenticate_ok (some (c ∷ cs)) h =
      (c ∷ cs, refl, subst Carries (join-split 32 (c ∷ cs)) (parts_ok (split 32 (c ∷ cs)) h))

-- A request that the token service lets through has a header Authorization of "Bearer", a space and a
-- token that carries the HMAC of its first two parts and, in the second, claims that have not expired
-- and that are returned.
pub authenticate-Signed :
    (P : Platform) (secret : List ℕ) (at : ℕ) (header : Option (List ℕ)) (payload : JwtPayload)
    → authenticate (λ token. verify P secret token at) header ≡ ok payload
    → (token : List ℕ) × (claims : Claims) × (header ≡ some (bearer ++ 32 ∷ token))
      × Signed P secret at claims token
      × (payload ≡ record { sub = claims.sub; role = claims.role })
authenticate-Signed P secret at header payload h =
    let (text, e, (token, e', accepted)) =
      authenticate_ok (λ t. verify P secret t at) payload header h in
    let (claims, signed, same) = verify-Signed P secret token at payload accepted in
    (token, claims, e ∙ ap some e', signed, same)
