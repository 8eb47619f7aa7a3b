-- ===== src/Application/Auth/Login.antt =====
-- Who is let in by `login`, and what a refused attempt leaves behind.
use onlyapi.Application.Auth.{
  LoginResponse, Ports, create_tokens, found, login, login_rejected, login_unlocked, login_verified,
  bad_credentials, full_response, mfa_response, holds, payload_of,
}
use onlyapi.Base.{
  String, arith, false, none, true, ◌≡◌, inl, inr, if◌then◌else◌, some, Bool, Option, ℕ,
}
use onlyapi.Core.Errors.{AppError, app_error, forbidden}
use onlyapi.Core.Results.{ok, Outcome-cases, err, Outcome}
use onlyapi.Core.Tokens.{TokenPair}
use onlyapi.Core.Users.{User}

module _ {S : Type 0} (P : Ports S) where
  -- What a login hands out: the pair that is signed for the user, or with MFA on an answer that has the
  -- access token of that pair for a challenge, and no tokens.
  pub Grants : String → User → S → LoginResponse → Type 0
  Grants email u s r =
      (pair : TokenPair) × ((P.sign (payload_of u) (P.reset_attempts email s).1).0 ≡ ok pair)
      × (r ≡ (if u.mfa_enabled then mfa_response pair else full_response pair))

  login_verified-ok :
      (email : String) (u : User) (s : S) (r : LoginResponse)
      → (login_verified P email u s).0 ≡ ok r
      → (P.is_password_expired u.password_changed_at (P.reset_attempts email s).1 ≡ false)
        × Grants email u s r
  unfolding login_verified create_tokens Grants
  login_verified-ok email u s r h =
      elim (Outcome-cases (P.sign (payload_of u) (P.reset_attempts email s).1).0) [
        | inl (e, p) ↦ absurd (unsigned e p)
        | inr (pair, p) ↦ (ground arith, (pair, p, ground arith))
      ]
    where
      unsigned : (e : AppError) → (P.sign (payload_of u) (P.reset_attempts email s).1).0 ≡ err e → ⊥
      unsigned e p = ground arith

  login_unlocked-ok :
      (email password : String) (s : S) (r : LoginResponse)
      → (login_unlocked P email password s).0 ≡ ok r
      → let (user', s2) = P.find_by_email email s in
        (u : User) × (user' ≡ ok u)
        × (let (matches, s3) = P.verify_password password u.password_hash s2 in
            (matches ≡ ok true)
            × (P.is_password_expired u.password_changed_at (P.reset_attempts email s3).1 ≡ false)
            × Grants email u s3 r)
  unfolding login_unlocked login_rejected
  login_unlocked-ok email password s r h = elim (Outcome-cases (P.find_by_email email s).0) [
    | inl (e, p) ↦ absurd (refused e p)
    | inr (u, p) ↦ (
      u,
      p,
      ground (
        arith,
        login_verified-ok email u
            (P.verify_password password u.password_hash (P.find_by_email email s).1).1 r,
      ),
    )
  ]
    where
      refused : (e : AppError) → (P.find_by_email email s).0 ≡ err e → ⊥
      refused e p = ground arith

  -- A login succeeds only for an account that is not locked, whose user is found and has the password
  -- given, where that is not expired. It hands out the pair that is signed for that user; with MFA on it
  -- hands out empty tokens and the access token of that pair as the challenge.
  pub login-ok :
      (email password : String) (s : S) (r : LoginResponse)
      → (login P email password s).0 ≡ ok r
      → let (lock, s1) = P.is_locked email s in
        let (user', s2) = P.find_by_email email s1 in
        (found lock ≡ none)
        × ((u : User) × (user' ≡ ok u)
            × (let (matches, s3) = P.verify_password password u.password_hash s2 in
                (matches ≡ ok true)
                × (P.is_password_expired u.password_changed_at (P.reset_attempts email s3).1
                    ≡ false)
                × Grants email u s3 r))
  unfolding login
  login-ok email password s r h =
      ground (arith, login_unlocked-ok email password (P.is_locked email s).1 r)

  -- An account that is not locked has a failure counted for it by a wrong password, and the answer
  -- says only whether that locks it.
  pub login_mismatch-counts :
      (email password : String) (u : User) (lock : Outcome (Option ℕ)) (locked : Outcome Bool)
      (s s1 s2 s3 s4 : S)
      → P.is_locked email s ≡ (lock, s1)
      → found lock ≡ none
      → P.find_by_email email s1 ≡ (ok u, s2)
      → P.verify_password password u.password_hash s2 ≡ (ok false, s3)
      → P.record_failed_attempt email s3 ≡ (locked, s4)
      → login P email password s ≡ (
        err (
            if holds locked
            then app_error forbidden
                "Account locked due to too many failed attempts. Try again later."
            else bad_credentials),
        s4,
      )
  unfolding login login_unlocked login_rejected
  login_mismatch-counts email password u lock locked s s1 s2 s3 s4 l f g v r = ground arith

  -- An unknown email is counted, and answered as a wrong password that does not lock is.
  pub login_unknown-counts :
      (email password : String) (e : AppError) (lock : Outcome (Option ℕ)) (s s1 s2 : S)
      → P.is_locked email s ≡ (lock, s1)
      → found lock ≡ none
      → P.find_by_email email s1 ≡ (err e, s2)
      → login P email password s ≡ (err bad_credentials, (P.record_failed_attempt email s2).1)
  unfolding login login_unlocked
  login_unknown-counts email password e lock s s1 s2 l f g = ground arith

  -- With MFA on, the challenge that a password buys is the access token itself: the one that the same
  -- call would hand out for the same user with MFA off.
  pub login_verified-mfa :
      (email : String) (u : User) (s : S) (r : LoginResponse)
      → u.mfa_enabled ≡ true
      → (login_verified P email u s).0 ≡ ok r
      → (r' : LoginResponse) × ((login_verified P email (record u { mfa_enabled = false }) s).0
          ≡ ok r')
        × (r.mfa_token ≡ some r'.access_token)
  unfolding login_verified create_tokens
  login_verified-mfa email u s r on h =
      elim (Outcome-cases (P.sign (payload_of u) (P.reset_attempts email s).1).0) [
        | inl (e, p) ↦ absurd (unsigned e p)
        | inr (pair, p) ↦ (full_response pair, ground arith, ground arith)
      ]
    where
      unsigned : (e : AppError) → (P.sign (payload_of u) (P.reset_attempts email s).1).0 ≡ err e → ⊥
      unsigned e p = ground arith
