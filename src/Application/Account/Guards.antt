-- ===== src/Application/Account/Guards.antt =====
-- What has to be shown before an account is changed.
use onlyapi.Application.Account.{
  AccountPorts, mfa_disable, mfa_disable_for, no_update, password_reset, reset_password,
  validate_password, store_password,
}
use onlyapi.Base.{Option-cases, String, arith, false, inl, inr, none, some, true, ◌≡◌}
use onlyapi.Core.Errors.{AppError}
use onlyapi.Core.Results.{Outcome-cases, err, ok}
use onlyapi.Core.Users.{User}

module _ {S : Type 0} (A : AccountPorts S) where
  -- The policy lets a password of a user pass.
  validate_password-ok :
      (password id : String) (s : S)
      → (validate_password A password (some id) s).0 ≡ ok tt
      → ((A.validate password).valid ≡ true) × ((A.check_history id password s).0 ≡ ok false)
  unfolding validate_password
  validate_password-ok password id s h = ground arith

  -- Storing a password that succeeds ends by revoking the user's sessions.
  store_password-revokes :
      (id password : String) (s : S)
      → (store_password A id password s).0 ≡ ok tt
      → (t : S) × ((store_password A id password s).1 ≡ (A.auth.revoke_all_for_user id t).1)
  unfolding store_password
  store_password-revokes id password s h = elim (Outcome-cases (A.hash_password password s).0) [
    | inl (e, p) ↦ absurd (unhashed e p)
    | inr (hash, p) ↦
        let s1 = (A.hash_password password s).1 in
        let d = record no_update {
          password_hash = some hash;
          password_changed_at = some (A.auth.now s1);
        } in
        let s2 = (A.update_user id d s1).1 in
        let s3 = (A.prune_history id A.history_count (A.add_history id hash s2).1).1 in
        elim (Outcome-cases (A.update_user id d s1).0) [
          | inl (e, q) ↦ absurd (refused hash e p q)
          | inr (u, q) ↦ (s3, ground arith)
        ]
  ]
    where
      unhashed : (e : AppError) → (A.hash_password password s).0 ≡ err e → ⊥
      unhashed e p = ground arith

      refused :
          (hash : String) (e : AppError)
          → (A.hash_password password s).0 ≡ ok hash
          → (A.update_user id
              (record no_update {
                password_hash = some hash;
                password_changed_at = some (A.auth.now (A.hash_password password s).1);
              })
              (A.hash_password password s).1).0
            ≡ err e
          → ⊥
      refused hash e p q = ground arith

  -- A reset succeeds only with a valid token and for a password that obeys the policy and is not in
  -- the history of the token's user, and the last thing it does is to end that user's sessions.
  pub reset_password-ok :
      (token password : String) (s : S)
      → (reset_password A token password s).0 ≡ ok tt
      → let (id', s1) = A.verify_verification token password_reset s in
        (id : String) × (id' ≡ ok id)
        × ((A.validate password).valid ≡ true)
        × ((A.check_history id password s1).0 ≡ ok false)
        × ((t : S) × ((reset_password A token password s).1 ≡ (A.auth.revoke_all_for_user id t).1))
  unfolding reset_password
  reset_password-ok token password s h =
      elim (Outcome-cases (A.verify_verification token password_reset s).0) [
        | inl (e, p) ↦ absurd (invalid e p)
        | inr (id, p) ↦
            let s1 = (A.verify_verification token password_reset s).1 in
            elim (Outcome-cases (validate_password A password (some id) s1).0) [
              | inl (e, q) ↦ absurd (forbidden_ id e p q)
              | inr (_, q) ↦
                  let (valid, fresh) = validate_password-ok password id s1 (ground arith) in
                  let (t, ends) =
                    store_password-revokes id password (validate_password A password (some id) s1).1
                      (ground arith) in
                  (id, p, valid, fresh, (t, ground arith))
            ]
      ]
    where
      invalid : (e : AppError) → (A.verify_verification token password_reset s).0 ≡ err e → ⊥
      invalid e p = ground arith

      forbidden_ :
          (id : String) (e : AppError)
          → (A.verify_verification token password_reset s).0 ≡ ok id
          → (validate_password A password
              (some id)
              (A.verify_verification token password_reset s).1).0
            ≡ err e
          → ⊥
      forbidden_ id e p q = ground arith

  mfa_disable_for-ok :
      (id code : String) (u : User) (s : S)
      → (mfa_disable_for A id u code s).0 ≡ ok tt
      → (u.mfa_enabled ≡ true)
        × ((secret : String) × (u.mfa_secret ≡ some secret)
            × ((A.auth.totp_verify secret code s).0 ≡ ok true))
  unfolding mfa_disable_for
  mfa_disable_for-ok id code u s h = elim (Option-cases u.mfa_secret) [
    | inl n ↦ absurd (unset n)
    | inr (secret, e) ↦ (ground arith, (secret, e, ground arith))
  ]
    where
      unset : u.mfa_secret ≡ none → ⊥
      unset n = ground arith

  -- MFA is turned off only for a user who has it on, and with a code for that user's secret.
  mfa_disable-ok :
      (id code : String) (s : S)
      → (mfa_disable A id code s).0 ≡ ok tt
      → let (user', s1) = A.auth.find_by_id id s in
        (u : User) × (user' ≡ ok u)
        × (u.mfa_enabled ≡ true)
        × ((secret : String) × (u.mfa_secret ≡ some secret)
            × ((A.auth.totp_verify secret code s1).0 ≡ ok true))
  unfolding mfa_disable
  mfa_disable-ok id code s h = elim (Outcome-cases (A.auth.find_by_id id s).0) [
    | inl (e, p) ↦ absurd (unknown e p)
    | inr (u, p) ↦
        let (on, factor) = mfa_disable_for-ok id code u (A.auth.find_by_id id s).1 (ground arith) in
        (u, p, on, factor)
  ]
    where
      unknown : (e : AppError) → (A.auth.find_by_id id s).0 ≡ err e → ⊥
      unknown e p = ground arith
