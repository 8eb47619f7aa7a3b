-- ===== src/Security/PasswordPolicy/History.antt =====
-- The check against the passwords in use before, and the age of a password.
use onlyapi.Base.{
  All, Bool, List, [], any, arith, false, not, refl, some, true, ℕ, ◌&&◌, ◌*◌, ◌++◌, ◌+◌, ◌<◌, ◌↔◌,
  ◌∷◌, ◌≡◌, ◌≤◌,
}
use onlyapi.Core.Errors.{AppError}
use onlyapi.Core.Results.{Outcome, err, ok}
use onlyapi.Security.PasswordPolicy.{PasswordPolicyConfig, check_history, history_loop, is_expired}

-- Where the hasher answers for every hash, the loop finds out whether one of them matches.
history_loop-any {ℓ} :
    {Hash : Type ℓ} (matches : Hash → Bool) (hashes : List Hash)
    → history_loop (λ h. ok (matches h)) hashes ≡ ok (any matches hashes)
unfolding history_loop
history_loop-any matches [] = refl
history_loop-any matches (h ∷ hashes) = ground (arith, history_loop-any matches hashes)

-- A password is refused exactly if it matches a hash among the last `history_count`.
pub check_history-any {ℓ} :
    {Hash : Type ℓ} (c : PasswordPolicyConfig) (matches : Hash → Bool) (get_recent : ℕ → List Hash)
    → 0 < c.history_count
    → check_history c (λ h. ok (matches h)) (λ n. ok (get_recent n))
      ≡ ok (any matches (get_recent c.history_count))
unfolding check_history
check_history-any c matches get_recent asked =
    ground (arith, history_loop-any matches (get_recent c.history_count))

-- A hash that the hasher fails on is reported, unless an earlier one matches.
pub check_history-err {ℓ} :
    {Hash : Type ℓ} (c : PasswordPolicyConfig) (verify : Hash → Outcome Bool)
    (get_recent : ℕ → Outcome (List Hash)) (before after : List Hash) (h : Hash) (e : AppError)
    → 0 < c.history_count
    → get_recent c.history_count ≡ ok (before ++ h ∷ after)
    → All (λ x. verify x ≡ ok false) before
    → verify h ≡ err e
    → check_history c verify get_recent ≡ err e
unfolding check_history history_loop
check_history-err {Hash} c verify get_recent before after h e asked r miss fails =
    ground (arith, loop before miss)
  where
    loop :
        (xs : List Hash)
        → All (λ x. verify x ≡ ok false) xs
        → history_loop verify (xs ++ h ∷ after) ≡ err e
    loop [] miss = ground arith
    loop (x ∷ xs) miss = ground (arith, miss.0, loop xs miss.1)

-- A password expires once, for good, when its age exceeds the configured number of days.
pub is_expired-age :
    (c : PasswordPolicyConfig) (changed_at now later : ℕ)
    → 0 < c.max_age_days
    → now ≤ later
    → ((is_expired c (some changed_at) now ≡ true) ↔ (changed_at + 86400000 * c.max_age_days < now))
      × ((is_expired c (some changed_at) now && not (is_expired c (some changed_at) later)) ≡ false)
unfolding is_expired
is_expired-age c changed_at now later asked le =
    ((λ h. ground arith, λ h. ground arith), ground arith)
