-- ===== src/Database/VerificationTokens/Single.antt =====
-- A verification token is good once.
use onlyapi.Application.Account.{VerificationTokenType}
use onlyapi.Base.{
  Option-cases, inl, inr, String, [], arith, find_value, none, some, str_eq_self, ℕ, ◌<◌, ◌∷◌, ◌≡◌,
}
use onlyapi.Core.Errors.{app_error, unauthorized}
use onlyapi.Core.Results.{err, ok}
use onlyapi.Database.VerificationTokens.{
  TokenStore, VerificationToken, mark_used, matches, verify_token,
}

-- The search finds a row that was marked as it found it before.
find_value-mark_used :
    (hash : String) (type : VerificationTokenType) (now : ℕ) (m : TokenStore)
    (row : VerificationToken)
    → find_value (matches hash type) m ≡ some row
    → find_value (matches hash type) (mark_used now row.id m)
      ≡ some (record row { used_at = some now })
unfolding find_value mark_used
find_value-mark_used hash type now [] row f = cc
find_value-mark_used hash type now ((k, r) ∷ m) row f =
    ground (arith, str_eq_self row.id, find_value-mark_used hash type now m row)

-- What is found on success: a row of that hash and type, unused and in time, of the user returned.
-- From then on the token is refused as used, at any time.
pub verify_token-once :
    (hash : String) (type : VerificationTokenType) (now later : ℕ) (m : TokenStore)
    (user_id : String)
    → (verify_token hash type now m).0 ≡ ok user_id
    → ((row : VerificationToken) × (find_value (matches hash type) m ≡ some row)
        × (row.user_id ≡ user_id)
        × (row.used_at ≡ none)
        × (now < row.expires_at))
      × ((verify_token hash type later (verify_token hash type now m).1).0
          ≡ err (app_error unauthorized "Token already used"))
unfolding verify_token
verify_token-once hash type now later m user_id h =
    elim (Option-cases (find_value (matches hash type) m)) [
      | inl n ↦ absurd (missing n)
      | inr (row, f) ↦ (
        (row, f, ground arith, ground arith, ground arith),
        ground (arith, find_value-mark_used hash type now m row f),
      )
    ]
  where
    missing : find_value (matches hash type) m ≡ none → ⊥
    missing n = ground arith
