-- ===== src/Database/VerificationTokens/Tests.antt =====
-- A token that is good once, at a concrete table.
use onlyapi.Application.Account.{password_reset}
use onlyapi.Base.{[], find_value, none, refl, some, ◌∷◌, ◌≡◌, ◌<◌}
use onlyapi.Core.Errors.{app_error, unauthorized}
use onlyapi.Core.Results.{err}
use onlyapi.Database.VerificationTokens.{TokenStore, VerificationToken, matches, verify_token}
use onlyapi.Database.VerificationTokens.Single.{verify_token-once}

abbrev reset_row : VerificationToken
reset_row = record {
  id = "t1";
  user_id = "1";
  type_ = password_reset;
  token_hash = "h1";
  expires_at = 3600;
  used_at = none;
  created_at = 0;
}

abbrev tokens : TokenStore
tokens = ("t1", reset_row) ∷ []

verify_token-once_example :
    ((row : VerificationToken) × (find_value (matches "h1" password_reset) tokens ≡ some row)
      × (row.user_id ≡ "1")
      × (row.used_at ≡ none)
      × (10 < row.expires_at))
    × ((verify_token "h1" password_reset 20 (verify_token "h1" password_reset 10 tokens).1).0
        ≡ err (app_error unauthorized "Token already used"))
unfolding verify_token find_value
verify_token-once_example = verify_token-once "h1" password_reset 10 20 tokens "1" refl
