-- ===== src/Database/VerificationTokens.antt =====
-- src/infrastructure/database/sqlite-verification-tokens.ts, on the rows of the table
-- verification_tokens by primary key. SHA-256 and the random token are arguments; failures of the
-- database are left out but for a key or a hash that is taken.
pub mod Single
mod Tests
use onlyapi.Application.Account.{VerificationTokenType, email_verification, password_reset}
use onlyapi.Base.{
  Bool, Map, Option, String, [], count, false, find_value, has, if◌then◌else◌, keep_if, leb, none,
  not, set, some, str_eq, true, ℕ, ◌&&◌, ◌+◌, ◌||◌, ◌∷◌,
}
use onlyapi.Core.Errors.{AppError, app_error, internal, unauthorized}
use onlyapi.Core.Results.{Outcome, err, ok}

pub record VerificationToken : Type 0 where
  pub id : String
  pub user_id : String
  pub type_ : VerificationTokenType
  pub token_hash : String
  pub expires_at : ℕ
  pub used_at : Option ℕ
  pub created_at : ℕ

abbrev pub TokenStore : Type 0
TokenStore = Map VerificationToken

abbrev pub same_type : VerificationTokenType → VerificationTokenType → Bool
same_type email_verification email_verification = true
same_type password_reset password_reset = true
same_type _ _ = false

-- `WHERE token_hash = ? AND type = ?`
abbrev pub matches : String → VerificationTokenType → VerificationToken → Bool
matches hash type row = str_eq row.token_hash hash && same_type row.type_ type

-- `raw` is what `generateRawToken` returns, `hash` its hash.
pub create_token :
    String
    → String
    → String
    → String
    → VerificationTokenType
    → ℕ
    → ℕ
    → TokenStore
    → Outcome String × TokenStore
create_token id raw hash user_id type ttl_ms now m =
    let taken = find_value (λ row. str_eq row.token_hash hash) m in
    let row : VerificationToken = record {
      id = id;
      user_id = user_id;
      type_ = type;
      token_hash = hash;
      expires_at = now + ttl_ms;
      used_at = none;
      created_at = now;
    } in
    let failed : Outcome String × TokenStore =
      (err (app_error internal "Failed to create verification token"), m) in
    if has id m then failed else elim taken [ some _ ↦ failed | none ↦ (ok raw, set id row m) ]

-- `UPDATE verification_tokens SET used_at = ? WHERE id = ?`
pub mark_used : ℕ → String → TokenStore → TokenStore
mark_used now id [] = []
mark_used now id ((k, row) ∷ m) =
    (k, if str_eq row.id id then record row { used_at = some now } else row) ∷ mark_used now id m

unfoldable pub verify_token :
    String → VerificationTokenType → ℕ → TokenStore → Outcome String × TokenStore
verify_token hash type now m = elim (find_value (matches hash type) m) [
  | none ↦ (err (app_error unauthorized "Invalid or expired token"), m)
  | some row ↦ elim row.used_at [
    | some _ ↦ (err (app_error unauthorized "Token already used"), m)
    | none ↦
        if leb row.expires_at now
        then (err (app_error unauthorized "Token has expired"), m)
        else (ok row.user_id, mark_used now row.id m)
  ]
]

pub invalidate_tokens : String → VerificationTokenType → TokenStore → TokenStore
invalidate_tokens user_id type m =
    keep_if (λ k row. not (str_eq row.user_id user_id && same_type row.type_ type)) m

-- `WHERE expires_at <= ? OR used_at IS NOT NULL`
abbrev pub is_done : ℕ → VerificationToken → Bool
is_done now row = leb row.expires_at now || elim row.used_at [ none ↦ false | some _ ↦ true ]

pub prune_tokens : ℕ → TokenStore → ℕ × TokenStore
prune_tokens now m = (count (λ e. is_done now e.1) m, keep_if (λ k row. not (is_done now row)) m)
