-- ===== src/Database/Families.antt =====
-- src/infrastructure/database/sqlite-refresh-token-store.ts: the table refresh_token_families of
-- src/infrastructure/database/migrations/004_auth_platform.ts, with its rows by primary key in the
-- order of insertion, and one function for each statement. The foreign key to the users is left out,
-- and so are failures of the database but the one on a key that is taken.
pub mod Sessions
mod Tests
use onlyapi.Base.{
  find_value, Bool, Map, Option, String, [], count, false, get, has, if◌then◌else◌, keep_if, ltb,
  none, not, set, some, str_eq, true, ℕ, ◌&&◌, ◌+◌, ◌-◌, ◌∷◌, ◌==◌,
}
use onlyapi.Core.Errors.{AppError, app_error, internal, unauthorized}
use onlyapi.Core.Results.{Outcome, err, ok}

pub record RefreshTokenFamily : Type 0 where
  pub id : String
  pub user_id : String
  pub current_token_hash : String
  pub revoked : Bool
  pub created_at : ℕ
  pub updated_at : ℕ

abbrev pub FamilyStore : Type 0
FamilyStore = Map RefreshTokenFamily

-- `UPDATE refresh_token_families SET ... WHERE ...`; the statements below change no key.
pub update_where :
    (RefreshTokenFamily → Bool)
    → (RefreshTokenFamily → RefreshTokenFamily)
    → FamilyStore
    → FamilyStore
update_where test change [] = []
update_where test change ((k, f) ∷ m) =
    (k, if test f then change f else f) ∷ update_where test change m

-- How many rows a statement changes.
abbrev pub changes : (RefreshTokenFamily → Bool) → FamilyStore → ℕ
changes test m = count (λ e. test e.1) m

-- `id` is what `generateId` returns.
pub create_family : String → String → String → ℕ → FamilyStore → Outcome String × FamilyStore
create_family id user_id token_hash now m =
    if has id m then (err (app_error internal "Failed to create refresh token family"), m) else (
      ok id,
      set id
          (record {
            id = id;
            user_id = user_id;
            current_token_hash = token_hash;
            revoked = false;
            created_at = now;
            updated_at = now;
          })
          m,
    )

-- `WHERE id = ? AND current_token_hash = ?`
abbrev pub is_at : String → String → RefreshTokenFamily → Bool
is_at id token_hash f = str_eq f.id id && str_eq f.current_token_hash token_hash

abbrev pub rotated : String → ℕ → RefreshTokenFamily → RefreshTokenFamily
rotated token_hash now f = record f { current_token_hash = token_hash; updated_at = now }

pub rotate : String → String → String → ℕ → FamilyStore → Outcome (Unit {0}) × FamilyStore
rotate id old_hash new_hash now m =
    let m' = update_where (is_at id old_hash) (rotated new_hash now) m in
    if changes (is_at id old_hash) m == 0
    then (err (app_error unauthorized "Token rotation failed — token mismatch"), m')
    else (ok tt, m')

abbrev pub has_hash : String → RefreshTokenFamily → Bool
has_hash token_hash f = str_eq f.current_token_hash token_hash

-- The first row with the hash.
unfoldable pub find_by_token_hash : String → FamilyStore → Option RefreshTokenFamily
find_by_token_hash token_hash m = find_value (has_hash token_hash) m

abbrev pub revoked_at : ℕ → RefreshTokenFamily → RefreshTokenFamily
revoked_at now f = record f { revoked = true; updated_at = now }

pub revoke_family : String → ℕ → FamilyStore → FamilyStore
revoke_family id now m = update_where (λ f. str_eq f.id id) (revoked_at now) m

pub revoke_all_for_user : String → ℕ → FamilyStore → FamilyStore
revoke_all_for_user user_id now m = update_where (λ f. str_eq f.user_id user_id) (revoked_at now) m

-- `updated_at < now - maxAgeMs`; no time is below a negative cutoff, nor below 0.
pub prune : ℕ → ℕ → FamilyStore → ℕ × FamilyStore
prune max_age_ms now m = (
  count (λ e. ltb e.1.updated_at (now - max_age_ms)) m,
  keep_if (λ k f. not (ltb f.updated_at (now - max_age_ms))) m,
)
