-- ===== src/Database/ApiKeys.antt =====
-- src/infrastructure/database/sqlite-api-keys.ts, on the rows of the table api_keys of
-- src/infrastructure/database/migrations/004_auth_platform.ts by primary key, and
-- src/application/services/api-key.service.ts over it. SHA-256, JSON and the random key are
-- arguments; failures of the database are left out but for a key or a hash that is taken.
pub mod Keys
pub mod Revocation
mod Tests
use onlyapi.Base.{
  Bool, List, Map, Option, String, count, find_value, has, if◌then◌else◌, keep_if, leb, none, not,
  set, some, str_eq, ℕ, ◌&&◌, ◌*◌, ◌+◌, ◌==◌, ◌∷◌, [], false,
}
use onlyapi.Core.Errors.{AppError, app_error, internal, not_found, unauthorized}
use onlyapi.Core.Results.{Outcome, err, ok}

pub record ApiKeyRow : Type 0 where
  pub id : String
  pub user_id : String
  pub name : String
  pub key_hash : String
  pub key_prefix : String
  pub scopes : String
  pub expires_at : Option ℕ
  pub last_used_at : Option ℕ
  pub created_at : ℕ

pub record ApiKey : Type 0 where
  pub id : String
  pub user_id : String
  pub name : String
  pub key_prefix : String
  pub scopes : List String
  pub expires_at : Option ℕ
  pub last_used_at : Option ℕ
  pub created_at : ℕ

abbrev pub KeyStore : Type 0
KeyStore = Map ApiKeyRow

-- What the run time computes: the hash of a key, its first characters with "...", and the JSON of
-- the scopes, where `parse` throws `none`.
pub record KeyTexts : Type 0 where
  pub hash_key : String → String
  pub prefix_of : String → String
  pub stringify : List String → String
  pub parse : String → Option (List String)

-- `WHERE key_hash = ?`
abbrev pub has_hash : String → ApiKeyRow → Bool
has_hash hash row = str_eq row.key_hash hash

abbrev pub not_found_key : AppError
not_found_key = app_error not_found "API key not found"

-- `WHERE id = ? AND user_id = ?`
abbrev pub is_of : String → String → ApiKeyRow → Bool
is_of id user_id row = str_eq row.id id && str_eq row.user_id user_id

-- `row.expires_at !== null && row.expires_at <= Date.now()`
abbrev pub is_over : Option ℕ → ℕ → Bool
is_over expires_at now = elim expires_at [ none ↦ false | some at ↦ leb at now ]

-- `UPDATE api_keys SET last_used_at = ? WHERE id = ?`
pub touch : ℕ → String → KeyStore → KeyStore
touch now id [] = []
touch now id ((k, row) ∷ m) =
    (k, if str_eq row.id id then record row { last_used_at = some now } else row) ∷ touch now id m

pub revoke : String → String → KeyStore → Outcome (Unit {0}) × KeyStore
revoke id user_id m =
    if count (λ e. is_of id user_id e.1) m == 0
    then (err not_found_key, m)
    else (ok tt, keep_if (λ k row. not (is_of id user_id row)) m)

-- `expiresInDays ? Date.now() + ... : undefined`
pub expiry : Option ℕ → ℕ → Option ℕ
expiry none now = none
expiry (some days) now = if days == 0 then none else some (now + days * 24 * 60 * 60 * 1000)

module _ (T : KeyTexts) where
  pub row_to_api_key : ApiKeyRow → Option ApiKey
  row_to_api_key row = elim (T.parse row.scopes) [
    | none ↦ none
    | some scopes ↦ some (record {
      id = row.id;
      user_id = row.user_id;
      name = row.name;
      key_prefix = row.key_prefix;
      scopes = scopes;
      expires_at = row.expires_at;
      last_used_at = row.last_used_at;
      created_at = row.created_at;
    })
  ]

  -- The row that `create` inserts.
  pub new_row : String → String → String → String → List String → Option ℕ → ℕ → ApiKeyRow
  new_row id raw user_id name scopes expires_at now = record {
    id = id;
    user_id = user_id;
    name = name;
    key_hash = T.hash_key raw;
    key_prefix = T.prefix_of raw;
    scopes = T.stringify scopes;
    expires_at = expires_at;
    last_used_at = none;
    created_at = now;
  }

  -- The key that `create` returns.
  pub new_key : String → String → String → String → List String → Option ℕ → ℕ → ApiKey
  new_key id raw user_id name scopes expires_at now = record {
    id = id;
    user_id = user_id;
    name = name;
    key_prefix = T.prefix_of raw;
    scopes = scopes;
    expires_at = expires_at;
    last_used_at = none;
    created_at = now;
  }

  -- `id` is what `generateId` returns and `raw` what `generateRawKey` does.
  pub create :
      String
      → String
      → String
      → String
      → List String
      → Option ℕ
      → ℕ
      → KeyStore
      → Outcome (ApiKey × String) × KeyStore
  unfolding new_row new_key
  create id raw user_id name scopes expires_at now m =
      let taken = find_value (has_hash (T.hash_key raw)) m in
      let failed : Outcome (ApiKey × String) × KeyStore =
        (err (app_error internal "Failed to create API key"), m) in
      if has id m then failed else elim taken [
        | some _ ↦ failed
        | none ↦ (
          ok (new_key id raw user_id name scopes expires_at now, raw),
          set id (new_row id raw user_id name scopes expires_at now) m,
        )
      ]

  pub verify : String → ℕ → KeyStore → Outcome ApiKey
  unfolding row_to_api_key
  verify raw now m = elim (find_value (has_hash (T.hash_key raw)) m) [
    | none ↦ err (app_error unauthorized "Invalid API key")
    | some row ↦
        let key : Outcome ApiKey = elim (row_to_api_key row) [
          | none ↦ err (app_error internal "Failed to verify API key")
          | some k ↦ ok k
        ] in
        if is_over row.expires_at now
        then err (app_error unauthorized "API key has expired")
        else key
  ]

  -- `create` of the service.
  pub create_for_days :
      String
      → String
      → String
      → String
      → List String
      → Option ℕ
      → ℕ
      → KeyStore
      → Outcome (ApiKey × String) × KeyStore
  unfolding create expiry
  create_for_days id raw user_id name scopes days now m =
      create id raw user_id name scopes (expiry days now) now m

  -- `verify` of the service, which calls `touch` at the time `now'`.
  pub verify_touch : String → ℕ → ℕ → KeyStore → Outcome ApiKey × KeyStore
  unfolding verify touch
  verify_touch raw now now' m = elim (verify raw now m) [
    | err e ↦ (err e, m)
    | ok key ↦ (ok key, touch now' key.id m)
  ]
