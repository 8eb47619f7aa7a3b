-- ===== src/Database/ApiKeys/Tests.antt =====
-- Runs of the API keys, and their theorems at concrete tables.
use onlyapi.Base.{
  List, String, [], absent_some, find_value, get, has, if◌then◌else◌, none, refl, set, some, str_eq,
  sym, ◌≡◌, ◌≢◌, ◌∷◌,
}
use onlyapi.Core.Errors.{app_error, unauthorized}
use onlyapi.Core.Results.{err, ok}
use onlyapi.Database.ApiKeys.{
  ApiKeyRow, KeyStore, KeyTexts, create, create_for_days, expiry, is_over, new_key, new_row, revoke,
  row_to_api_key, touch, verify, verify_touch,
}
use onlyapi.Database.ApiKeys.Keys.{IsSound, verify-create}
use onlyapi.Database.ApiKeys.Revocation.{verify-revoke}

-- Scopes of one text, and hashes that are the keys.
abbrev texts : KeyTexts
texts = record {
  hash_key = λ raw. raw;
  prefix_of = λ raw. "oapi...";
  stringify = λ scopes. elim scopes [ [] ↦ "" | s ∷ _ ↦ s ];
  parse = λ text. if str_eq text "" then some [] else some (text ∷ []);
}

empty-IsSound : IsSound []
unfolding get
empty-IsSound = record {
  distinct = tt;
  ids = λ k row e. absurd (absent_some (sym e));
  hashes = λ j k r s e e' h. absurd (absent_some (sym e));
}

abbrev read_scope : List String
read_scope = "read" ∷ []

verify-create_example :
    let (answer, m') = create texts "k1" "oapi_1" "ann" "ci" read_scope (some 100) 5 [] in
    let key = new_key texts "k1" "oapi_1" "ann" "ci" read_scope (some 100) 5 in
    (answer ≡ ok (key, "oapi_1"))
    × (verify texts "oapi_1" 99 m' ≡ (
        if is_over (some 100) 99
        then err (app_error unauthorized "API key has expired")
        else ok key))
    × IsSound m'
unfolding get find_value
verify-create_example =
    verify-create texts "k1" "oapi_1" "ann" "ci" read_scope (some 100) 5 99 [] empty-IsSound refl
      refl refl

abbrev row : ApiKeyRow
row = record {
  id = "k1";
  user_id = "ann";
  name = "ci";
  key_hash = "oapi_1";
  key_prefix = "oapi...";
  scopes = "read";
  expires_at = some 100;
  last_used_at = none;
  created_at = 5;
}

abbrev table : KeyStore
table = (create texts "k1" "oapi_1" "ann" "ci" read_scope (some 100) 5 []).1

table-IsSound : IsSound table
unfolding get find_value
table-IsSound =
    (verify-create texts "k1" "oapi_1" "ann" "ci" read_scope (some 100) 5 99 [] empty-IsSound refl
      refl refl).2

table-row : get "k1" table ≡ some row
unfolding create new_row has get set find_value
table-row = refl

verify-revoke_example :
    let (answer, m') = revoke "k1" "ann" table in
    (answer ≡ ok tt)
    × (verify texts "oapi_1" 50 m' ≡ err (app_error unauthorized "Invalid API key"))
    × ((j : String) → j ≢ "k1" → get j m' ≡ get j table)
    × IsSound m'
verify-revoke_example = verify-revoke texts table row "oapi_1" 50 table-IsSound table-row refl

-- A key of one day is used on it, and that is written down.
used_today :
    verify_touch texts "oapi_2" 86400000 86400001
      (create_for_days texts "k2" "oapi_2" "ann" "ci" read_scope (some 1) 1 []).1
    ≡ (
      ok (new_key texts "k2" "oapi_2" "ann" "ci" read_scope (some 86400001) 1),
      touch 86400001 "k2"
          (("k2", new_row texts "k2" "oapi_2" "ann" "ci" read_scope (some 86400001) 1) ∷ []),
    )
unfolding verify_touch verify create_for_days create expiry new_row new_key row_to_api_key has get
    set find_value
used_today = refl
