-- ===== src/Presentation/Router.antt =====
-- The dispatch of src/presentation/routes/router.ts, with the handlers as names and the 404 answer as
-- `none`. Methods and paths are texts.
pub mod Routes
pub mod Matchers
pub mod Dispatch
mod Tests
use onlyapi.Base.{
  Bool, List, Option, String, [], codes, false, if◌then◌else◌, length, none, some, suc, take,
  text_eq, true, zero, ℕ, ◌&&◌, ◌+◌, ◌++◌, ◌==◌, ◌||◌, ◌∷◌,
}
use onlyapi.Base.{starts_with, substring}

-- A handler, with the parameters that the path gives it.
pub data Route : Type 0 where
  shallow_check deep_check : Route
  register login refresh logout : Route
  verify_email resend_verification forgot_password reset_password : Route
  mfa_setup mfa_enable mfa_disable mfa_verify : Route
  get_me update_me delete_me : Route
  create_key list_keys create_webhook list_webhooks stream list_users : Route
  docs_json docs_html serve_metrics : Route
  get_user change_role ban_user unban_user : List ℕ → Route
  revoke_key remove_webhook authorize callback : List ℕ → Route

abbrev pub admin_prefix : List ℕ
admin_prefix = codes "/api/v1/admin/users/"

abbrev pub api_key_prefix : List ℕ
api_key_prefix = codes "/api/v1/api-keys/"

abbrev pub oauth_prefix : List ℕ
oauth_prefix = codes "/api/v1/auth/oauth/"

abbrev pub webhook_prefix : List ℕ
webhook_prefix = codes "/api/v1/webhooks/"

-- The map of the static routes.
abbrev pub routes : List (List ℕ × Route)
routes =
    (codes "GET /health", shallow_check)
    ∷ (codes "GET /readiness", deep_check)
    ∷ (codes "POST /api/v1/auth/register", register)
    ∷ (codes "POST /api/v1/auth/login", login)
    ∷ (codes "POST /api/v1/auth/refresh", refresh)
    ∷ (codes "POST /api/v1/auth/logout", logout)
    ∷ (codes "POST /api/v1/auth/verify-email", verify_email)
    ∷ (codes "POST /api/v1/auth/resend-verification", resend_verification)
    ∷ (codes "POST /api/v1/auth/forgot-password", forgot_password)
    ∷ (codes "POST /api/v1/auth/reset-password", reset_password)
    ∷ (codes "POST /api/v1/auth/mfa/setup", mfa_setup)
    ∷ (codes "POST /api/v1/auth/mfa/enable", mfa_enable)
    ∷ (codes "POST /api/v1/auth/mfa/disable", mfa_disable)
    ∷ (codes "POST /api/v1/auth/mfa/verify", mfa_verify)
    ∷ (codes "GET /api/v1/users/me", get_me)
    ∷ (codes "PATCH /api/v1/users/me", update_me)
    ∷ (codes "DELETE /api/v1/users/me", delete_me)
    ∷ (codes "POST /api/v1/api-keys", create_key)
    ∷ (codes "GET /api/v1/api-keys", list_keys)
    ∷ (codes "POST /api/v1/webhooks", create_webhook)
    ∷ (codes "GET /api/v1/webhooks", list_webhooks)
    ∷ (codes "GET /api/v1/events/stream", stream)
    ∷ (codes "GET /api/v1/admin/users", list_users)
    ∷ (codes "GET /docs", docs_json)
    ∷ (codes "GET /docs/html", docs_html)
    ∷ (codes "GET /metrics", serve_metrics)
    ∷ []

-- `routes.get(key)`
pub find_route : List ℕ → List (List ℕ × Route) → Option Route
find_route key [] = none
find_route key ((k, route) ∷ table) = if text_eq k key then some route else find_route key table

-- `rest.indexOf("/")`, `none` for -1
pub index_of_slash : List ℕ → Option ℕ
index_of_slash [] = none
index_of_slash (c ∷ cs) =
    if c == b'/' then some 0 else elim (index_of_slash cs) [ none ↦ none | some i ↦ some (suc i) ]

pub match_admin : List ℕ → List ℕ → Option Route
unfolding index_of_slash
match_admin method path =
    if starts_with admin_prefix path
    then (let rest = substring (length admin_prefix) path in
        elim (index_of_slash rest) [
          | none ↦ if text_eq method (codes "GET") then some (get_user rest) else none
          | some i ↦
              let user_id = take i rest in
              let action = substring (i + 1) rest in
              if text_eq method (codes "PATCH") && text_eq action (codes "role")
              then some (change_role user_id)
              else if text_eq method (codes "POST") && text_eq action (codes "ban")
              then some (ban_user user_id)
              else if text_eq method (codes "POST") && text_eq action (codes "unban")
              then some (unban_user user_id)
              else none
        ])
    else none

-- `!id || id.includes("/")`
pub is_bad_id : List ℕ → Bool
unfolding index_of_slash
is_bad_id [] = true
is_bad_id (c ∷ cs) = elim (index_of_slash (c ∷ cs)) [ none ↦ false | some i ↦ true ]

pub match_api_key : List ℕ → List ℕ → Option Route
unfolding is_bad_id
match_api_key method path =
    if text_eq method (codes "DELETE") && starts_with api_key_prefix path
    then (let key_id = substring (length api_key_prefix) path in
        if is_bad_id key_id then none else some (revoke_key key_id))
    else none

pub match_oauth : List ℕ → List ℕ → Option Route
unfolding index_of_slash
match_oauth method path =
    if starts_with oauth_prefix path
    then (let rest = substring (length oauth_prefix) path in
        elim (index_of_slash rest) [
          | none ↦ if text_eq method (codes "GET") then some (authorize rest) else none
          | some i ↦
              let provider = take i rest in
              let action = substring (i + 1) rest in
              if text_eq method (codes "POST") && text_eq action (codes "callback")
              then some (callback provider)
              else none
        ])
    else none

pub match_webhook : List ℕ → List ℕ → Option Route
unfolding is_bad_id
match_webhook method path =
    if text_eq method (codes "DELETE") && starts_with webhook_prefix path
    then (let webhook_id = substring (length webhook_prefix) path in
        if is_bad_id webhook_id then none else some (remove_webhook webhook_id))
    else none

-- `if (handler) return handler(req, ctx);`, and what comes after it.
abbrev pub or_else : Option Route → Option Route → Option Route
or_else (some route) other = some route
or_else none other = other

pub handle : List ℕ → List ℕ → Option Route
unfolding find_route match_admin match_api_key match_oauth match_webhook
handle method path = or_else (find_route (method ++ 32 ∷ path) routes) (
    or_else (match_admin method path) (
      or_else (match_api_key method path)
        (or_else (match_oauth method path) (match_webhook method path))))
