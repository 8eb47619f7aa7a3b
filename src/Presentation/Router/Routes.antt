-- ===== src/Presentation/Router/Routes.antt =====
-- The requests that reach each handler, and that they are the ones dispatched to it.
use onlyapi.Base.{
  All, List, [], ap, arith, codes, false, length, none, refl, some, suc, take, text_eq, ℕ, ◌+◌,
  ◌++◌, ◌≡◌, ◌≢◌, ◌∷◌,
}
use onlyapi.Base.{starts_with, substring}
use onlyapi.Presentation.Router.{Route, handle, index_of_slash, is_bad_id}

-- The method of a handler's requests.
abbrev pub method_of : Route → List ℕ
method_of Route.shallow_check = codes "GET"
method_of Route.deep_check = codes "GET"
method_of Route.get_me = codes "GET"
method_of Route.list_keys = codes "GET"
method_of Route.list_webhooks = codes "GET"
method_of Route.stream = codes "GET"
method_of Route.list_users = codes "GET"
method_of Route.docs_json = codes "GET"
method_of Route.docs_html = codes "GET"
method_of Route.serve_metrics = codes "GET"
method_of (Route.get_user id) = codes "GET"
method_of (Route.authorize provider) = codes "GET"
method_of Route.update_me = codes "PATCH"
method_of (Route.change_role id) = codes "PATCH"
method_of Route.delete_me = codes "DELETE"
method_of (Route.revoke_key id) = codes "DELETE"
method_of (Route.remove_webhook id) = codes "DELETE"
method_of Route.register = codes "POST"
method_of Route.login = codes "POST"
method_of Route.refresh = codes "POST"
method_of Route.logout = codes "POST"
method_of Route.verify_email = codes "POST"
method_of Route.resend_verification = codes "POST"
method_of Route.forgot_password = codes "POST"
method_of Route.reset_password = codes "POST"
method_of Route.mfa_setup = codes "POST"
method_of Route.mfa_enable = codes "POST"
method_of Route.mfa_disable = codes "POST"
method_of Route.mfa_verify = codes "POST"
method_of Route.create_key = codes "POST"
method_of Route.create_webhook = codes "POST"
method_of (Route.ban_user id) = codes "POST"
method_of (Route.unban_user id) = codes "POST"
method_of (Route.callback provider) = codes "POST"

-- Their path.
abbrev pub path_of : Route → List ℕ
path_of Route.shallow_check = codes "/health"
path_of Route.deep_check = codes "/readiness"
path_of Route.register = codes "/api/v1/auth/register"
path_of Route.login = codes "/api/v1/auth/login"
path_of Route.refresh = codes "/api/v1/auth/refresh"
path_of Route.logout = codes "/api/v1/auth/logout"
path_of Route.verify_email = codes "/api/v1/auth/verify-email"
path_of Route.resend_verification = codes "/api/v1/auth/resend-verification"
path_of Route.forgot_password = codes "/api/v1/auth/forgot-password"
path_of Route.reset_password = codes "/api/v1/auth/reset-password"
path_of Route.mfa_setup = codes "/api/v1/auth/mfa/setup"
path_of Route.mfa_enable = codes "/api/v1/auth/mfa/enable"
path_of Route.mfa_disable = codes "/api/v1/auth/mfa/disable"
path_of Route.mfa_verify = codes "/api/v1/auth/mfa/verify"
path_of Route.get_me = codes "/api/v1/users/me"
path_of Route.update_me = codes "/api/v1/users/me"
path_of Route.delete_me = codes "/api/v1/users/me"
path_of Route.create_key = codes "/api/v1/api-keys"
path_of Route.list_keys = codes "/api/v1/api-keys"
path_of Route.create_webhook = codes "/api/v1/webhooks"
path_of Route.list_webhooks = codes "/api/v1/webhooks"
path_of Route.stream = codes "/api/v1/events/stream"
path_of Route.list_users = codes "/api/v1/admin/users"
path_of Route.docs_json = codes "/docs"
path_of Route.docs_html = codes "/docs/html"
path_of Route.serve_metrics = codes "/metrics"
path_of (Route.get_user id) = codes "/api/v1/admin/users/" ++ id
path_of (Route.change_role id) = codes "/api/v1/admin/users/" ++ (id ++ codes "/role")
path_of (Route.ban_user id) = codes "/api/v1/admin/users/" ++ (id ++ codes "/ban")
path_of (Route.unban_user id) = codes "/api/v1/admin/users/" ++ (id ++ codes "/unban")
path_of (Route.revoke_key id) = codes "/api/v1/api-keys/" ++ id
path_of (Route.remove_webhook id) = codes "/api/v1/webhooks/" ++ id
path_of (Route.authorize provider) = codes "/api/v1/auth/oauth/" ++ provider
path_of (Route.callback provider) = codes "/api/v1/auth/oauth/" ++ (provider ++ codes "/callback")

abbrev pub IsSegment : List ℕ → Type 0
IsSegment id = All (λ c. c ≢ b'/') id

-- The parameters are segments of a path; ids of keys and webhooks are not empty.
abbrev pub IsValid : Route → Type 0
IsValid (Route.get_user id) = IsSegment id
IsValid (Route.change_role id) = IsSegment id
IsValid (Route.ban_user id) = IsSegment id
IsValid (Route.unban_user id) = IsSegment id
IsValid (Route.revoke_key id) = (id ≢ []) × IsSegment id
IsValid (Route.remove_webhook id) = (id ≢ []) × IsSegment id
IsValid (Route.authorize provider) = IsSegment provider
IsValid (Route.callback provider) = IsSegment provider
IsValid _ = Unit

segment_slash : (id : List ℕ) → IsSegment id → index_of_slash id ≡ none
unfolding index_of_slash
segment_slash [] h = refl
segment_slash (c ∷ cs) (h, hs) = ground (arith, segment_slash cs hs)

first_slash :
    (id rest : List ℕ) → IsSegment id → index_of_slash (id ++ b'/' ∷ rest) ≡ some (length id)
unfolding index_of_slash
first_slash [] rest h = refl
first_slash (c ∷ cs) rest (h, hs) = ground (arith, first_slash cs rest hs)

take_segment : (id rest : List ℕ) → take (length id) (id ++ rest) ≡ id
take_segment [] rest = refl
take_segment (c ∷ cs) rest = ap (λ t. c ∷ t) (take_segment cs rest)

substring-suc : (id rest : List ℕ) → substring (suc (length id)) (id ++ b'/' ∷ rest) ≡ rest
unfolding substring
substring-suc [] rest = refl
substring-suc (c ∷ cs) rest = substring-suc cs rest

substring_segment : (id rest : List ℕ) → substring (length id + 1) (id ++ b'/' ∷ rest) ≡ rest
substring_segment id rest =
    let e : length id + 1 ≡ suc (length id) = omega arith in rw e (substring-suc id rest)

good_id : (id : List ℕ) → id ≢ [] → IsSegment id → is_bad_id id ≡ false
unfolding is_bad_id
good_id [] ne h = absurd (ne refl)
good_id (c ∷ cs) ne h = rw (segment_slash (c ∷ cs) h, is_bad_id) refl

-- A request of a handler is dispatched to it.
pub handle-request :
    (route : Route) → IsValid route → handle (method_of route) (path_of route) ≡ some route
unfolding handle starts_with substring text_eq
handle-request Route.shallow_check h = refl
handle-request (Route.get_user id) h = rw (segment_slash id h) refl
handle-request (Route.change_role id) h =
    rw
      (
        first_slash id (codes "role") h,
        take_segment id (codes "/role"),
        substring_segment id (codes "role"),
      )
      refl
handle-request (Route.ban_user id) h =
    rw
      (
        first_slash id (codes "ban") h,
        take_segment id (codes "/ban"),
        substring_segment id (codes "ban"),
      )
      refl
handle-request (Route.unban_user id) h =
    rw
      (
        first_slash id (codes "unban") h,
        take_segment id (codes "/unban"),
        substring_segment id (codes "unban"),
      )
      refl
handle-request (Route.authorize provider) h = rw (segment_slash provider h) refl
handle-request (Route.callback provider) h =
    rw
      (
        first_slash provider (codes "callback") h,
        take_segment provider (codes "/callback"),
        substring_segment provider (codes "callback"),
      )
      refl
handle-request (Route.revoke_key id) (ne, h) = rw (good_id id ne h) refl
handle-request (Route.remove_webhook id) (ne, h) = rw (good_id id ne h) refl
handle-request _ h = refl
