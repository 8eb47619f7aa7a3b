-- ===== src/Events/Webhooks/Tests.antt =====
-- Runs of the registry, and its theorem after three calls.
use onlyapi.Base.{List, [], false, true, ◌∷◌, ◌≡◌, refl, get, set, has, none}
use onlyapi.Core.Errors.{app_error, not_found}
use onlyapi.Core.Results.{err}
use onlyapi.Events.Webhooks.{
  CreateWebhookData, find_by_event, no_webhooks, remove_webhook, set_active, create_webhook,
  listens_to,
}
use onlyapi.Events.Webhooks.Registry.{
  IsSound, WebhookCall, activates, creates, expected, find_by_event-expected, is_found, notified,
  run_calls,
}

abbrev logins : CreateWebhookData
logins = record { url = "https://a"; events = "user.login" ∷ []; secret = "s" }

abbrev everything : CreateWebhookData
everything = record { url = "https://b"; events = []; secret = "t" }

-- Both subscribe, and the first is switched off.
abbrev calls : List WebhookCall
calls = creates "a" "t0" logins ∷ creates "b" "t1" everything ∷ activates "a" false ∷ []

find_by_event-expected_example :
    IsSound (run_calls calls no_webhooks).store
    × (is_found "b" (find_by_event "user.login" (run_calls calls no_webhooks))
        ≡ notified "user.login" (expected calls (λ k. none) "b"))
find_by_event-expected_example = find_by_event-expected calls "user.login" "b"

b_hears : is_found "b" (find_by_event "user.login" (run_calls calls no_webhooks)) ≡ true
unfolding find_by_event create_webhook set_active get set listens_to
b_hears = refl

a_does_not : is_found "a" (find_by_event "user.login" (run_calls calls no_webhooks)) ≡ false
unfolding find_by_event create_webhook set_active get set listens_to
a_does_not = refl

unknown :
    (remove_webhook "c" no_webhooks).0 ≡ err (app_error not_found "Webhook subscription not found")
unfolding remove_webhook get has
unknown = refl
