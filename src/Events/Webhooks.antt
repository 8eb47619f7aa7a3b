-- ===== src/Events/Webhooks.antt =====
-- src/infrastructure/events/in-memory-webhook-registry.ts, with the data of src/core/ports/webhook.ts.
-- Ids and times that the run time makes are arguments.
pub mod Registry
mod Tests
use onlyapi.Base.{
  Bool, List, Map, String, [], delete, false, filter, get, has, if◌then◌else◌, map, none, set, some,
  str_eq, true, ℕ, ◌++◌, ◌&&◌, ◌||◌, ◌∷◌, not,
}
use onlyapi.Core.Errors.{app_error, not_found}
use onlyapi.Core.Results.{Outcome, err, ok}

-- An empty list of events stands for all of them.
pub record WebhookSubscription : Type 0 where
  pub id : String
  pub url : String
  pub events : List String
  pub secret : String
  pub active : Bool
  pub created_at : String

pub record CreateWebhookData : Type 0 where
  pub url : String
  pub events : List String
  pub secret : String

pub record WebhookDelivery : Type 0 where
  pub id : String
  pub webhook_id : String
  pub event_id : String
  pub url : String
  pub status : ℕ
  pub success : Bool
  pub attempt_number : ℕ
  pub delivered_at : String

pub record WebhookRegistry : Type 0 where
  pub store : Map WebhookSubscription
  pub deliveries : List WebhookDelivery

abbrev pub no_webhooks : WebhookRegistry
no_webhooks = record { store = []; deliveries = [] }

abbrev pub new_subscription : String → String → CreateWebhookData → WebhookSubscription
new_subscription id now data_ = record {
  id = id;
  url = data_.url;
  events = data_.events;
  secret = data_.secret;
  active = true;
  created_at = now;
}

unfoldable pub create_webhook :
    String
    → String
    → CreateWebhookData
    → WebhookRegistry
    → Outcome WebhookSubscription × WebhookRegistry
create_webhook id now data_ reg =
    let sub = new_subscription id now data_ in (ok sub, record reg { store = set id sub reg.store })

unfoldable pub list_webhooks : WebhookRegistry → Outcome (List WebhookSubscription)
list_webhooks reg = ok (map (λ e. e.1) reg.store)

-- `sub.events.includes(eventType)`
unfoldable pub includes_event : String → List String → Bool
includes_event type_ [] = false
includes_event type_ (e ∷ events) = str_eq e type_ || includes_event type_ events

-- `sub.events.length === 0 || sub.events.includes(eventType)`
unfoldable pub listens_to : String → List String → Bool
unfolding includes_event
listens_to type_ [] = true
listens_to type_ (e ∷ events) = includes_event type_ (e ∷ events)

unfoldable pub find_by_event : String → WebhookRegistry → Outcome (List WebhookSubscription)
unfolding listens_to
find_by_event type_ reg =
    ok (filter (λ sub. sub.active && listens_to type_ sub.events) (map (λ e. e.1) reg.store))

unfoldable pub remove_webhook : String → WebhookRegistry → Outcome {0} Unit × WebhookRegistry
remove_webhook id reg =
    if has id reg.store
    then (ok tt, record reg { store = delete id reg.store })
    else (err (app_error not_found "Webhook subscription not found"), reg)

unfoldable pub set_active : String → Bool → WebhookRegistry → Outcome {0} Unit × WebhookRegistry
set_active id active reg = elim (get id reg.store) [
  | none ↦ (err (app_error not_found "Webhook subscription not found"), reg)
  | some sub ↦ (ok tt, record reg { store = set id (record sub { active = active }) reg.store })
]

unfoldable pub record_delivery :
    WebhookDelivery → WebhookRegistry → Outcome {0} Unit × WebhookRegistry
record_delivery delivery reg = (ok tt, record reg { deliveries = reg.deliveries ++ delivery ∷ [] })
