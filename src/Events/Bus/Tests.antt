-- ===== src/Events/Bus/Tests.antt =====
-- Runs of the event bus, and its theorems at concrete buses.
use onlyapi.Base.{[], get, refl, set, some, ℕ, ◌++◌, ◌≡◌, ◌∷◌}
use onlyapi.Events.Bus.{
  Bus, Ending, Subscription, add, at, create_event_bus, get_or_create, handler_count,
  count_handlers, has, invoke_all, invoke_handler, publish, put, subscribe, subscribe_all,
  sync_error, throws,
}
use onlyapi.Events.Bus.Delivery.{handlers_of}
use onlyapi.Events.Bus.Laws.{logs_of, publish-handlers_of}
use onlyapi.Events.Bus.Runs.{Reached, created, subscribed}

-- The handler 7 on logouts.
abbrev one : Subscription × Bus
one = subscribe "logout" 7 create_event_bus

one-Reached : Reached one.1
one-Reached = subscribed "logout" 7 create_event_bus created

one_entry : get "logout" one.1.handlers ≡ some one.0.address
unfolding subscribe get_or_create create_event_bus get set
one_entry = refl

one_handler : handlers_of "logout" one.1 ≡ 7 ∷ []
unfolding handlers_of subscribe get_or_create create_event_bus get set at put add has
one_handler = refl

-- The first handler throws, and the wildcard handler is called all the same.
abbrev second_throws : ℕ → Ending
second_throws h = throws

all_called :
    publish second_throws "logout" (subscribe_all 9 one.1)
    ≡ (7 ∷ 9 ∷ [], sync_error 7 ∷ sync_error 9 ∷ [])
unfolding publish invoke_all invoke_handler subscribe_all subscribe get_or_create create_event_bus
    get set at put add has
all_called = refl

two_counted : handler_count (subscribe_all 9 one.1) ≡ 2
unfolding handler_count count_handlers subscribe_all subscribe get_or_create create_event_bus get
    set at put add has
two_counted = refl

one_delivery :
    let called = handlers_of "logout" one.1 ++ one.1.wildcard_handlers in
    publish second_throws "logout" one.1 ≡ (called, logs_of second_throws called)
one_delivery = publish-handlers_of second_throws "logout" one.1
