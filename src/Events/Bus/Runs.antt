-- ===== src/Events/Bus/Runs.antt =====
-- The buses that calls lead to, in any order; the unsubscribe function of any subscription may be
-- called, any number of times.
use onlyapi.Base.{String, get, sym, ℕ, absent_some}
use onlyapi.Events.Bus.{
  Bus, Subscription, create_event_bus, subscribe, subscribe_all, unsubscribe, unsubscribe_all,
}
use onlyapi.Events.Bus.Delivery.{IsApart}
use onlyapi.Events.Bus.Laws.{subscribe-handlers_of, unsubscribe-IsApart}

pub data Reached : Bus → Type 0 where
  created : Reached create_event_bus
  subscribed : (t : String) (h : ℕ) (b : Bus) → Reached b → Reached (subscribe t h b).1
  unsubscribed : (s : Subscription) (b : Bus) → Reached b → Reached (unsubscribe s b)
  all_subscribed : (h : ℕ) (b : Bus) → Reached b → Reached (subscribe_all h b)
  all_unsubscribed : (h : ℕ) (b : Bus) → Reached b → Reached (unsubscribe_all h b)

create_event_bus-IsApart : IsApart create_event_bus
unfolding create_event_bus get
create_event_bus-IsApart = record {
  in_heap = λ t r e. absurd (absent_some (sym e));
  apart = λ t u r e e'. absurd (absent_some (sym e));
}

-- In every bus that calls lead to, each type with handlers has a set of its own.
pub Reached-IsApart : (b : Bus) → Reached b → IsApart b
unfolding subscribe_all unsubscribe_all
Reached-IsApart _ created = create_event_bus-IsApart
Reached-IsApart _ (subscribed t h b r) = (subscribe-handlers_of t t h b (Reached-IsApart b r)).2
Reached-IsApart _ (unsubscribed s b r) = unsubscribe-IsApart s b (Reached-IsApart b r)
Reached-IsApart _ (all_subscribed h b r) =
    (let w = Reached-IsApart b r in record { in_heap = w.in_heap; apart = w.apart })
Reached-IsApart _ (all_unsubscribed h b r) =
    (let w = Reached-IsApart b r in record { in_heap = w.in_heap; apart = w.apart })
