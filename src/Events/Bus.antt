-- ===== src/Events/Bus.antt =====
-- src/infrastructure/events/event-bus.ts. A handler is a number, its identity. The `Set`s live in a
-- heap, so that an unsubscribe function keeps the set it was made with when the map's entry goes.
-- Handlers that subscribe or unsubscribe while they are called are left out.
pub mod Delivery
pub mod Laws
pub mod Runs
mod Tests
use onlyapi.Base.{
  Bool, List, Map, Option, String, [], delete, false, get, if◌then◌else◌, length, none, set, some,
  suc, true, zero, ℕ, ◌+◌, ◌++◌, ◌==◌, ◌∷◌, ◌||◌,
}

-- `new Set()` kept in insertion order: `add` of a member and `delete` of another change nothing.
unfoldable pub has : ℕ → List ℕ → Bool
has h [] = false
has h (g ∷ gs) = g == h || has h gs

unfoldable pub add : ℕ → List ℕ → List ℕ
unfolding has
add h hs = if has h hs then hs else hs ++ h ∷ []

unfoldable pub remove : ℕ → List ℕ → List ℕ
remove h [] = []
remove h (g ∷ gs) = if g == h then remove h gs else g ∷ remove h gs

-- The sets, by address.
pub at : ℕ → List (List ℕ) → List ℕ
at r [] = []
at zero (s ∷ heap) = s
at (suc r) (s ∷ heap) = at r heap

pub put : ℕ → List ℕ → List (List ℕ) → List (List ℕ)
put r hs [] = []
put zero hs (s ∷ heap) = hs ∷ heap
put (suc r) hs (s ∷ heap) = s ∷ put r hs heap

pub record Bus : Type 0 where
  pub heap : List (List ℕ)
  pub handlers : Map ℕ
  pub wildcard_handlers : List ℕ

pub create_event_bus : Bus
create_event_bus = record { heap = []; handlers = []; wildcard_handlers = [] }

pub get_or_create : String → Bus → ℕ × Bus
get_or_create type_ b = elim (get type_ b.handlers) [
  | none ↦ (
    length b.heap,
    record b { heap = b.heap ++ [] ∷ []; handlers = set type_ (length b.heap) b.handlers },
  )
  | some r ↦ (r, b)
]

-- What the function that `subscribe` returns has captured.
pub record Subscription : Type 0 where
  pub type_ : String
  pub address : ℕ
  pub handler : ℕ

pub subscribe : String → ℕ → Bus → Subscription × Bus
unfolding get_or_create at put add
subscribe type_ h b =
    let (r, b') = get_or_create type_ b in
    (
      record { type_ = type_; address = r; handler = h },
      record b' { heap = put r (add h (at r b'.heap)) b'.heap },
    )

-- A call of the function that `subscribe` returned.
pub unsubscribe : Subscription → Bus → Bus
unfolding at put remove
unsubscribe s b =
    let rest = remove s.handler (at s.address b.heap) in
    let heap' = put s.address rest b.heap in
    elim rest [
      | [] ↦ record b { heap = heap'; handlers = delete s.type_ b.handlers }
      | h ∷ hs ↦ record b { heap = heap' }
    ]

unfoldable pub subscribe_all : ℕ → Bus → Bus
unfolding add
subscribe_all h b = record b { wildcard_handlers = add h b.wildcard_handlers }

unfoldable pub unsubscribe_all : ℕ → Bus → Bus
unfolding remove
unsubscribe_all h b = record b { wildcard_handlers = remove h b.wildcard_handlers }

-- How a handler ends on an event: it returns, it throws, or its promise is rejected.
pub data Ending : Type 0 where
  returns : Ending
  throws : Ending
  rejects : Ending

-- A call of invokeHandler: the handler called, and what is logged of it.
pub data Log : Type 0 where
  async_error : ℕ → Log
  sync_error : ℕ → Log

pub invoke_handler : (ℕ → Ending) → ℕ → List Log
invoke_handler ending h = elim (ending h) [
  | returns ↦ []
  | throws ↦ sync_error h ∷ []
  | rejects ↦ async_error h ∷ []
]

-- The handlers called, in their order, and the errors logged; a rejected promise is logged later,
-- which the order of the logs does not tell.
pub invoke_all : (ℕ → Ending) → List ℕ → List ℕ × List Log
unfolding invoke_handler
invoke_all ending [] = ([], [])
invoke_all ending (h ∷ hs) =
    let (called, logs) = invoke_all ending hs in (h ∷ called, invoke_handler ending h ++ logs)

-- `ending` is how each handler ends on this event.
pub publish : (ℕ → Ending) → String → Bus → List ℕ × List Log
unfolding at invoke_all
publish ending type_ b =
    let typed : List ℕ × List Log = elim (get type_ b.handlers) [
      | none ↦ ([], [])
      | some r ↦ invoke_all ending (at r b.heap)
    ] in
    let (called', logs') = invoke_all ending b.wildcard_handlers in
    (typed.0 ++ called', typed.1 ++ logs')

-- The sizes of the sets that the map refers to.
pub count_handlers : List (List ℕ) → Map ℕ → ℕ
unfolding at
count_handlers heap [] = 0
count_handlers heap ((type_, r) ∷ entries) = length (at r heap) + count_handlers heap entries

pub handler_count : Bus → ℕ
unfolding count_handlers
handler_count b = length b.wildcard_handlers + count_handlers b.heap b.handlers
