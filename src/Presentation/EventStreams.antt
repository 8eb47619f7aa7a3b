-- ===== src/Presentation/EventStreams.antt =====
-- src/presentation/handlers/sse.handler.ts, over the bus of Events/Bus. The number of a stream stands
-- for its controller, for the handler that it subscribes and for its timer, so that a connection is a
-- number. What the token service answers and `trim` are arguments; a frame keeps what its text is made of.
pub mod Connections
pub mod Preservation
pub mod Delivery
mod Tests
use onlyapi.Base.{
  List, Bool, Map, Option, String, [], any, codes, delete, false, get, if◌then◌else◌, length, map,
  none, set, some, split, substring, suc, take, text_eq, true, zero, ℕ, ◌++◌, ◌+◌, ◌∷◌, ◌==◌,
}
use onlyapi.Events.Bus.{Bus, has, remove, subscribe_all, unsubscribe_all}
use onlyapi.Presentation.Server.{index_of}

pub record StreamRequest : Type 0 where
  pub token_param : Option (List ℕ)
  pub authorization : Option (List ℕ)
  pub events_param : Option (List ℕ)
  pub request_id : String

-- `replace("Bearer ", "")`
pub drop_bearer : List ℕ → List ℕ
drop_bearer header = elim (index_of (codes "Bearer ") header) [
  | none ↦ header
  | some i ↦ take i header ++ substring (i + 7) header
]

-- The token, where there is one that is not empty.
pub token_of : StreamRequest → Option (List ℕ)
unfolding drop_bearer
token_of r = elim r.token_param [
  | none ↦ elim r.authorization [
    | none ↦ none
    | some header ↦ elim (drop_bearer header) [ [] ↦ none | c ∷ cs ↦ some (c ∷ cs) ]
  ]
  | some token ↦ elim token [ [] ↦ none | c ∷ cs ↦ some (c ∷ cs) ]
]

pub subscribed_events_of : (List ℕ → List ℕ) → Option (List ℕ) → Option (List (List ℕ))
subscribed_events_of trim none = none
subscribed_events_of trim (some []) = none
subscribed_events_of trim (some (c ∷ cs)) = some (map trim (split b',' (c ∷ cs)))

-- What is sent: the greeting, an event by its type and id, and a heartbeat.
pub data Frame : Type 0 where
  connected : String → Frame
  event : String → String → Frame
  heartbeat : Frame

pub record Stream : Type 0 where
  pub connection_id : String
  pub subscribed_events : Option (List (List ℕ))
  pub sent : List Frame
  pub is_open : Bool

pub record Sse : Type 0 where
  pub bus : Bus
  pub connections : Map ℕ
  pub intervals : List ℕ
  pub streams : List (ℕ × Stream)

pub stream_at : ℕ → List (ℕ × Stream) → Option Stream
stream_at n [] = none
stream_at n ((m, st) ∷ sts) = if m == n then some st else stream_at n sts

pub change_at : ℕ → (Stream → Stream) → List (ℕ × Stream) → List (ℕ × Stream)
change_at n f [] = []
change_at n f ((m, st) ∷ sts) =
    let rest = change_at n f sts in if m == n then (m, f st) ∷ sts else (m, st) ∷ rest

pub data StreamAnswer : Type 0 where
  missing_token : StreamAnswer
  invalid_token : StreamAnswer
  streams_to : ℕ → StreamAnswer

-- `start` of the stream of a number.
pub start_stream : (List ℕ → List ℕ) → ℕ → StreamRequest → Sse → Sse
unfolding subscribed_events_of
start_stream trim n r s = record {
  bus = subscribe_all n s.bus;
  connections = set r.request_id n s.connections;
  intervals = s.intervals ++ n ∷ [];
  streams =
      (
        n,
        record {
          connection_id = r.request_id;
          subscribed_events = subscribed_events_of trim r.events_param;
          sent = connected r.request_id ∷ [];
          is_open = true;
        },
      )
      ∷ s.streams;
}

pub stream : (List ℕ → List ℕ) → (List ℕ → Bool) → ℕ → StreamRequest → Sse → StreamAnswer × Sse
unfolding token_of start_stream
stream trim accepts n r s = elim (token_of r) [
  | none ↦ (missing_token, s)
  | some token ↦
      if accepts token then (streams_to n, start_stream trim n r s) else (invalid_token, s)
]

-- `cancel` of the stream, which the run time calls once.
pub cancel : ℕ → Sse → Sse
unfolding stream_at change_at
cancel n s = elim (stream_at n s.streams) [
  | none ↦ s
  | some st ↦
      let streams = change_at n (λ st'. record st' { is_open = false }) s.streams in
      let s' = record s { streams = streams } in
      if st.is_open
      then elim (get st.connection_id s.connections) [
        | none ↦ s'
        | some m ↦ record s' {
          bus = unsubscribe_all m s.bus;
          intervals = remove m s.intervals;
          connections = delete st.connection_id s.connections;
        }
      ]
      else s
]

-- `controller.enqueue`, which throws on a closed stream; the handler catches that.
pub enqueue : Frame → Stream → Stream
enqueue frame st = if st.is_open then record st { sent = st.sent ++ frame ∷ [] } else st

pub is_subscribed : String → Option (List (List ℕ)) → Bool
is_subscribed type_ none = true
is_subscribed type_ (some types) = any (text_eq (codes type_)) types

pub handler : String → String → Stream → Stream
unfolding enqueue is_subscribed
handler type_ id st =
    if is_subscribed type_ st.subscribed_events then enqueue (event type_ id) st else st

-- The bus calls its wildcard handlers one after the other; some are not those of streams.
pub deliver : String → String → List ℕ → List (ℕ × Stream) → List (ℕ × Stream)
unfolding handler change_at
deliver type_ id [] sts = sts
deliver type_ id (n ∷ ns) sts = deliver type_ id ns (change_at n (handler type_ id) sts)

pub on_event : String → String → Sse → Sse
unfolding deliver
on_event type_ id s = record s { streams = deliver type_ id s.bus.wildcard_handlers s.streams }

-- A timer runs.
pub beat : ℕ → Sse → Sse
unfolding change_at enqueue
beat n s =
    if has n s.intervals
    then record s { streams = change_at n (enqueue heartbeat) s.streams }
    else s

pub connection_count : Sse → ℕ
connection_count s = length s.connections
