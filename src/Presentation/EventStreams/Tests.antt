-- ===== src/Presentation/EventStreams/Tests.antt =====
-- Runs of the event streams, and their theorems with two streams on a bus.
use onlyapi.Base.{
  List, String, Bool, [], codes, delete, get, none, refl, set, some, starts_with, substring,
  text_eq, ℕ, ◌∷◌, ◌≡◌,
}
use onlyapi.Events.Bus.{Bus, has, remove}
use onlyapi.Presentation.EventStreams.{
  Sse, StreamRequest, cancel, change_at, drop_bearer, on_event, start_stream, stream, stream_at,
  token_of,
}
use onlyapi.Presentation.EventStreams.Connections.{
  Holds, Reached, begins, cancelled, status, streamed,
}
use onlyapi.Presentation.EventStreams.Preservation.{Reached-Holds}
use onlyapi.Presentation.EventStreams.Delivery.{informed, map_some, on_event-informed}
use onlyapi.Presentation.Server.{index_of}

-- Two others listen to all events.
abbrev shared : Bus
shared = record { heap = []; handlers = []; wildcard_handlers = 0 ∷ 1 ∷ [] }

abbrev keep : List ℕ → List ℕ
keep text = text

abbrev is_valid : List ℕ → Bool
is_valid token = text_eq token (codes "t")

abbrev request : String → StreamRequest
request id = record {
  token_param = none;
  authorization = some (codes "Bearer t");
  events_param = some (codes "login,logout");
  request_id = id;
}

abbrev empty : Sse
empty = record { bus = shared; connections = []; intervals = []; streams = [] }

abbrev one : Sse
one = (stream keep is_valid 2 (request "r1") empty).1

abbrev two : Sse
two = (stream keep is_valid 3 (request "r2") one).1

two-Reached : Reached shared two
unfolding stream start_stream token_of drop_bearer index_of status stream_at has get set text_eq
    starts_with substring
two-Reached =
    streamed keep is_valid 3 (request "r2") one
      (streamed keep is_valid 2 (request "r1") empty begins refl refl refl) refl refl refl

Reached-Holds_example : Holds (0 ∷ 1 ∷ []) (cancel 2 two)
Reached-Holds_example = Reached-Holds shared (cancelled 2 two two-Reached)

on_event-informed_example :
    stream_at 3 (on_event "login" "e1" two).streams
    ≡ map_some (informed "login" "e1") (stream_at 3 two.streams)
on_event-informed_example = on_event-informed shared "login" "e1" 3 two-Reached

-- Two requests with one id: the second takes the place of the first, so that the end of the first
-- stream stops the second, and the timer of the first stays when both have ended.
abbrev twice : Sse
twice = (stream keep is_valid 3 (request "r1") one).1

leaks : (cancel 3 (cancel 2 twice)).intervals ≡ 2 ∷ []
unfolding stream start_stream token_of drop_bearer index_of stream_at change_at cancel has remove
    get set delete text_eq starts_with substring
leaks = refl
