-- ===== src/Presentation/EventStreams/Connections.antt =====
-- Every open stream has its connection, its handler and its timer, and there is nothing else.
use onlyapi.Base.{
  List, Bool, Distinct, EntriesOf, Map, Option, String, [], arith, delete, false, get, inl, inr,
  none, refl, set, some, str_eq-cases, true, ℕ, ◌++◌, ◌∙◌, ◌∷◌, ◌≡◌, if◌then◌else◌, ◌==◌, ◌||◌,
}
use onlyapi.Events.Bus.{Bus, has, remove}
use onlyapi.Presentation.EventStreams.{
  Sse, Stream, StreamRequest, beat, cancel, change_at, deliver, enqueue, handler, on_event, stream,
  stream_at, Frame,
}

-- The connection id of a stream, and whether it is open.
unfoldable pub status : ℕ → List (ℕ × Stream) → Option (String × Bool)
unfolding stream_at
status n sts = elim (stream_at n sts) [
  | none ↦ none
  | some st ↦ some (st.connection_id, st.is_open)
]

-- The states that calls lead to, where a stream gets a number that is new, and a request has the id
-- of no connection that stands.
pub data Reached (b : Bus) : Sse → Type 0 where
  begins : Reached b (record { bus = b; connections = []; intervals = []; streams = [] })
  streamed :
      (trim : List ℕ → List ℕ) (accepts : List ℕ → Bool) (n : ℕ) (r : StreamRequest) (s : Sse)
      → Reached b s
      → status n s.streams ≡ none
      → has n b.wildcard_handlers ≡ false
      → get r.request_id s.connections ≡ none
      → Reached b (stream trim accepts n r s).1
  cancelled : (n : ℕ) (s : Sse) → Reached b s → Reached b (cancel n s)
  published : (type_ id : String) (s : Sse) → Reached b s → Reached b (on_event type_ id s)
  beaten : (n : ℕ) (s : Sse) → Reached b s → Reached b (beat n s)

unfoldable pub numbers : Map ℕ → List ℕ
numbers [] = []
numbers ((i, n) ∷ m) = n ∷ numbers m

abbrev pub Owned : Map ℕ → List (ℕ × Stream) → Type 0
Owned m sts = (i : String) (n : ℕ) → get i m ≡ some n → status n sts ≡ some (i, true)

-- With the handlers of others on the bus: each open stream has a handler, a timer and a connection,
-- in one order, and each of these belongs to an open stream.
pub record Holds (others : List ℕ) (s : Sse) : Type 0 where
  pub wild : s.bus.wildcard_handlers ≡ others ++ numbers s.connections
  pub timers : s.intervals ≡ numbers s.connections
  pub distinct : Distinct s.connections
  pub owned :
      (i : String) (n : ℕ) → get i s.connections ≡ some n → status n s.streams ≡ some (i, true)
  pub held :
      (i : String) (n : ℕ) → status n s.streams ≡ some (i, true) → get i s.connections ≡ some n
  pub apart : (n : ℕ) (p : String × Bool) → status n s.streams ≡ some p → has n others ≡ false

pub status-change_kept :
    (n k : ℕ) (f : Stream → Stream) (sts : List (ℕ × Stream))
    → ((st : Stream) → ((f st).connection_id ≡ st.connection_id) × ((f st).is_open ≡ st.is_open))
    → status n (change_at k f sts) ≡ status n sts
unfolding status change_at stream_at
status-change_kept n k f [] same = refl
status-change_kept n k f ((m, st) ∷ sts) same =
    let (a, b) = same st in ground (arith, status-change_kept n k f sts same, a, b)

pub enqueue-kept :
    (frame : Frame) (st : Stream)
    → ((enqueue frame st).connection_id ≡ st.connection_id)
      × ((enqueue frame st).is_open ≡ st.is_open)
unfolding enqueue
enqueue-kept frame st = (ground arith, ground arith)

pub status-deliver :
    (n : ℕ) (type_ id : String) (ns : List ℕ) (sts : List (ℕ × Stream))
    → status n (deliver type_ id ns sts) ≡ status n sts
unfolding deliver handler enqueue
status-deliver n type_ id [] sts = refl
status-deliver n type_ id (k ∷ ns) sts =
    status-deliver n type_ id ns (change_at k (handler type_ id) sts)
    ∙ status-change_kept n k (handler type_ id) sts (λ st. (ground arith, ground arith))

-- The number of a connection that goes is that of no other.
pub remove-numbers :
    (id : String) (n : ℕ) (sts : List (ℕ × Stream)) (big m : Map ℕ)
    → Owned big sts
    → EntriesOf big m
    → get id big ≡ some n
    → remove n (numbers m) ≡ numbers (delete id m)
unfolding remove numbers delete
remove-numbers id n sts big [] owned es g = refl
remove-numbers id n sts big ((j, w) ∷ m) owned (e, es) g =
    let rest = remove-numbers id n sts big m owned es g in
    elim (str_eq-cases j id) [
      | inl (y, same) ↦ ground arith
      | inr (f, other) ↦ grind (arith, owned j w e, owned id n g)
    ]

pub has-numbers :
    (n : ℕ) (sts : List (ℕ × Stream)) (big m : Map ℕ)
    → Owned big sts
    → EntriesOf big m
    → status n sts ≡ none
    → has n (numbers m) ≡ false
unfolding has numbers
has-numbers n sts big [] owned es g = refl
has-numbers n sts big ((j, w) ∷ m) owned (e, es) g =
    let rest = has-numbers n sts big m owned es g in let here = owned j w e in ground arith

pub numbers-set :
    (i : String) (n : ℕ) (m : Map ℕ) → get i m ≡ none → numbers (set i n m) ≡ numbers m ++ n ∷ []
unfolding numbers set get
numbers-set i n [] h = refl
numbers-set i n ((j, w) ∷ m) h = ground (arith, numbers-set i n m)

pub has-append : (n : ℕ) (xs ys : List ℕ) → has n (xs ++ ys) ≡ (has n xs || has n ys)
unfolding has
has-append n [] ys = refl
has-append n (x ∷ xs) ys = ground (arith, has-append n xs ys)

pub remove-append :
    (n : ℕ) (xs ys : List ℕ) → has n xs ≡ false → remove n (xs ++ ys) ≡ xs ++ remove n ys
unfolding has remove
remove-append n [] ys h = refl
remove-append n (x ∷ xs) ys h = ground (arith, remove-append n xs ys)

-- The status of a new stream, and of the others.
pub status-new :
    (n k : ℕ) (st : Stream) (sts : List (ℕ × Stream))
    → status k ((n, st) ∷ sts)
      ≡ (if n == k then some (st.connection_id, st.is_open) else status k sts)
unfolding status stream_at
status-new n k st sts = ground arith

abbrev pub end_stream : Stream → Stream
end_stream st = record st { is_open = false }

pub status-end_stream :
    (n k : ℕ) (id : String) (sts : List (ℕ × Stream))
    → status n sts ≡ some (id, true)
    → status k (change_at n end_stream sts) ≡ (if n == k then some (id, false) else status k sts)
unfolding status change_at stream_at
status-end_stream n k id [] h = absurd cc
status-end_stream n k id ((m, st) ∷ sts) h = grind (arith, status-end_stream n k id sts)
