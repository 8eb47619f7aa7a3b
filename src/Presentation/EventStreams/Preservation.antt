-- ===== src/Presentation/EventStreams/Preservation.antt =====
-- No call of the handler of events breaks the correspondence of streams, connections, handlers and timers.
use onlyapi.Base.{
  List, Bool, Bool-cases, Distinct-EntriesOf, Option-cases, String, [], absent_some, ap,
  append_assoc, append_nil, arith, delete, delete-Distinct, false, get, get-delete_ne,
  get-delete_self, get-set_ne, get-set_self, inl, inr, none, refl, set-Distinct, set-entry, some,
  str_eq-cases, subst, sym, true, ℕ, ◌++◌, ◌==◌, ◌∙◌, ◌∷◌, ◌≡◌, some_inj,
}
use onlyapi.Events.Bus.{Bus, add, has, remove, subscribe_all, unsubscribe_all}
use onlyapi.Presentation.EventStreams.{
  Sse, Stream, StreamRequest, beat, cancel, change_at, deliver, enqueue, heartbeat, on_event,
  start_stream, stream, stream_at, subscribed_events_of, token_of, connected,
}
use onlyapi.Presentation.EventStreams.Connections.{
  Holds, end_stream, Reached, has-append, has-numbers, numbers, numbers-set, remove-append,
  remove-numbers, status, status-change_kept, status-end_stream, status-deliver, status-new,
  enqueue-kept, begins, streamed, cancelled, published, beaten,
}

abbrev opened : (List ℕ → List ℕ) → StreamRequest → Stream
opened trim r = record {
  connection_id = r.request_id;
  subscribed_events = subscribed_events_of trim r.events_param;
  sent = connected r.request_id ∷ [];
  is_open = true;
}

start_stream-Holds :
    (trim : List ℕ → List ℕ) (n : ℕ) (r : StreamRequest) (others : List ℕ) (s : Sse)
    → Holds others s
    → status n s.streams ≡ none
    → has n others ≡ false
    → get r.request_id s.connections ≡ none
    → Holds others (start_stream trim n r s)
unfolding start_stream subscribe_all add
start_stream-Holds trim n r others s h new free absent =
    let entries = Distinct-EntriesOf s.connections h.distinct in
    let unused = has-numbers n s.streams s.connections s.connections h.owned entries new in
    let listed = numbers-set r.request_id n s.connections absent in
    let not_there : has n s.bus.wildcard_handlers ≡ false =
      ap (has n) h.wild ∙ has-append n others (numbers s.connections) ∙ ground arith in
    let appended : add n s.bus.wildcard_handlers ≡ s.bus.wildcard_handlers ++ n ∷ [] =
      ground arith in
    let among = λ (k : ℕ). status-new n k (opened trim r) s.streams in
    record {
      wild =
          appended
          ∙ ap (λ ns. ns ++ n ∷ []) h.wild
          ∙ append_assoc others (numbers s.connections) (n ∷ [])
          ∙ ap (λ ns. others ++ ns) (sym listed);
      timers = ap (λ ns. ns ++ n ∷ []) h.timers ∙ sym listed;
      distinct = set-Distinct r.request_id n s.connections h.distinct;
      owned = λ i k g. elim (set-entry r.request_id i n k s.connections g) [
        | inl (same, own) ↦ grind (arith, among k)
        | inr old ↦ grind (arith, among k, h.owned i k old)
      ];
      held = λ i k g. elim (Bool-cases (n == k)) [
        | inl t ↦ grind (arith, among k, get-set_self r.request_id n s.connections)
        | inr f ↦
            (let old : status k s.streams ≡ some (i, true) = grind (arith, among k) in
              let was = h.held i k old in
              get-set_ne r.request_id i n s.connections (λ same.
                absurd (absent_some (sym was ∙ ap (λ j. get j s.connections) same ∙ absent)))
              ∙ was)
      ];
      apart = λ k p g. elim (Bool-cases (n == k)) [
        | inl t ↦ grind arith
        | inr f ↦ h.apart k p (grind (arith, among k))
      ];
    }

-- The streams, without a connection that goes.
abbrev ended : ℕ → String → Sse → Sse
ended n id s = record {
  bus = unsubscribe_all n s.bus;
  connections = delete id s.connections;
  intervals = remove n s.intervals;
  streams = change_at n end_stream s.streams;
}

ended-Holds :
    (n : ℕ) (id : String) (others : List ℕ) (s : Sse)
    → Holds others s
    → status n s.streams ≡ some (id, true)
    → Holds others (ended n id s)
unfolding unsubscribe_all
ended-Holds n id others s h now_open =
    let entries = Distinct-EntriesOf s.connections h.distinct in
    let own = h.held id n now_open in
    let listed = remove-numbers id n s.streams s.connections s.connections h.owned entries own in
    let among = λ (k : ℕ). status-end_stream n k id s.streams now_open in
    record {
      wild =
          ap (remove n) h.wild
          ∙ remove-append n others (numbers s.connections) (h.apart n (id, true) now_open)
          ∙ ap (λ ns. others ++ ns) listed;
      timers = ap (remove n) h.timers ∙ listed;
      distinct = delete-Distinct id s.connections h.distinct;
      owned = λ i k g. elim (str_eq-cases id i) [
        | inl (y, same) ↦ absurd (
            absent_some (
              sym g
              ∙ ap (λ j. get j (delete id s.connections)) (sym same)
              ∙ get-delete_self id s.connections))
        | inr (f, other) ↦
            (let was =
                h.owned i k (sym (get-delete_ne id i s.connections (λ p. other (sym p))) ∙ g) in
              grind (arith, among k, was, now_open))
      ];
      held = λ i k g. elim (Bool-cases (n == k)) [
        | inl t ↦ absurd (grind (arith, among k))
        | inr f ↦
            (let was = h.held i k (grind (arith, among k)) in
              get-delete_ne id i s.connections (λ same.
                let own' : get i s.connections ≡ some n =
                  ap (λ j. get j s.connections) same ∙ own in
                absurd (ground (arith, some_inj (sym was ∙ own'))))
              ∙ was)
      ];
      apart = λ k p g. elim (Bool-cases (n == k)) [
        | inl t ↦ grind (arith, h.apart n (id, true) now_open)
        | inr f ↦ h.apart k p (grind (arith, among k))
      ];
    }

cancel-Holds : (n : ℕ) (others : List ℕ) (s : Sse) → Holds others s → Holds others (cancel n s)
unfolding cancel status
cancel-Holds n others s h = elim (Option-cases (stream_at n s.streams)) [
  | inl gone ↦ (let stays : cancel n s ≡ s = ground arith in subst (Holds others) (sym stays) h)
  | inr (st, found) ↦ elim (Bool-cases st.is_open) [
    | inl t ↦
        (let now_open : status n s.streams ≡ some (st.connection_id, true) = ground arith in
          let own = h.held st.connection_id n now_open in
          let left : cancel n s ≡ ended n st.connection_id s = ground arith in
          subst (Holds others) (sym left) (ended-Holds n st.connection_id others s h now_open))
    | inr f ↦ (let stays : cancel n s ≡ s = ground arith in subst (Holds others) (sym stays) h)
  ]
]

same_status-Holds :
    (others : List ℕ) (sts : List (ℕ × Stream)) (s : Sse)
    → Holds others s
    → ((k : ℕ) → status k sts ≡ status k s.streams)
    → Holds others (record s { streams = sts })
same_status-Holds others sts s h same = record {
  wild = h.wild;
  timers = h.timers;
  distinct = h.distinct;
  owned = λ i k g. same k ∙ h.owned i k g;
  held = λ i k g. h.held i k (sym (same k) ∙ g);
  apart = λ k p g. h.apart k p (sym (same k) ∙ g);
}

beat-Holds : (n : ℕ) (others : List ℕ) (s : Sse) → Holds others s → Holds others (beat n s)
unfolding beat
beat-Holds n others s h =
    let same =
      λ (k : ℕ). status-change_kept k n (enqueue heartbeat) s.streams (enqueue-kept heartbeat) in
    let changed = same_status-Holds others (change_at n (enqueue heartbeat) s.streams) s h same in
    elim (Bool-cases (has n s.intervals)) [ inl t ↦ rw (beat, t) changed | inr f ↦ rw (beat, f) h ]

stream-Holds :
    (trim : List ℕ → List ℕ) (accepts : List ℕ → Bool) (n : ℕ) (r : StreamRequest) (others : List ℕ)
    (s : Sse)
    → Holds others s
    → Holds others (start_stream trim n r s)
    → Holds others (stream trim accepts n r s).1
unfolding stream
stream-Holds trim accepts n r others s h started = elim (Option-cases (token_of r)) [
  | inl gone ↦ rw (stream, gone) h
  | inr (token, found) ↦ elim (Bool-cases (accepts token)) [
    | inl t ↦ rw (stream, found, t) started
    | inr f ↦ rw (stream, found, f) h
  ]
]

-- In every state that calls lead to, in any order, where a stream gets a new number and a request the
-- id of no connection that stands: each open stream has one handler on the bus behind those of others,
-- one timer and one connection, under its id, and there are no more of these.
pub Reached-Holds : (b : Bus) {s : Sse} → Reached b s → Holds b.wildcard_handlers s
unfolding status stream_at numbers get on_event
Reached-Holds b begins = record {
  wild = sym (append_nil b.wildcard_handlers);
  timers = refl;
  distinct = tt;
  owned = λ i n g. absurd (absent_some (sym g));
  held = λ i n g. absurd (absent_some (sym g));
  apart = λ n p g. absurd (absent_some (sym g));
}
Reached-Holds b (streamed trim accepts n r s way new free absent) =
    let h = Reached-Holds b way in
    stream-Holds trim accepts n r b.wildcard_handlers s h
      (start_stream-Holds trim n r b.wildcard_handlers s h new free absent)
Reached-Holds b (cancelled n s way) = cancel-Holds n b.wildcard_handlers s (Reached-Holds b way)
Reached-Holds b (published type_ id s way) =
    same_status-Holds b.wildcard_handlers (deliver type_ id s.bus.wildcard_handlers s.streams) s
      (Reached-Holds b way) (λ k. status-deliver k type_ id s.bus.wildcard_handlers s.streams)
Reached-Holds b (beaten n s way) = beat-Holds n b.wildcard_handlers s (Reached-Holds b way)
