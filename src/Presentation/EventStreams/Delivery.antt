-- ===== src/Presentation/EventStreams/Delivery.antt =====
-- Which streams an event on the bus reaches.
use onlyapi.Base.{
  List, Distinct, EntriesOf, Map, Option, String, [], ap, arith, false, get, if◌then◌else◌, inl,
  inr, none, refl, some, str_eq-cases, sym, true, ℕ, ◌&&◌, ◌++◌, ◌==◌, ◌∙◌, ◌∷◌, ◌≡◌, Bool-cases,
  Distinct-EntriesOf, Option-cases,
}
use onlyapi.Events.Bus.{has, Bus, at}
use onlyapi.Presentation.EventStreams.{
  Stream, change_at, deliver, enqueue, handler, stream_at, is_subscribed, event, Sse, on_event,
}
use onlyapi.Presentation.EventStreams.Connections.{Owned, numbers, status, Reached}
use onlyapi.Presentation.EventStreams.Preservation.{Reached-Holds}

-- A stream after one event.
abbrev pub informed : String → String → Stream → Stream
informed type_ id st =
    if st.is_open && is_subscribed type_ st.subscribed_events
    then record st { sent = st.sent ++ event type_ id ∷ [] }
    else st

abbrev pub map_some : (Stream → Stream) → Option Stream → Option Stream
map_some f none = none
map_some f (some st) = some (f st)

handler-informed : (type_ id : String) (st : Stream) → handler type_ id st ≡ informed type_ id st
unfolding handler enqueue
handler-informed type_ id st = ground arith

stream_at-change_self :
    (n : ℕ) (f : Stream → Stream) (sts : List (ℕ × Stream))
    → stream_at n (change_at n f sts) ≡ map_some f (stream_at n sts)
unfolding stream_at change_at
stream_at-change_self n f [] = refl
stream_at-change_self n f ((m, st) ∷ sts) = ground (arith, stream_at-change_self n f sts)

stream_at-change_ne :
    (n k : ℕ) (f : Stream → Stream) (sts : List (ℕ × Stream))
    → (k == n) ≡ false
    → stream_at n (change_at k f sts) ≡ stream_at n sts
unfolding stream_at change_at
stream_at-change_ne n k f [] ne = refl
stream_at-change_ne n k f ((m, st) ∷ sts) ne = ground (arith, stream_at-change_ne n k f sts ne)

deliver-absent :
    (type_ id : String) (n : ℕ) (ns : List ℕ) (sts : List (ℕ × Stream))
    → has n ns ≡ false
    → stream_at n (deliver type_ id ns sts) ≡ stream_at n sts
unfolding deliver has
deliver-absent type_ id n [] sts h = refl
deliver-absent type_ id n (k ∷ ns) sts h =
    deliver-absent type_ id n ns (change_at k (handler type_ id) sts) (ground arith)
    ∙ stream_at-change_ne n k (handler type_ id) sts (ground arith)

deliver-append :
    (type_ id : String) (ns ks : List ℕ) (sts : List (ℕ × Stream))
    → deliver type_ id (ns ++ ks) sts ≡ deliver type_ id ks (deliver type_ id ns sts)
unfolding deliver
deliver-append type_ id [] ks sts = refl
deliver-append type_ id (n ∷ ns) ks sts =
    deliver-append type_ id ns ks (change_at n (handler type_ id) sts)

-- A stream whose connection is elsewhere has no number among these.
has-elsewhere :
    (i : String) (n : ℕ) (sts : List (ℕ × Stream)) (big m : Map ℕ)
    → Owned big sts
    → EntriesOf big m
    → status n sts ≡ some (i, true)
    → get i m ≡ none
    → has n (numbers m) ≡ false
unfolding has numbers get
has-elsewhere i n sts big [] owned es st g = refl
has-elsewhere i n sts big ((j, w) ∷ m) owned (e, es) st g =
    let here = owned j w e in
    elim (str_eq-cases j i) [
      | inl (y, same) ↦ absurd (ground arith)
      | inr (f, other) ↦
          (let rest = has-elsewhere i n sts big m owned es st (ground arith) in
            let differs : (w == n) ≡ false = grind arith in ground arith)
    ]

-- The handler of a stream is called once.
deliver-numbers :
    (type_ id i : String) (n : ℕ) (sts sts' : List (ℕ × Stream)) (big m : Map ℕ)
    → Owned big sts
    → EntriesOf big m
    → Distinct m
    → status n sts ≡ some (i, true)
    → get i m ≡ some n
    → stream_at n (deliver type_ id (numbers m) sts')
      ≡ map_some (handler type_ id) (stream_at n sts')
unfolding deliver numbers get
deliver-numbers type_ id i n sts sts' big [] owned es d st g = absurd cc
deliver-numbers type_ id i n sts sts' big ((j, w) ∷ m) owned (e, es) (d, ds) st g =
    let here = owned j w e in
    let after = change_at w (handler type_ id) sts' in
    elim (str_eq-cases j i) [
      | inl (y, same) ↦
          (let own : w ≡ n = ground arith in
            let gone : get i m ≡ none = ap (λ k. get k m) (sym same) ∙ d in
            deliver-absent type_ id n (numbers m) after
              (has-elsewhere i n sts big m owned es st gone)
            ∙ ap (λ k. stream_at n (change_at k (handler type_ id) sts')) own
            ∙ stream_at-change_self n (handler type_ id) sts')
      | inr (f, other) ↦
          (let differs : (w == n) ≡ false = grind arith in
            deliver-numbers type_ id i n sts after big m owned es ds st (ground arith)
            ∙ ap (map_some (handler type_ id))
                (stream_at-change_ne n w (handler type_ id) sts' differs))
    ]

-- A stream that its handler does not change stays as it is.
deliver-inert :
    (type_ id : String) (n : ℕ) (ns : List ℕ) (sts : List (ℕ × Stream)) (o : Option Stream)
    → map_some (handler type_ id) o ≡ o
    → stream_at n sts ≡ o
    → stream_at n (deliver type_ id ns sts) ≡ o
unfolding deliver
deliver-inert type_ id n [] sts o inert at = at
deliver-inert type_ id n (k ∷ ns) sts o inert at =
    let f = handler type_ id in
    deliver-inert type_ id n ns (change_at k f sts) o inert (elim (Bool-cases (k == n)) [
      | inl t ↦
          (let own : k ≡ n = ground arith in
            ap (λ j. stream_at n (change_at j f sts)) own
            ∙ stream_at-change_self n f sts
            ∙ ap (map_some f) at
            ∙ inert)
      | inr ne ↦ stream_at-change_ne n k f sts ne ∙ at
    ])

-- In every state that calls lead to, an event is sent once to each open stream that asked for its type
-- or for no type in particular, and every other stream stays as it is.
pub on_event-informed :
    (b : Bus) {s : Sse} (type_ id : String) (n : ℕ)
    → Reached b s
    → stream_at n (on_event type_ id s).streams
      ≡ map_some (informed type_ id) (stream_at n s.streams)
unfolding on_event status
on_event-informed b {s = s} type_ id n way =
    let h = Reached-Holds b way in
    let f = handler type_ id in
    let wild = s.bus.wildcard_handlers in
    elim (Option-cases (stream_at n s.streams)) [
      | inl gone ↦
          deliver-inert type_ id n wild s.streams none refl gone
          ∙ ap (map_some (informed type_ id)) (sym gone)
      | inr (st, found) ↦ elim (Bool-cases st.is_open) [
        | inl t ↦
            (let i = st.connection_id in
              let now_open : status n s.streams ≡ some (i, true) = ground arith in
              let there = numbers s.connections in
              let met = deliver type_ id b.wildcard_handlers s.streams in
              ap (λ ns. stream_at n (deliver type_ id ns s.streams)) h.wild
              ∙ ap (stream_at n) (deliver-append type_ id b.wildcard_handlers there s.streams)
              ∙ deliver-numbers type_ id i n s.streams met s.connections s.connections h.owned
                  (Distinct-EntriesOf s.connections h.distinct) h.distinct now_open
                  (h.held i n now_open)
              ∙ ap (map_some f) (
                  deliver-absent type_ id n b.wildcard_handlers s.streams
                    (h.apart n (i, true) now_open)
                  ∙ found)
              ∙ ap some (handler-informed type_ id st)
              ∙ ap (map_some (informed type_ id)) (sym found))
        | inr c ↦
            (let closed : informed type_ id st ≡ st = ground arith in
              let inert : map_some f (some st) ≡ some st =
                ap some (handler-informed type_ id st ∙ closed) in
              deliver-inert type_ id n wild s.streams (some st) inert found
              ∙ ap some (sym closed)
              ∙ ap (map_some (informed type_ id)) (sym found))
      ]
    ]
