-- ===== src/Presentation/Server/Requests.antt =====
-- What the counters of the server say of its requests, whatever the order in which they come and end.
use onlyapi.Base.{
  Bool, List, Option, Option-cases, [], ap, arith, filter, if◌then◌else◌, inl, inr, leb, length,
  append_assoc, append_nil, length-append, none, refl, some, suc, sym, ℕ, ◌+◌, ◌++◌, ◌≡◌, ◌∙◌, ◌∷◌,
  subst,
}
use onlyapi.Presentation.RateLimit.{Limiter}
use onlyapi.Presentation.Server.{
  HttpRequest, RouterResult, Server, ServerConfig, answer, counted, drop_request, find_request,
  finish, receive,
}

-- A request comes, or the router is done with one.
pub data ServerEvent : Type 0 where
  receives : ℕ → ℕ → HttpRequest → ServerEvent
  finishes : ℕ → RouterResult → ServerEvent

abbrev pub started : Limiter → Server
started limiter = record {
  limiter = limiter;
  in_flight = [];
  increments = 0;
  decrements = 0;
  statuses = [];
  errors = [];
}

module _ (c : ServerConfig) (md5 : List ℕ → List ℕ) where
  unfoldable pub step : ServerEvent → Server → Server
  step (receives n now req) s = (receive c n now req s).1
  step (finishes n result) s = (finish md5 n result s).1

  unfoldable pub run : List ServerEvent → Server → Server
  unfolding step
  run [] s = s
  run (e ∷ es) s = run es (step e s)

  -- The end of a request in flight at which the handler throws.
  unfoldable pub breaks : ServerEvent → Server → ℕ
  breaks (receives n now req) s = 0
  breaks (finishes n result) s = elim (find_request n s.in_flight) [
    | none ↦ 0
    | some req ↦ elim (answer md5 req result) [ none ↦ 1 | some status ↦ 0 ]
  ]

  unfoldable pub broken : List ServerEvent → Server → ℕ
  unfolding breaks
  broken [] s = 0
  broken (e ∷ es) s = breaks e s + broken es (step e s)

  -- The status that the router's result is given, at the end of a request in flight.
  unfoldable pub label : ServerEvent → Server → List ℕ
  label (receives n now req) s = []
  label (finishes n result) s = elim (find_request n s.in_flight) [
    | none ↦ []
    | some req ↦ elim (answer md5 req result) [ none ↦ [] | some status ↦ status ∷ [] ]
  ]

  unfoldable pub labels : List ServerEvent → Server → List ℕ
  unfolding label
  labels [] s = []
  labels (e ∷ es) s = label e s ++ labels es (step e s)

  abbrev sent_status : Option ℕ → List ℕ
  sent_status none = []
  sent_status (some status) = status ∷ []

  -- The statuses of the answers that go out.
  unfoldable pub replies : List ServerEvent → Server → List ℕ
  unfolding step
  replies [] s = []
  replies (receives n now req ∷ es) s = replies es (step (receives n now req) s)
  replies (finishes n result ∷ es) s =
      sent_status (finish md5 n result s).0 ++ replies es (step (finishes n result) s)

  -- The counters agree, with a number of requests that were broken off.
  abbrev Agree : ℕ → Server → Type 0
  Agree b s =
      (s.increments ≡ s.decrements + length s.in_flight + b)
      × (length s.statuses ≡ s.decrements)
      × (s.errors ≡ filter (leb 400) s.statuses)

  length-drop_request :
      (n : ℕ) (rs : List (ℕ × HttpRequest)) (req : HttpRequest)
      → find_request n rs ≡ some req
      → length rs ≡ suc (length (drop_request n rs))
  unfolding find_request drop_request
  length-drop_request n [] req h = absurd cc
  length-drop_request n ((m, r) ∷ rs) req h = ground (arith, length-drop_request n rs req)

  filter-append :
      (p : ℕ → Bool) (x : ℕ) (xs : List ℕ)
      → filter p (xs ++ x ∷ []) ≡ (if p x then filter p xs ++ x ∷ [] else filter p xs)
  filter-append p x [] = refl
  filter-append p x (y ∷ ys) = ground (arith, filter-append p x ys)

  -- A request that does not reach the router changes no counter; one that does adds itself to both.
  receive-Agree :
      (b n now : ℕ) (req : HttpRequest) (s : Server) → Agree b s → Agree b (receive c n now req s).1
  unfolding receive
  receive-Agree b n now req s (i, l, e) = (ground arith, ground arith, ground arith)

  counted-Agree :
      (b status : ℕ) (s : Server)
      → (s.increments ≡ s.decrements + suc (length s.in_flight) + b)
      → (length s.statuses ≡ s.decrements)
      → (s.errors ≡ filter (leb 400) s.statuses)
      → Agree b (counted status s)
  unfolding counted
  counted-Agree b status s i l e =
      let grown : length (s.statuses ++ status ∷ []) ≡ s.decrements + 1 =
        length-append s.statuses (status ∷ []) ∙ ap (λ k. k + 1) l in
      (omega arith, grown, ground (arith, filter-append (leb 400) status s.statuses))

  finish-Agree :
      (b n : ℕ) (result : RouterResult) (s : Server)
      → Agree b s
      → Agree (b + breaks (finishes n result) s) (finish md5 n result s).1
  unfolding finish breaks
  finish-Agree b n result s (i, l, e) = elim (Option-cases (find_request n s.in_flight)) [
    | inl none_found ↦ (ground arith, ground arith, ground arith)
    | inr (req, found) ↦ elim (Option-cases (answer md5 req result)) [
      | inl broken_off ↦
          (ground (arith, length-drop_request n s.in_flight req found), ground arith, ground arith)
      | inr (status, answered) ↦
          let rest : Server = record s { in_flight = drop_request n s.in_flight } in
          let ends : (finish md5 n result s).1 ≡ counted status rest = ground arith in
          let no_break : breaks (finishes n result) s ≡ 0 = ground arith in
          let one_less = length-drop_request n s.in_flight req found in
          subst (Agree (b + breaks (finishes n result) s)) (sym ends)
            (counted-Agree (b + breaks (finishes n result) s) status rest (omega arith) l e)
    ]
  ]

  run-Agree :
      (es : List ServerEvent) (b : ℕ) (s : Server) → Agree b s → Agree (b + broken es s) (run es s)
  unfolding run broken
  run-Agree [] b s h = subst (λ k. Agree k s) (omega arith) h
  run-Agree (receives n now req ∷ es) b s h =
      let rest = run-Agree es b (receive c n now req s).1 (receive-Agree b n now req s h) in
      subst (λ k. Agree k (run es (receive c n now req s).1)) (omega arith) rest
  run-Agree (finishes n result ∷ es) b s h =
      let rest =
        run-Agree es (b + breaks (finishes n result) s) (finish md5 n result s).1
          (finish-Agree b n result s h) in
      subst (λ k. Agree k (run es (finish md5 n result s).1)) (omega arith) rest

  receive-statuses :
      (n now : ℕ) (req : HttpRequest) (s : Server) → (receive c n now req s).1.statuses ≡ s.statuses
  unfolding receive
  receive-statuses n now req s = ground arith

  finish-statuses :
      (n : ℕ) (result : RouterResult) (s : Server)
      → ((finish md5 n result s).1.statuses ≡ s.statuses ++ label (finishes n result) s)
        × (sent_status (finish md5 n result s).0 ≡ label (finishes n result) s)
  unfolding finish label counted
  finish-statuses n result s = elim (Option-cases (find_request n s.in_flight)) [
    | inl none_found ↦ rw (none_found, finish, label) (sym (append_nil s.statuses), refl)
    | inr (req, found) ↦ elim (Option-cases (answer md5 req result)) [
      | inl broken_off ↦ rw (found, broken_off, finish, label) (sym (append_nil s.statuses), refl)
      | inr (status, answered) ↦ rw (found, answered, finish, label) (refl, refl)
    ]
  ]

  run-statuses :
      (es : List ServerEvent) (s : Server)
      → ((run es s).statuses ≡ s.statuses ++ labels es s) × (replies es s ≡ labels es s)
  unfolding run labels replies
  run-statuses [] s = (sym (append_nil s.statuses), refl)
  run-statuses (receives n now req ∷ es) s =
      let (counts, sends) = run-statuses es (receive c n now req s).1 in
      (
        counts
            ∙ ap (λ xs. xs ++ labels es (receive c n now req s).1) (receive-statuses n now req s),
        sends,
      )
  run-statuses (finishes n result ∷ es) s =
      let t = (finish md5 n result s).1 in
      let (counts, sends) = run-statuses es t in
      let (counted_now, sent_now) = finish-statuses n result s in
      (
        counts
            ∙ ap (λ xs. xs ++ labels es t) counted_now
            ∙ append_assoc s.statuses (label (finishes n result) s) (labels es t),
        ap (λ xs. xs ++ replies es t) sent_now ∙ ap (λ xs. label (finishes n result) s ++ xs) sends,
      )

  -- After any requests that come and end in any order, from the start: the gauge of active connections
  -- counts the requests in flight and those whose handler threw after the router was done; every other
  -- end is counted once, in order, with the status that the router's result is given, which is the
  -- status of the answer that goes out; and the errors are the statuses from 400 on, in their order.
  pub increments-run :
      (es : List ServerEvent) (limiter : Limiter)
      → let s = run es (started limiter) in
        (s.increments ≡ s.decrements + length s.in_flight + broken es (started limiter))
        × (s.statuses ≡ labels es (started limiter))
        × (s.statuses ≡ replies es (started limiter))
        × (length s.statuses ≡ s.decrements)
        × (s.errors ≡ filter (leb 400) s.statuses)
  increments-run es limiter =
      let (i, l, e) =
        subst (λ k. Agree k (run es (started limiter))) (omega arith)
          (run-Agree es 0 (started limiter) (refl, refl, refl)) in
      let (counts, sends) = run-statuses es (started limiter) in
      (i, counts, counts ∙ sym sends, l, e)
