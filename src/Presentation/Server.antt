-- ===== src/Presentation/Server.antt =====
-- src/presentation/server.ts: the path of a URL, the rate limit inlined in the request handler, what the
-- handler does before and after the router with requests in flight, and the batched log. A handler
-- waits for the router, so that it is `receive` before the call and `finish` after it. Tracing, locale,
-- the times measured, the handler's calls of the log and the headers that do not decide anything are
-- left out; md5 is a parameter.
pub mod Paths
pub mod Limits
pub mod Requests
pub mod Logs
mod Tests
use onlyapi.Base.{
  Bool, List, Option, String, [], false, get, if◌then◌else◌, keep_if, leb, length, ltb, none, set,
  some, starts_with, substring, suc, take, text_eq, codes, true, zero, ℕ, ◌&&◌, ◌+◌, ◌++◌, ◌-◌,
  ◌==◌, ◌||◌, ◌∷◌, not, count, ◌*◌, ◌/◌,
}
use onlyapi.Presentation.Access.{includes_origin}
use onlyapi.Presentation.RateLimit.{Limiter, RateLimitConfig, RateLimitEntry, is_current}

-- `text.indexOf(pattern)`
unfoldable pub index_of : List ℕ → List ℕ → Option ℕ
index_of pattern [] = if text_eq pattern [] then some 0 else none
index_of pattern (c ∷ cs) =
    if starts_with pattern (c ∷ cs)
    then some 0
    else elim (index_of pattern cs) [ none ↦ none | some i ↦ some (suc i) ]

-- `text.indexOf(pattern, from)`
pub index_from : List ℕ → ℕ → List ℕ → Option ℕ
unfolding index_of
index_from pattern from cs = elim (index_of pattern (substring from cs)) [
  | none ↦ none
  | some i ↦ some (from + i)
]

-- `url.indexOf("//") + 2`; -1 and 2 are 1.
abbrev pub after_scheme : Option ℕ → ℕ
after_scheme none = 1
after_scheme (some i) = i + 2

pub extract_path : List ℕ → List ℕ
unfolding index_from
extract_path url = elim (index_from (codes "/") (after_scheme (index_of (codes "//") url)) url) [
  | none ↦ codes "/"
  | some start ↦ elim (index_from (codes "?") start url) [
    | none ↦ substring start url
    | some q ↦ take (q - start) (substring start url)
  ]
]

-- The inlined limiter prunes at most once per minute.
pub prune_inline : ℕ → Limiter → Limiter
prune_inline now s =
    if ltb (s.last_prune + 60000) now
    then record { store = keep_if (is_current now) s.store; last_prune = now }
    else s

pub counted_entry : RateLimitConfig → ℕ → Option RateLimitEntry → RateLimitEntry
counted_entry c now none = record { count = 1; reset_at = now + c.window_ms }
counted_entry c now (some e) =
    if leb e.reset_at now
    then record { count = 1; reset_at = now + c.window_ms }
    else record e { count = e.count + 1 }

-- Whether the request is let through.
pub check_inline : RateLimitConfig → String → ℕ → Limiter → Bool × Limiter
unfolding prune_inline counted_entry
check_inline c ip now s =
    let s' = prune_inline now s in
    let e = counted_entry c now (get ip s'.store) in
    (not (ltb c.max_requests e.count), record s' { store = set ip e s'.store })

-- What of a request decides, and whether the manager and the run time would upgrade it to a WebSocket.
pub record HttpRequest : Type 0 where
  pub method : List ℕ
  pub path : List ℕ
  pub origin : Option (List ℕ)
  pub if_none_match : Option (List ℕ)
  pub ip : String
  pub upgrades : Bool

pub data Answer : Type 0 where
  preflight : List ℕ → Answer
  preflight_rejected : Answer
  rate_limited : Answer
  upgraded : Answer
  upgrade_failed : Answer
  waits : Answer

-- What the router's promise becomes: it is rejected, or a response with a status and a body, whose
-- reading may be rejected.
pub data RouterResult : Type 0 where
  threw : RouterResult
  responded : ℕ → Option (List ℕ) → RouterResult

-- `increments` and `decrements` count the calls on the gauge httpActiveConnections, `statuses` are the
-- labels of the calls on httpRequestsTotal and `errors` those on httpErrorsTotal. A request in flight
-- has a number.
pub record Server : Type 0 where
  pub limiter : Limiter
  pub in_flight : List (ℕ × HttpRequest)
  pub increments : ℕ
  pub decrements : ℕ
  pub statuses : List ℕ
  pub errors : List ℕ

pub record ServerConfig : Type 0 where
  pub origins : List (List ℕ)
  pub rate_limit : RateLimitConfig
  pub has_ws_manager : Bool

pub is_allowed : List (List ℕ) → List ℕ → Bool
unfolding includes_origin
is_allowed origins origin = includes_origin (codes "*") origins || includes_origin origin origins

-- Up to the call of the router; `n` is the number that the request gets.
pub receive : ServerConfig → ℕ → ℕ → HttpRequest → Server → Answer × Server
unfolding is_allowed check_inline
receive c n now req s =
    if text_eq req.method (codes "OPTIONS")
    then (elim req.origin [
      | none ↦ (preflight_rejected, s)
      | some origin ↦
          if is_allowed c.origins origin then (preflight origin, s) else (preflight_rejected, s)
    ])
    else (let (admitted, limiter) = check_inline c.rate_limit req.ip now s.limiter in
        let s' = record s { limiter = limiter } in
        if not admitted
        then (rate_limited, s')
        else if c.has_ws_manager
            && (text_eq req.path (codes "/ws") && text_eq req.method (codes "GET"))
        then (if req.upgrades then (upgraded, s') else (upgrade_failed, s'))
        else (
          waits,
          record s' { in_flight = (n, req) ∷ s'.in_flight; increments = s'.increments + 1 },
        ))

-- The request of a number, and the others.
pub find_request : ℕ → List (ℕ × HttpRequest) → Option HttpRequest
find_request n [] = none
find_request n ((m, req) ∷ rest) = if m == n then some req else find_request n rest

pub drop_request : ℕ → List (ℕ × HttpRequest) → List (ℕ × HttpRequest)
drop_request n [] = []
drop_request n ((m, req) ∷ rest) = if m == n then rest else (m, req) ∷ drop_request n rest

-- The counters at the end of a request.
pub counted : ℕ → Server → Server
counted status s = record s {
  statuses = s.statuses ++ status ∷ [];
  errors = if leb 400 status then s.errors ++ status ∷ [] else s.errors;
  decrements = s.decrements + 1;
}

-- `etag`, and whether If-None-Match is it.
pub is_match : (List ℕ → List ℕ) → Option (List ℕ) → List ℕ → Bool
is_match md5 none body = false
is_match md5 (some tag) body = text_eq tag (b'"' ∷ (md5 body ++ b'"' ∷ []))

-- After the router: the status of the answer, `none` where the handler itself throws.
pub answer : (List ℕ → List ℕ) → HttpRequest → RouterResult → Option ℕ
unfolding is_match
answer md5 req threw = some 500
answer md5 req (responded status body) =
    if text_eq req.method (codes "GET") && status == 200
    then elim body [
      | none ↦ none
      | some text ↦ if is_match md5 req.if_none_match text then some 304 else some status
    ]
    else some status

pub finish : (List ℕ → List ℕ) → ℕ → RouterResult → Server → Option ℕ × Server
unfolding find_request drop_request counted answer
finish md5 n result s = elim (find_request n s.in_flight) [
  | none ↦ (none, s)
  | some req ↦
      let s' = record s { in_flight = drop_request n s.in_flight } in
      elim (answer md5 req result) [
        | none ↦ (none, s')
        | some status ↦ (some status, counted status s')
      ]
]

-- The access log in production: lines wait in a buffer until a timer writes them in one piece.
pub record LogState : Type 0 where
  pub log_buffer : List (List ℕ)
  pub flush_scheduled : Bool
  pub timers : ℕ
  pub stdout : List ℕ

pub joined : List (List ℕ) → List ℕ
joined [] = []
joined (line ∷ lines) = line ++ joined lines

pub flush_logs : LogState → LogState
unfolding joined
flush_logs s = elim s.log_buffer [
  | [] ↦ record s { flush_scheduled = false }
  | line ∷ lines ↦ record s {
    log_buffer = [];
    flush_scheduled = false;
    stdout = s.stdout ++ joined (line ∷ lines);
  }
]

pub write_log : List ℕ → LogState → LogState
write_log line s =
    let s' = record s { log_buffer = s.log_buffer ++ line ∷ [] } in
    if s.flush_scheduled then s' else record s' { flush_scheduled = true; timers = s.timers + 1 }
