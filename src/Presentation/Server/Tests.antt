-- ===== src/Presentation/Server/Tests.antt =====
-- The theorems of the server on requests, log lines and a URL.
use onlyapi.Base.{
  List, String, [], arith, codes, false, filter, get, keep_if, leb, length, none, refl, set, some,
  text_eq, true, ℕ, ◌++◌, ◌+◌, ◌∷◌, ◌≡◌,
}
use onlyapi.Presentation.RateLimit.{Limiter, RateLimitConfig}
use onlyapi.Presentation.Server.{
  HttpRequest, ServerConfig, answer, check_inline, counted, counted_entry, drop_request,
  extract_path, find_request, finish, flush_logs, is_match, joined, prune_inline, receive,
  responded, threw,
}
use onlyapi.Presentation.Server.Limits.{
  verdicts_inline, verdicts_middleware, verdicts_inline-middleware,
}
use onlyapi.Presentation.Server.Requests.{
  ServerEvent, receives, finishes, started, run, step, broken, breaks, increments-run, labels,
  replies,
}
use onlyapi.Presentation.Server.Logs.{
  LogEvent, logs, fires, quiet, run_logs, lines_of, stdout-run_logs,
}
use onlyapi.Presentation.Server.Paths.{extract_path-url_of}

abbrev two_per_second : RateLimitConfig
two_per_second = record { window_ms = 1000; max_requests = 2 }

abbrev no_entries : Limiter
no_entries = record { store = []; last_prune = 0 }

abbrev calls : List (String × ℕ)
calls = ("a", 70000) ∷ ("a", 70010) ∷ ("b", 70020) ∷ ("a", 70030) ∷ ("a", 71000) ∷ []

verdicts_inline-middleware_example :
    verdicts_inline two_per_second calls no_entries
    ≡ verdicts_middleware two_per_second calls no_entries
verdicts_inline-middleware_example =
    verdicts_inline-middleware two_per_second calls no_entries tt
      (omega arith, (omega arith, (omega arith, (omega arith, (omega arith, tt)))))

-- The third call of "a" in one second is refused.
verdicts : verdicts_inline two_per_second calls no_entries ≡ true ∷ true ∷ true ∷ false ∷ true ∷ []
unfolding verdicts_inline check_inline prune_inline counted_entry get set keep_if
verdicts = refl

abbrev config : ServerConfig
config = record { origins = []; rate_limit = two_per_second; has_ws_manager = false }

abbrev md5 : List ℕ → List ℕ
md5 body = codes "0"

abbrev home : HttpRequest
home = record {
  method = codes "GET";
  path = codes "/";
  origin = none;
  if_none_match = some (codes "\"0\"");
  ip = "a";
  upgrades = false;
}

-- Two requests come, and end in the other order: a failure of the router, and a match of the tag; a
-- third breaks off.
abbrev events : List ServerEvent
events =
    receives 1 70000 home
    ∷ receives 2 70010 home
    ∷ finishes 2 threw
    ∷ finishes 1 (responded 200 (some []))
    ∷ receives 3 71010 home
    ∷ finishes 3 (responded 200 none)
    ∷ []

increments-run_example :
    let s = run config md5 events (started no_entries) in
    (s.increments
      ≡ s.decrements + length s.in_flight + broken config md5 events (started no_entries))
    × (s.statuses ≡ labels config md5 events (started no_entries))
    × (s.statuses ≡ replies config md5 events (started no_entries))
    × (length s.statuses ≡ s.decrements)
    × (s.errors ≡ filter (leb 400) s.statuses)
increments-run_example = increments-run config md5 events no_entries

counted_statuses : (run config md5 events (started no_entries)).statuses ≡ 500 ∷ 304 ∷ []
unfolding run step receive finish find_request drop_request counted answer is_match check_inline
    prune_inline counted_entry get set keep_if text_eq
counted_statuses = refl

-- The third request has ended and is counted as active for ever.
leaks : broken config md5 events (started no_entries) ≡ 1
unfolding run step breaks broken receive finish find_request drop_request counted answer is_match
    check_inline prune_inline counted_entry get set keep_if text_eq
leaks = refl

abbrev logged : List LogEvent
logged = logs (codes "a") ∷ logs (codes "b") ∷ fires ∷ logs (codes "c") ∷ []

logged_in_order :
    let s = run_logs logged quiet in
    (s.stdout ++ joined s.log_buffer ≡ joined (lines_of logged))
    × (s.flush_scheduled ≡ false → s.log_buffer ≡ [])
    × ((flush_logs s).stdout ≡ joined (lines_of logged))
logged_in_order = stdout-run_logs logged

path_of_a_url : extract_path (codes "http://api:3000/v1/me?from=/a?b") ≡ codes "/v1/me"
path_of_a_url =
    extract_path-url_of (codes "http:") (codes "api:3000") (codes "v1/me")
      (some (codes "from=/a?b"))
      (
        (λ same. absurd cc),
        (
          (λ same. absurd cc),
          ((λ same. absurd cc), ((λ same. absurd cc), ((λ same. absurd cc), tt))),
        ),
      )
      (
        (λ same. absurd cc),
        (
          (λ same. absurd cc),
          (
            (λ same. absurd cc),
            (
              (λ same. absurd cc),
              (
                (λ same. absurd cc),
                ((λ same. absurd cc), ((λ same. absurd cc), ((λ same. absurd cc), tt))),
              ),
            ),
          ),
        ),
      )
      (
        (λ same. absurd cc),
        (
          (λ same. absurd cc),
          ((λ same. absurd cc), ((λ same. absurd cc), ((λ same. absurd cc), tt))),
        ),
      )
