-- ===== src/Cache/Redis.antt =====
-- src/infrastructure/cache/redis-cache.ts: the commands and answers of the protocol as texts, and the
-- one connection over which they go, as a state that calls and data change. A call of `sendCommand` is
-- a number, its promise. JSON and what the run time makes of numbers are parameters.
pub mod Replies
pub mod Keys
pub mod Pending
mod Tests
use onlyapi.Base.{
  prepend, Bool, List, Option, String, [], codes, false, filter, if◌then◌else◌, length, map, max,
  min, none, not, some, starts_with, substring, suc, take, text_eq, true, zero, ℕ, ◌&&◌, ◌+◌, ◌++◌,
  ◌-◌, ◌==◌, ◌∷◌,
}
use onlyapi.Core.Errors.{app_error, internal}
use onlyapi.Core.Results.{Outcome, err, ok}

-- `String(n)`, `Number.parseInt` of a text (`none` for NaN), and the bytes of a text in UTF-8.
pub record Numbers : Type 0 where
  pub show : ℕ → List ℕ
  pub parse_int : List ℕ → Option ℕ
  pub byte_length : List ℕ → ℕ

-- "\r\n"
abbrev pub crlf : List ℕ
crlf = 13 ∷ 10 ∷ []

-- `raw.indexOf("\r\n")`
pub index_of_crlf : List ℕ → Option ℕ
index_of_crlf [] = none
index_of_crlf (c ∷ cs) =
    if starts_with crlf (c ∷ cs)
    then some 0
    else elim (index_of_crlf cs) [ none ↦ none | some i ↦ some (suc i) ]

pub includes_crlf : List ℕ → Bool
unfolding index_of_crlf
includes_crlf cs = elim (index_of_crlf cs) [ none ↦ false | some i ↦ true ]

-- `raw.substring(from, to)`, which swaps its arguments if `to` is smaller; -1 and NaN count as 0.
pub slice : ℕ → ℕ → List ℕ → List ℕ
slice from to cs = take (max from to - min from to) (substring (min from to) cs)

abbrev pub or_zero : Option ℕ → ℕ
or_zero none = 0
or_zero (some n) = n

-- `raw.substring(1, raw.indexOf("\r\n"))`
pub first_line : List ℕ → List ℕ
unfolding index_of_crlf slice
first_line raw = slice 1 (or_zero (index_of_crlf raw)) raw

-- What `parseResponse` returns, or the message of the error that it throws.
pub data Reply : Type 0 where
  nil : Reply
  value : List ℕ → Reply
  thrown : List ℕ → Reply

module _ (N : Numbers) where
  pub encode_args : List (List ℕ) → List ℕ
  encode_args [] = []
  encode_args (arg ∷ args) =
      (b'$' ∷ N.show (N.byte_length arg)) ++ (crlf ++ (arg ++ (crlf ++ encode_args args)))

  pub encode_command : List (List ℕ) → List ℕ
  unfolding encode_args
  encode_command args = (b'*' ∷ N.show (length args)) ++ (crlf ++ encode_args args)

  pub parse_response : List ℕ → Reply
  unfolding first_line index_of_crlf slice
  parse_response raw =
      if starts_with (codes "+") raw
      then value (first_line raw)
      else if starts_with (codes "-") raw
      then thrown (first_line raw)
      else if starts_with (codes ":") raw
      then value (first_line raw)
      else if starts_with (codes "$-1") raw
      then nil
      else if starts_with (codes "$") raw
      then elim (index_of_crlf raw) [
        | none ↦ elim (N.parse_int (slice 1 0 raw)) [
          | none ↦ value (slice 1 0 raw)
          | some n ↦ value (slice 1 (1 + n) raw)
        ]
        | some i ↦ elim (N.parse_int (slice 1 i raw)) [
          | none ↦ value (slice (i + 2) 0 raw)
          | some n ↦ value (slice (i + 2) (i + 2 + n) raw)
        ]
      ]
      else value raw

  -- What the calls make of the answer that they get; `parse` is JSON.parse, `none` where it throws.
  pub get_result : {V : Type 0} → (List ℕ → Option V) → (List ℕ → V) → List ℕ → Outcome (Option V)
  unfolding parse_response
  get_result parse text raw = elim (parse_response raw) [
    | nil ↦ ok none
    | value t ↦ elim (parse t) [ none ↦ ok (some (text t)) | some v ↦ ok (some v) ]
    | thrown m ↦ err (app_error internal "Redis error")
  ]

  -- The answer to SET is not looked at.
  pub set_result : List ℕ → Outcome (Unit {0})
  set_result raw = ok tt

  -- `del` and `has`
  pub is_one_result : List ℕ → Outcome Bool
  unfolding parse_response
  is_one_result raw = elim (parse_response raw) [
    | nil ↦ ok false
    | value t ↦ ok (text_eq t (codes "1"))
    | thrown m ↦ err (app_error internal "Redis error")
  ]

-- `raw.split("\r\n")`
pub split_lines : List ℕ → List (List ℕ)
split_lines [] = [] ∷ []
split_lines (c ∷ []) = (c ∷ []) ∷ []
split_lines (c ∷ d ∷ cs) = elim (c == 13 && d == 10) [
  | true ↦ [] ∷ split_lines cs
  | false ↦ prepend c (split_lines (d ∷ cs))
]

-- `filter(Boolean)`
pub is_not_empty : List ℕ → Bool
is_not_empty [] = false
is_not_empty (c ∷ cs) = true

-- The loop over the lines but the first one.
pub keys_of_lines : List (List ℕ) → List (List ℕ)
keys_of_lines [] = []
keys_of_lines (head ∷ lines) = filter (λ line. not (starts_with (codes "$") line)) lines

-- The keys in the answer to KEYS; for none of them DEL is not sent.
pub keys_of : List ℕ → List (List ℕ)
unfolding split_lines is_not_empty keys_of_lines
keys_of raw =
    if starts_with (codes "*0") raw
    then []
    else keys_of_lines (filter is_not_empty (split_lines raw))

-- What has been read and not given to a promise, the promise that waits, how many calls were made, what
-- was written to the socket, and the answers that promises got.
pub record Connection : Type 0 where
  pub response_buffer : List ℕ
  pub resolve_response : Option ℕ
  pub calls : ℕ
  pub written : List ℕ
  pub answered : List (ℕ × List ℕ)

pub create_connection : Connection
create_connection = record {
  response_buffer = [];
  resolve_response = none;
  calls = 0;
  written = [];
  answered = [];
}

pub send_command : Numbers → List (List ℕ) → Connection → Connection
unfolding encode_command
send_command N args s = record s {
  resolve_response = some s.calls;
  calls = s.calls + 1;
  written = s.written ++ encode_command N args;
}

-- Data from the socket.
pub on_data : List ℕ → Connection → Connection
unfolding includes_crlf
on_data chunk s =
    let buffer = s.response_buffer ++ chunk in
    elim s.resolve_response [
      | none ↦ record s { response_buffer = buffer }
      | some call ↦
          if includes_crlf buffer
          then record s {
            response_buffer = [];
            resolve_response = none;
            answered = s.answered ++ (call, buffer) ∷ [];
          }
          else record s { response_buffer = buffer }
    ]
