-- ===== src/Cache/Redis/Tests.antt =====
-- Runs of the protocol, and its theorems at concrete answers. Numbers are written in ones.
use onlyapi.Base.{
  All, List, [], arith, codes, if◌then◌else◌, length, ltb, refl, some, suc, take, zero, ℕ, ◌+◌,
  ◌++◌, ◌≡◌, ◌≢◌, ◌↔◌, ◌∷◌, false, starts_with, substring, ◌≤◌, ◌<◌,
}
use onlyapi.Cache.Redis.{
  is_not_empty, Numbers, create_connection, crlf, encode_command, keys_of, nil, on_data,
  parse_response, send_command, value,
}
use onlyapi.Cache.Redis.Keys.{IsKey, keys_of-encode}
use onlyapi.Cache.Redis.Pending.{overtaken, reads, run, sends}
use onlyapi.Cache.Redis.Replies.{IsDecimal, bulk, parse_response-exact}

abbrev ones : ℕ → List ℕ
ones zero = []
ones (suc n) = b'1' ∷ ones n

abbrev bytes : List ℕ → ℕ
bytes [] = 0
bytes (c ∷ cs) = (if ltb c 128 then 1 else 2) + bytes cs

abbrev unary : Numbers
unary = record { show = ones; parse_int = λ cs. some (length cs); byte_length = bytes }

ones-digits : (n : ℕ) → All (λ c. (48 ≤ c) × (c ≤ 57)) (ones n)
ones-digits zero = tt
ones-digits (suc n) = ((omega arith, omega arith), ones-digits n)

ones-no_zero : (n : ℕ) → 0 < n → starts_with (codes "0") (ones n) ≡ false
unfolding starts_with
ones-no_zero zero h = absurd (omega arith)
ones-no_zero (suc n) h = refl

length-ones : (n : ℕ) → some (length (ones n)) ≡ some n
length-ones zero = refl
length-ones (suc n) = let ih = length-ones n in cc

unary-IsDecimal : IsDecimal unary
unary-IsDecimal = record { digits = ones-digits; no_zero = ones-no_zero; parse_show = length-ones }

-- "aé", of three bytes: the answer's line end is read with it.
abbrev accented : List ℕ
accented = b'a' ∷ 233 ∷ []

parse_response-exact_example :
    (parse_response unary (bulk unary unary-IsDecimal accented) ≡ value (take 3 (accented ++ crlf)))
    × ((parse_response unary (bulk unary unary-IsDecimal accented) ≡ value accented)
        ↔ (◌≡◌ {A = ℕ} 3 2))
parse_response-exact_example = parse_response-exact unary unary-IsDecimal accented (omega arith)

first_waits :
    (run unary (sends (codes "PING" ∷ []) ∷ []) create_connection).resolve_response ≡ some 0
unfolding send_command create_connection
first_waits = refl

overtaken_example :
    All
      (λ a. a.0 ≢ 0)
      (run unary (reads (codes "+OK" ++ crlf) ∷ []) (
        send_command unary
          (codes "PING" ∷ [])
          (run unary (sends (codes "PING" ∷ []) ∷ []) create_connection))).answered
overtaken_example =
    overtaken unary (sends (codes "PING" ∷ []) ∷ []) (reads (codes "+OK" ++ crlf) ∷ [])
      (codes "PING" ∷ []) 0 first_waits

two_keys : All IsKey (codes "a" ∷ codes "user:7" ∷ [])
unfolding starts_with is_not_empty
two_keys = ((omega arith, refl, refl), ((omega arith, refl, refl), tt))

encoded_keys :
    keys_of (encode_command unary (codes "a" ∷ codes "user:7" ∷ []))
    ≡ codes "a" ∷ codes "user:7" ∷ []
encoded_keys = keys_of-encode unary unary-IsDecimal (codes "a" ∷ codes "user:7" ∷ []) two_keys

ok_line : parse_response unary (codes "+OK" ++ crlf) ≡ value (codes "OK")
unfolding parse_response starts_with substring
ok_line = refl

nil_answer : parse_response unary (codes "$-1" ++ crlf) ≡ nil
unfolding parse_response starts_with
nil_answer = refl

-- A bulk string that comes in two pieces: the first is all that its call gets, and the other is put in
-- front of the next answer.
split_answer :
    (on_data (codes "+OK" ++ crlf) (
      send_command unary [] (
        on_data
          (codes "a" ++ crlf)
          (on_data (codes "$1" ++ crlf) (send_command unary [] create_connection))))).answered
    ≡ (0, codes "$1" ++ crlf) ∷ (1, codes "a" ++ crlf ++ codes "+OK" ++ crlf) ∷ []
unfolding on_data send_command create_connection starts_with
split_answer = refl
