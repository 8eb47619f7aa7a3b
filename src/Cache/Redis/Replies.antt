-- ===== src/Cache/Redis/Replies.antt =====
-- What the answers of the server, in the protocol's form, are read as.
use onlyapi.Base.{
  append_assoc, All, List, [], ap, arith, codes, false, length, length-append, max, min, refl, some,
  starts_with, substring, suc, sym, take, zero, ℕ, ◌+◌, ◌++◌, ◌-◌, ◌<◌, ◌≡◌, ◌≢◌, ◌≤◌, ◌↔◌, ◌∙◌,
  ◌∷◌,
}
use onlyapi.Cache.Redis.{Numbers, crlf, index_of_crlf, parse_response, slice, value}

-- The run time writes a number in decimal digits, with no 0 in front, and reads it back.
pub record IsDecimal (N : Numbers) : Type 0 where
  pub digits : (n : ℕ) → All (λ c. (48 ≤ c) × (c ≤ 57)) (N.show n)
  pub no_zero : (n : ℕ) → 0 < n → starts_with (codes "0") (N.show n) ≡ false
  pub parse_show : (n : ℕ) → N.parse_int (N.show n) ≡ some n

-- A text without a carriage return.
abbrev pub IsLine : List ℕ → Type 0
IsLine line = All (λ c. c ≢ 13) line

pub digits-IsLine : (cs : List ℕ) → All (λ c. (48 ≤ c) × (c ≤ 57)) cs → IsLine cs
digits-IsLine [] h = tt
digits-IsLine (c ∷ cs) (h, hs) = ((λ e. absurd (omega arith)), digits-IsLine cs hs)

index_line :
    (line rest : List ℕ) → IsLine line → index_of_crlf (line ++ (crlf ++ rest)) ≡ some (length line)
unfolding index_of_crlf starts_with
index_line [] rest h = refl
index_line (c ∷ cs) rest (h, hs) = ground (arith, index_line cs rest hs)

substring-append : (cs ds : List ℕ) → substring (length cs) (cs ++ ds) ≡ ds
unfolding substring
substring-append [] ds = refl
substring-append (c ∷ cs) ds = substring-append cs ds

take-append : (cs ds : List ℕ) → take (length cs) (cs ++ ds) ≡ cs
take-append [] ds = refl
take-append (c ∷ cs) ds = ap (λ t. c ∷ t) (take-append cs ds)

-- A part of a text, between two others.
slice_middle :
    (as' bs : List ℕ) (from n : ℕ)
    → from ≡ length as'
    → slice from (from + n) (as' ++ bs) ≡ take n bs
unfolding slice
slice_middle as' bs from n e =
    let up : max from (from + n) - min from (from + n) ≡ n = omega arith in
    let low : min from (from + n) ≡ length as' = omega arith in
    rw (up, low, substring-append as' bs) refl

length-take_le : (n : ℕ) (cs : List ℕ) → n ≤ length cs → length (take n cs) ≡ n
length-take_le zero cs h = refl
length-take_le (suc n) [] h = absurd (omega arith)
length-take_le (suc n) (c ∷ cs) h = let ih = length-take_le n cs (omega arith) in omega arith

value_inj : {a b : List ℕ} → value a ≡ value b → a ≡ b
value_inj h = cc

module _ (N : Numbers) (L : IsDecimal N) where
  -- A bulk string, as the server sends it.
  abbrev pub bulk : List ℕ → List ℕ
  bulk t = (b'$' ∷ N.show (N.byte_length t)) ++ (crlf ++ (t ++ crlf))

  head-IsLine : (c n : ℕ) → c ≢ 13 → IsLine (c ∷ N.show n)
  head-IsLine c n ne = (ne, digits-IsLine (N.show n) (L.digits n))

  not_nil : (n : ℕ) (rest : List ℕ) → starts_with (codes "-1") (N.show n ++ (crlf ++ rest)) ≡ false
  unfolding starts_with
  not_nil n rest = digits_first (N.show n) (L.digits n)
    where
      digits_first :
          (cs : List ℕ)
          → All (λ c. (48 ≤ c) × (c ≤ 57)) cs
          → starts_with (codes "-1") (cs ++ (crlf ++ rest)) ≡ false
      digits_first [] h = refl
      digits_first (c ∷ cs) (h, hs) = ground arith

  parse_response-bulk :
      (t : List ℕ) → parse_response N (bulk t) ≡ value (take (N.byte_length t) (t ++ crlf))
  unfolding parse_response starts_with
  parse_response-bulk t =
      let n = N.byte_length t in
      let digits = N.show n in
      let line = b'$' ∷ digits in
      let rest = crlf ++ (t ++ crlf) in
      let found : index_of_crlf (digits ++ rest) ≡ some (length digits) =
        index_line digits (t ++ crlf) (digits-IsLine digits (L.digits n)) in
      let number : slice 1 (suc (length digits)) (bulk t) ≡ digits =
        ap (λ k. slice 1 k (bulk t)) (omega arith)
        ∙ slice_middle (b'$' ∷ []) (digits ++ rest) 1 (length digits) refl
        ∙ take-append digits rest in
      let from : length line + 2 ≡ length (line ++ crlf) = sym (length-append line crlf) in
      let body : slice (suc (length digits) + 2) (suc (length digits) + 2 + n) (bulk t)
          ≡ take n (t ++ crlf) =
        ap (slice (length line + 2) (length line + 2 + n))
          (sym (append_assoc line crlf (t ++ crlf)))
        ∙ slice_middle (line ++ crlf) (t ++ crlf) (length line + 2) n from in
      rw (not_nil n (t ++ crlf), found) (rw number (rw (L.parse_show n) (ap value body)))

  take_exact : (n : ℕ) (t : List ℕ) → length t ≤ n → take n (t ++ crlf) ≡ t → n ≡ length t
  take_exact zero t le e = omega (arith, ap length e)
  take_exact (suc n) [] le e = absurd cc
  take_exact (suc n) (c ∷ t) le e = let ih = take_exact n t (omega arith) cc in omega arith

  -- The answer to a GET of a text in the server's form is read as the first characters of the text and the
  -- line end that follows, as many as the text has bytes; that is the text exactly if it has no more bytes
  -- than characters.
  pub parse_response-exact :
      (t : List ℕ)
      → length t ≤ N.byte_length t
      → (parse_response N (bulk t) ≡ value (take (N.byte_length t) (t ++ crlf)))
        × ((parse_response N (bulk t) ≡ value t) ↔ (N.byte_length t ≡ length t))
  parse_response-exact t le =
      let read = parse_response-bulk t in
      (
        read,
        (
          λ e. take_exact (N.byte_length t) t le (value_inj (sym read ∙ e)),
          λ e. read ∙ ap value (ap (λ n. take n (t ++ crlf)) e ∙ take-append t crlf),
        ),
      )
