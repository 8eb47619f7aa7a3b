-- ===== src/Security/Base32.antt =====
-- base32Encode and base32Decode of src/infrastructure/security/totp-service.ts. A text is the list of
-- its code units. `value` is a 32-bit word: only bits that `>>>` and the masks read matter, so it is
-- kept modulo 2 ^ 32, and the bits that `|` fills are 0 before, so it is `+`.
pub mod RoundTrip
mod Tests
use onlyapi.Base.{
  Bool, List, Option, [], if◌then◌else◌, leb, ltb, none, some, suc, zero, ℕ, ◌%◌, ◌*◌, ◌+◌, ◌++◌,
  ◌-◌, ◌/◌, ◌==◌, ◌^◌, ◌∷◌,
}

-- "ABCDEFGHIJKLMNOPQRSTUVWXYZ234567"
abbrev pub base32_chars : List ℕ
base32_chars =
    65 ∷ 66 ∷ 67 ∷ 68 ∷ 69 ∷ 70 ∷ 71 ∷ 72 ∷ 73 ∷ 74 ∷ 75 ∷ 76 ∷ 77 ∷ 78 ∷ 79 ∷ 80 ∷ 81 ∷ 82 ∷ 83
    ∷ 84 ∷ 85 ∷ 86 ∷ 87 ∷ 88 ∷ 89 ∷ 90 ∷ 50 ∷ 51 ∷ 52 ∷ 53 ∷ 54 ∷ 55 ∷ []

-- `BASE32_CHARS[i]`; the index is below 32.
pub char_of : List ℕ → ℕ → ℕ
char_of [] i = 0
char_of (c ∷ cs) zero = c
char_of (c ∷ cs) (suc i) = char_of cs i

-- `BASE32_CHARS.indexOf(char)`, where `i` is the index of the head.
pub index_of : List ℕ → ℕ → ℕ → Option ℕ
index_of [] i char = none
index_of (c ∷ cs) i char = if c == char then some i else index_of cs (suc i) char

-- `while (bits >= 5)`: what it appends, and the bits left. `bits` falls in each round, so as many
-- rounds as there are bits are enough.
pub drain : ℕ → ℕ → ℕ → List ℕ × ℕ
drain zero value bits = ([], bits)
drain (suc rounds) value bits =
    let bits' = bits - 5 in
    let (more, left) = drain rounds value bits' in
    if leb 5 bits then (char_of base32_chars (value / 2 ^ bits' % 32) ∷ more, left) else ([], bits)

pub encode_loop : List ℕ → ℕ → ℕ → List ℕ
unfolding drain
encode_loop [] value bits =
    if ltb 0 bits then char_of base32_chars (value * 2 ^ (5 - bits) % 32) ∷ [] else []
encode_loop (byte ∷ data') value bits =
    let value' = (value * 256 + byte) % 2 ^ 32 in
    let (chars, left) = drain (bits + 8) value' (bits + 8) in chars ++ encode_loop data' value' left

pub base32_encode : List ℕ → List ℕ
unfolding encode_loop
base32_encode data' = encode_loop data' 0 0

-- A character outside the alphabet is passed over.
pub decode_loop : List ℕ → ℕ → ℕ → List ℕ
decode_loop [] value bits = []
decode_loop (char ∷ chars) value bits = elim (index_of base32_chars 0 char) [
  | none ↦ decode_loop chars value bits
  | some i ↦
      let value' = (value * 32 + i) % 2 ^ 32 in
      let full = (value' / 2 ^ (bits - 3) % 256) ∷ decode_loop chars value' (bits - 3) in
      let partial = decode_loop chars value' (bits + 5) in
      if leb 8 (bits + 5) then full else partial
]

-- `replace(/=+$/, "")`, where the rest of the text has lost its padding.
unfoldable pub strip_step : ℕ → List ℕ → List ℕ
strip_step c [] = if c == 61 then [] else c ∷ []
strip_step c (d ∷ ds) = c ∷ d ∷ ds

unfoldable pub strip_padding : List ℕ → List ℕ
unfolding strip_step
strip_padding [] = []
strip_padding (c ∷ cs) = strip_step c (strip_padding cs)

-- `upper` is `toUpperCase`.
pub base32_decode : (List ℕ → List ℕ) → List ℕ → List ℕ
unfolding decode_loop strip_padding
base32_decode upper encoded = decode_loop (upper (strip_padding encoded)) 0 0
