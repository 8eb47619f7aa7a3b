-- ===== src/Security/Base32/Tests.antt =====
-- Runs of the base32 encoder and decoder, and their round trip at a concrete text.
use onlyapi.Base.{
  All, List, [], tests_under, tests_under_lem, arith, if◌then◌else◌, leb, map, refl, true, ℕ, ◌&&◌,
  ◌-◌, ◌==◌, ◌∷◌, ◌≡◌, ap₂,
}
use onlyapi.Security.Base32.{
  base32_chars, base32_decode, base32_encode, char_of, decode_loop, drain, encode_loop, index_of,
  strip_padding, strip_step,
}
use onlyapi.Security.Base32.RoundTrip.{IsBase32, base32_decode-encode}

-- `toUpperCase` on the letters of ASCII.
abbrev upper_char : ℕ → ℕ
upper_char c = if leb 97 c && leb c 122 then c - 32 else c

abbrev ascii_upper : List ℕ → List ℕ
ascii_upper cs = map upper_char cs

-- "foobar"
abbrev foobar : List ℕ
foobar = 102 ∷ 111 ∷ 111 ∷ 98 ∷ 97 ∷ 114 ∷ []

-- "MZXW6YTBOI", the test vector of RFC 4648 without its padding.
foobar_encoded : base32_encode foobar ≡ (77 ∷ 90 ∷ 88 ∷ 87 ∷ 54 ∷ 89 ∷ 84 ∷ 66 ∷ 79 ∷ 73 ∷ [])
unfolding base32_encode encode_loop drain char_of
foobar_encoded = refl

-- "my" is decoded as "MY======" is.
lower_case_decodes : base32_decode ascii_upper (109 ∷ 121 ∷ 61 ∷ 61 ∷ []) ≡ (102 ∷ [])
unfolding base32_decode decode_loop strip_padding strip_step index_of
lower_case_decodes = refl

upper_table :
    tests_under (λ i. upper_char (char_of base32_chars i) == char_of base32_chars i) 32 ≡ true
unfolding tests_under char_of
upper_table = refl

upper_char-IsBase32 : (c : ℕ) → IsBase32 c → upper_char c ≡ c
upper_char-IsBase32 c (i, lt, e) =
    let p =
      tests_under_lem (λ j. upper_char (char_of base32_chars j) == char_of base32_chars j) i 32 lt
        upper_table in
    rw e (ground (arith, p))

ascii_upper-IsBase32 : (cs : List ℕ) → All IsBase32 cs → ascii_upper cs ≡ cs
ascii_upper-IsBase32 [] h = refl
ascii_upper-IsBase32 (c ∷ cs) (h, hs) =
    ap₂ (λ x xs. x ∷ xs) (upper_char-IsBase32 c h) (ascii_upper-IsBase32 cs hs)

base32_decode-encode_example : base32_decode ascii_upper (base32_encode foobar) ≡ foobar
base32_decode-encode_example =
    base32_decode-encode ascii_upper foobar
      (omega arith, (omega arith, (omega arith, (omega arith, (omega arith, (omega arith, tt))))))
      ascii_upper-IsBase32
