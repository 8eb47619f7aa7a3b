-- ===== src/Security/Base32/RoundTrip.antt =====
-- What was encoded decodes to itself.
use onlyapi.Base.{
  refl, All, Bool, List, tests_under, tests_under_lem, ap, arith, false, if◌then◌else◌, leb, none,
  refl, some, true, ℕ, ◌%◌, ◌*◌, ◌+◌, ◌-◌, ◌/◌, ◌<◌, ◌==◌, ◌^◌, ◌∙◌, ◌∷◌, ◌≡◌, [], All-append,
  Bool-cases, ap₂, inl, inr, ltb, not, suc, zero,
}
use onlyapi.Security.Base32.{
  base32_chars, char_of, decode_loop, drain, encode_loop, index_of, base32_decode, base32_encode,
  strip_padding, strip_step,
}

abbrev pub AreBytes : List ℕ → Type 0
AreBytes bs = All (λ b. b < 256) bs

abbrev is_found : ℕ → Bool
is_found i = elim (index_of base32_chars 0 (char_of base32_chars i)) [
  | none ↦ false
  | some j ↦ j == i
]

found_table : tests_under is_found 32 ≡ true
unfolding tests_under index_of char_of
found_table = refl

-- The index of a character of the alphabet is where it stands.
index_of-char_of : (i : ℕ) → i < 32 → index_of base32_chars 0 (char_of base32_chars i) ≡ some i
index_of-char_of i h = ground (arith, tests_under_lem is_found i 32 h found_table)

-- One round of the decoder on a character of the alphabet.
decode_char :
    (i value bits : ℕ) (chars : List ℕ)
    → i < 32
    → let value' = (value * 32 + i) % 2 ^ 32 in
      decode_loop (char_of base32_chars i ∷ chars) value bits ≡ (
        if leb 8 (bits + 5)
        then (value' / 2 ^ (bits - 3) % 256) ∷ decode_loop chars value' (bits - 3)
        else decode_loop chars value' (bits + 5))
unfolding decode_loop
decode_char i value bits chars h = rw (index_of-char_of i h, decode_loop)

-- Between two bytes the encoder holds `e` bits of the last one and the decoder the `d` before them:
-- none, or eight together.
Resumes : List ℕ → ℕ → ℕ → Type 0
Resumes bs e d =
    (v w : ℕ) → decode_loop (encode_loop bs v e) w d ≡ ((w % 2 ^ d * 2 ^ e + v % 2 ^ e) ∷ bs)

Starts : List ℕ → Type 0
Starts bs = (v w : ℕ) → decode_loop (encode_loop bs v 0) w 0 ≡ bs

start_3 : (b : ℕ) (bs : List ℕ) → b < 256 → Resumes bs 3 5 → Starts (b ∷ bs)
unfolding Starts Resumes encode_loop drain
start_3 b bs h ih v w =
    let v' = (v * 256 + b) % 2 ^ 32 in
    let i = v' / 8 % 32 in
    decode_char i w 0 (encode_loop bs v' 3) (omega arith)
    ∙ ih v' ((w * 32 + i) % 2 ^ 32)
    ∙ ap (λ x. x ∷ bs) (omega arith)

resume_3 : (b : ℕ) (bs : List ℕ) → b < 256 → Resumes bs 1 7 → Resumes (b ∷ bs) 3 5
unfolding Resumes encode_loop drain
resume_3 b bs h ih v w =
    let v' = (v * 256 + b) % 2 ^ 32 in
    let i = v' / 64 % 32 in
    let j = v' / 2 % 32 in
    let w1 = (w * 32 + i) % 2 ^ 32 in
    decode_char i w 5 (char_of base32_chars j ∷ encode_loop bs v' 1) (omega arith)
    ∙ ap (λ x. (w1 / 2 ^ 2 % 256) ∷ x)
        (decode_char j w1 2 (encode_loop bs v' 1) (omega arith) ∙ ih v' ((w1 * 32 + j) % 2 ^ 32))
    ∙ ap₂ (λ x y. x ∷ y ∷ bs) (omega arith) (omega arith)

resume_1 : (b : ℕ) (bs : List ℕ) → b < 256 → Resumes bs 4 4 → Resumes (b ∷ bs) 1 7
unfolding Resumes encode_loop drain
resume_1 b bs h ih v w =
    let v' = (v * 256 + b) % 2 ^ 32 in
    let i = v' / 16 % 32 in
    let w1 = (w * 32 + i) % 2 ^ 32 in
    decode_char i w 7 (encode_loop bs v' 4) (omega arith)
    ∙ ap (λ x. (w1 / 2 ^ 4 % 256) ∷ x) (ih v' w1)
    ∙ ap₂ (λ x y. x ∷ y ∷ bs) (omega arith) (omega arith)

resume_4 : (b : ℕ) (bs : List ℕ) → b < 256 → Resumes bs 2 6 → Resumes (b ∷ bs) 4 4
unfolding Resumes encode_loop drain
resume_4 b bs h ih v w =
    let v' = (v * 256 + b) % 2 ^ 32 in
    let i = v' / 128 % 32 in
    let j = v' / 4 % 32 in
    let w1 = (w * 32 + i) % 2 ^ 32 in
    decode_char i w 4 (char_of base32_chars j ∷ encode_loop bs v' 2) (omega arith)
    ∙ ap (λ x. (w1 / 2 ^ 1 % 256) ∷ x)
        (decode_char j w1 1 (encode_loop bs v' 2) (omega arith) ∙ ih v' ((w1 * 32 + j) % 2 ^ 32))
    ∙ ap₂ (λ x y. x ∷ y ∷ bs) (omega arith) (omega arith)

resume_2 : (b : ℕ) (bs : List ℕ) → b < 256 → Starts bs → Resumes (b ∷ bs) 2 6
unfolding Starts Resumes encode_loop drain
resume_2 b bs h ih v w =
    let v' = (v * 256 + b) % 2 ^ 32 in
    let i = v' / 32 % 32 in
    let j = v' / 1 % 32 in
    let w1 = (w * 32 + i) % 2 ^ 32 in
    let w2 = (w1 * 32 + j) % 2 ^ 32 in
    decode_char i w 6 (char_of base32_chars j ∷ encode_loop bs v' 0) (omega arith)
    ∙ ap (λ x. (w1 / 2 ^ 3 % 256) ∷ x)
        (decode_char j w1 3 (encode_loop bs v' 0) (omega arith)
          ∙ ap (λ x. (w2 / 2 ^ 0 % 256) ∷ x) (ih v' w2))
    ∙ ap₂ (λ x y. x ∷ y ∷ bs) (omega arith) (omega arith)

-- At the end the encoder fills its last character with zeros.
Ends : (e d : ℕ) (v w : ℕ) → Type 0
Ends e d v w = decode_loop (encode_loop [] v e) w d ≡ ((w % 2 ^ d * 2 ^ e + v % 2 ^ e) ∷ [])

end_3 : (v w : ℕ) → Ends 3 5 v w
unfolding Ends encode_loop decode_loop
end_3 v w = decode_char (v * 4 % 32) w 5 [] (omega arith) ∙ ap (λ x. x ∷ []) (omega arith)

end_1 : (v w : ℕ) → Ends 1 7 v w
unfolding Ends encode_loop decode_loop
end_1 v w = decode_char (v * 16 % 32) w 7 [] (omega arith) ∙ ap (λ x. x ∷ []) (omega arith)

end_4 : (v w : ℕ) → Ends 4 4 v w
unfolding Ends encode_loop decode_loop
end_4 v w = decode_char (v * 2 % 32) w 4 [] (omega arith) ∙ ap (λ x. x ∷ []) (omega arith)

end_2 : (v w : ℕ) → Ends 2 6 v w
unfolding Ends encode_loop decode_loop
end_2 v w = decode_char (v * 8 % 32) w 6 [] (omega arith) ∙ ap (λ x. x ∷ []) (omega arith)

decode_loop-encode_loop :
    (bs : List ℕ)
    → AreBytes bs
    → Starts bs × Resumes bs 3 5 × Resumes bs 1 7 × Resumes bs 4 4 × Resumes bs 2 6
unfolding Starts Resumes Ends encode_loop decode_loop
decode_loop-encode_loop [] h = (λ v w. refl, end_3, end_1, end_4, end_2)
decode_loop-encode_loop (b ∷ bs) (h, hs) =
    let (z, r3, r1, r4, r2) = decode_loop-encode_loop bs hs in
    (
      start_3 b bs h r3,
      resume_3 b bs h r1,
      resume_1 b bs h r4,
      resume_4 b bs h r2,
      resume_2 b bs h z,
    )

-- The characters of an encoded text.
abbrev pub IsBase32 : ℕ → Type 0
IsBase32 c = (i : ℕ) × (i < 32) × (c ≡ char_of base32_chars i)

drain-IsBase32 : (rounds value bits : ℕ) → All IsBase32 (drain rounds value bits).0
unfolding drain
drain-IsBase32 zero value bits = tt
drain-IsBase32 (suc rounds) value bits = elim (Bool-cases (leb 5 bits)) [
  | inl t ↦
      rw t
        ((value / 2 ^ (bits - 5) % 32, omega arith, refl), drain-IsBase32 rounds value (bits - 5))
  | inr f ↦ rw f tt
]

encode_loop-IsBase32 : (bs : List ℕ) (value bits : ℕ) → All IsBase32 (encode_loop bs value bits)
unfolding encode_loop
encode_loop-IsBase32 [] value bits = elim (Bool-cases (ltb 0 bits)) [
  | inl t ↦ rw t ((value * 2 ^ (5 - bits) % 32, omega arith, refl), tt)
  | inr f ↦ rw f tt
]
encode_loop-IsBase32 (b ∷ bs) value bits =
    let value' = (value * 256 + b) % 2 ^ 32 in
    All-append IsBase32 _ _ (drain-IsBase32 (bits + 8) value' (bits + 8))
      (encode_loop-IsBase32 bs value' (drain (bits + 8) value' (bits + 8)).1)

abbrev is_padding : ℕ → Bool
is_padding i = char_of base32_chars i == 61

no_padding_table : tests_under (λ i. not (is_padding i)) 32 ≡ true
unfolding tests_under char_of
no_padding_table = refl

-- No character of an encoded text is padding.
strip_padding-IsBase32 : (cs : List ℕ) → All IsBase32 cs → strip_padding cs ≡ cs
unfolding strip_padding strip_step
strip_padding-IsBase32 [] h = refl
strip_padding-IsBase32 (c ∷ []) ((i, lt, e), hs) =
    ground (arith, tests_under_lem (λ i. not (is_padding i)) i 32 lt no_padding_table)
strip_padding-IsBase32 (c ∷ d ∷ cs) ((i, lt, e), hs) = rw (strip_padding-IsBase32 (d ∷ cs) hs)

-- Bytes that are encoded decode to themselves, where `upper` leaves the alphabet as it is.
pub base32_decode-encode :
    (upper : List ℕ → List ℕ) (bs : List ℕ)
    → AreBytes bs
    → ((cs : List ℕ) → All IsBase32 cs → upper cs ≡ cs)
    → base32_decode upper (base32_encode bs) ≡ bs
unfolding base32_encode base32_decode
base32_decode-encode upper bs h fixes =
    let chars = encode_loop-IsBase32 bs 0 0 in
    rw (strip_padding-IsBase32 (encode_loop bs 0 0) chars, fixes (encode_loop bs 0 0) chars)
      (unfold Starts in (decode_loop-encode_loop bs h).0 0 0)
