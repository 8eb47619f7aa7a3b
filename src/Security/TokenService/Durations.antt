-- ===== src/Security/TokenService/Durations.antt =====
-- The durations that parseDuration reads.
use onlyapi.Base.{
  ap₂, All, Bool-cases, List, [], absent_some, ap, arith, inl, inr, length, map, refl, some,
  some_inj, sym, ℕ, ◌*◌, ◌+◌, ◌++◌, ◌-◌, ◌<◌, ◌==◌, ◌≡◌, ◌∙◌, ◌∷◌, ◌↔◌, leb, false, true, ◌&&◌,
  bind_some,
}
use onlyapi.Security.TokenService.{multiplier, parse_digits, parse_duration, parse_unit}

-- Decimal digits, and their number after `value`.
abbrev pub AreDigits : List ℕ → Type 0
AreDigits ds = All (λ d. d < 10) ds

abbrev pub digit_chars : List ℕ → List ℕ
digit_chars ds = map (λ d. 48 + d) ds

abbrev pub value_from : ℕ → List ℕ → ℕ
value_from value [] = value
value_from value (d ∷ ds) = value_from (value * 10 + d) ds

multiplier_letter : (c m : ℕ) → multiplier c ≡ some m → (leb 48 c && leb c 57) ≡ false
unfolding multiplier
multiplier_letter c m h = ground arith

parse_digits_complete :
    (ds : List ℕ) (value digits c m : ℕ)
    → AreDigits ds
    → 0 < digits + length ds
    → multiplier c ≡ some m
    → parse_digits value digits (digit_chars ds ++ c ∷ []) ≡ some (value_from value ds * m)
unfolding parse_digits parse_unit
parse_digits_complete [] value digits c m h lt e =
    let letter = multiplier_letter c m e in
    let read : (digits == 0) ≡ false = ground arith in
    rw (parse_digits, letter, read, parse_unit, e) refl
parse_digits_complete (d ∷ ds) value digits c m (h, hs) lt e =
    let is_digit : (leb 48 (48 + d) && leb (48 + d) 57) ≡ true = ground arith in
    let rest = parse_digits_complete ds (value * 10 + d) (digits + 1) c m hs (omega arith) e in
    let same : 48 + d - 48 ≡ d = omega arith in rw (is_digit, same) rest

-- What is read from where `value` and `digits` digits are.
abbrev ReadsFrom : ℕ → ℕ → List ℕ → ℕ → Type 0
ReadsFrom value digits cs seconds =
    (ds : List ℕ) × (c : ℕ) × (m : ℕ) × AreDigits ds
    × (0 < digits + length ds)
    × (multiplier c ≡ some m)
    × (cs ≡ digit_chars ds ++ c ∷ [])
    × (seconds ≡ value_from value ds * m)

parse_unit_sound :
    (value digits seconds : ℕ) (cs : List ℕ)
    → 0 < digits
    → parse_unit value cs ≡ some seconds
    → ReadsFrom value digits cs seconds
unfolding parse_unit
parse_unit_sound value digits seconds [] lt h = absurd cc
parse_unit_sound value digits seconds (c ∷ []) lt h =
    let (m, e, h') = bind_some (multiplier c) (λ m. some (value * m)) h in
    ([], c, m, tt, omega arith, e, refl, sym (some_inj h'))
parse_unit_sound value digits seconds (c ∷ d ∷ cs) lt h = absurd cc

parse_digits_sound :
    (cs : List ℕ) (value digits seconds : ℕ)
    → parse_digits value digits cs ≡ some seconds
    → ReadsFrom value digits cs seconds
unfolding parse_digits
parse_digits_sound [] value digits seconds h = absurd cc
parse_digits_sound (c ∷ cs) value digits seconds h = elim (Bool-cases (leb 48 c && leb c 57)) [
  | inl t ↦
      let next : parse_digits (value * 10 + (c - 48)) (digits + 1) cs ≡ some seconds =
        sym (rw (parse_digits, t) refl) ∙ h in
      let (ds, u, m, digits', lt, e, text, v) =
        parse_digits_sound cs (value * 10 + (c - 48)) (digits + 1) seconds next in
      let digit : c ≡ 48 + (c - 48) = ground arith in
      (
        (c - 48) ∷ ds,
        u,
        m,
        (ground arith, digits'),
        omega arith,
        e,
        ap₂ (λ x xs. x ∷ xs) digit text,
        v,
      )
  | inr f ↦ elim (Bool-cases (digits == 0)) [
    | inl z ↦ absurd (absent_some (sym h ∙ rw (parse_digits, f, z) refl))
    | inr n ↦
        parse_unit_sound value digits seconds (c ∷ cs) (ground arith)
          (sym (rw (parse_digits, f, n) refl) ∙ h)
  ]
]

-- parseDuration returns a number of seconds exactly when the text is one decimal digit or more and a
-- unit, and then it is the number that the digits spell times the seconds of the unit; it throws
-- otherwise.
parse_duration-reads :
    (text : List ℕ) (seconds : ℕ)
    → (parse_duration text ≡ some seconds) ↔ (
        (ds : List ℕ) × (c : ℕ) × (m : ℕ) × AreDigits ds
        × (0 < length ds)
        × (multiplier c ≡ some m)
        × (text ≡ digit_chars ds ++ c ∷ [])
        × (seconds ≡ value_from 0 ds * m))
unfolding parse_duration
parse_duration-reads text seconds = (
  λ read.
      let (ds, c, m, h, lt, e, t, v) = parse_digits_sound text 0 0 seconds read in
      (ds, c, m, h, omega arith, e, t, v),
  λ (ds, c, m, h, lt, e, t, v).
      ap parse_duration t ∙ parse_digits_complete ds 0 0 c m h (omega arith) e ∙ ap some (sym v),
)
