-- ===== src/Security/Totp/Codes.antt =====
-- What a one-time code is compared with, and what the answer means.
use onlyapi.Base.{
  Bool, List, Option, arith, none, some, ℕ, ◌≡◌, ◌≢◌, ◌↔◌, ◌⊎◌, ◌∷◌, [], length, inl, inr, true,
  false, refl, bit_or-zero, bit_xor-zero, bit_or, bit_xor, Bool-cases, Option-cases, sym, ap, ◌∙◌,
  ◌==◌, subst, ◌*◌, ◌+◌, ◌%◌, All, ◌<◌, ◌^◌,
}
use onlyapi.Core.Errors.{app_error, internal}
use onlyapi.Core.Results.{Outcome, err, ok}
use onlyapi.Security.Totp.{
  mismatch, timing_safe_equal, counters, expected_code, is_code, try_counters, verify, are_digits,
  six_digits, int_to_bytes, dynamic_truncate, int_bytes,
}
use onlyapi.Security.Base32.{base32_decode}

-- Over two texts of one length the loop ends with 0 exactly when it began with 0 and the texts are
-- equal.
mismatch-zero :
    (a b : List ℕ) (result : ℕ)
    → length a ≡ length b
    → (mismatch a b result ≡ 0) ↔ ((result ≡ 0) × (a ≡ b))
unfolding mismatch
mismatch-zero [] [] result h = (λ p. (p, refl), λ (p, q). p)
mismatch-zero [] (b ∷ bs) result h = absurd (omega arith)
mismatch-zero (a ∷ as') [] result h = absurd (omega arith)
mismatch-zero (a ∷ as') (b ∷ bs) result h =
    let rest = mismatch-zero as' bs (bit_or result (bit_xor a b)) (omega arith) in
    let either = bit_or-zero result (bit_xor a b) in
    let same = bit_xor-zero a b in
    (
      λ p.
          let (zeros, tails) = rest.0 p in
          let (first, heads) = either.0 zeros in (first, rw (same.0 heads, tails) refl),
      λ (p, q). rest.1 (either.1 (p, same.1 (cc)), cc),
    )

-- The comparison accepts exactly equal texts.
pub timing_safe_equal-≡ : (a b : List ℕ) → (timing_safe_equal a b ≡ true) ↔ (a ≡ b)
unfolding timing_safe_equal
timing_safe_equal-≡ a b = elim (Bool-cases (length a == length b)) [
  | inl t ↦
      let loop = mismatch-zero a b 0 (ground arith) in
      rw t (λ h. (loop.0 (ground arith)).1, λ h. (let zeros = loop.1 (refl, h) in ground arith))
  | inr f ↦ rw f (λ h. absurd cc, λ h. absurd (ground arith))
]

-- A code that is expected is a text of six digits.
pub is_code-six_digits : (n : ℕ) → is_code (six_digits n) ≡ true
unfolding is_code are_digits six_digits
is_code-six_digits n = ground arith

-- A number from its bytes, the highest first.
pub from_bytes : List ℕ → ℕ → ℕ
from_bytes [] acc = acc
from_bytes (b ∷ bs) acc = from_bytes bs (acc * 256 + b)

-- The eight bytes of a number below 2 ^ 64 give it back.
pub from_bytes-int_to_bytes : (n : ℕ) → n < 2 ^ 64 → from_bytes (int_to_bytes n) 0 ≡ n
unfolding from_bytes int_to_bytes int_bytes
from_bytes-int_to_bytes n h = omega arith

module _ (hmac : List ℕ → List ℕ → Option (List ℕ)) (key code : List ℕ) where
  abbrev Throws : ℕ → Type 0
  Throws counter = hmac key (int_to_bytes counter) ≡ none

  abbrev Expects : ℕ → Type 0
  Expects counter = expected_code hmac key counter ≡ some code

  abbrev Differs : ℕ → Type 0
  Differs counter =
      (other : List ℕ) × (expected_code hmac key counter ≡ some other) × (other ≢ code)

  -- The codes before the counter that ends the loop are others.
  abbrev Reaches : List ℕ → (ℕ → Type 0) → Type 0
  Reaches [] P = ⊥
  Reaches (c ∷ cs) P = P c ⊎ (Differs c × Reaches cs P)

  -- What an answer says of the counters tried.
  abbrev Tried : List ℕ → Outcome Bool → Type 0
  Tried cs (ok true) = Reaches cs Expects
  Tried cs (ok false) = All Differs cs
  Tried cs (err e) = (e ≡ app_error internal "TOTP verification failed") × Reaches cs Throws

  Tried-later :
      (c : ℕ) (cs : List ℕ) (answer : Outcome Bool)
      → Differs c
      → Tried cs answer
      → Tried (c ∷ cs) answer
  Tried-later c cs (ok true) other h = inr (other, h)
  Tried-later c cs (ok false) other h = (other, h)
  Tried-later c cs (err e) other (message, h) = (message, inr (other, h))

  -- One round of the loop, by what is expected at its counter.
  try_expected :
      (c : ℕ) (cs expected : List ℕ)
      → expected_code hmac key c ≡ some expected
      → Tried cs (try_counters hmac key code cs)
      → Tried (c ∷ cs) (try_counters hmac key code (c ∷ cs))
  unfolding try_counters
  try_expected c cs expected e h = elim (Bool-cases (timing_safe_equal code expected)) [
    | inl t ↦
        let same = (timing_safe_equal-≡ code expected).0 t in
        let answer : try_counters hmac key code (c ∷ cs) ≡ ok true = rw (try_counters, e, t) refl in
        subst (Tried (c ∷ cs)) (sym answer) (inl (e ∙ ap some (sym same)))
    | inr f ↦
        let differ : expected ≢ code =
          λ p. (let t = (timing_safe_equal-≡ code expected).1 (sym p) in cc) in
        let rest = try_counters hmac key code cs in
        let answer : try_counters hmac key code (c ∷ cs) ≡ rest = rw (try_counters, e, f) refl in
        subst (Tried (c ∷ cs)) (sym answer) (Tried-later c cs rest (expected, e, differ) h)
  ]

  try_counters-Tried : (cs : List ℕ) → Tried cs (try_counters hmac key code cs)
  unfolding try_counters expected_code
  try_counters-Tried [] = tt
  try_counters-Tried (c ∷ cs) = elim (Option-cases (hmac key (int_to_bytes c))) [
    | inl e ↦
        let failure = app_error internal "TOTP verification failed" in
        let answer : try_counters hmac key code (c ∷ cs) ≡ err failure =
          rw (try_counters, expected_code, e) refl in
        subst (Tried (c ∷ cs)) (sym answer) (refl, inl e)
    | inr (digest, e) ↦
        let expected = six_digits (dynamic_truncate digest % 1000000) in
        try_expected c cs expected (rw (expected_code, e) refl) (try_counters-Tried cs)
  ]

-- What an answer of `verify` says of the code: the counters tried are one step apart and the secret
-- is decoded; a text that is not six digits is refused without a comparison.
abbrev pub Judges :
    (List ℕ → List ℕ → Option (List ℕ))
    → (List ℕ → List ℕ)
    → List ℕ
    → List ℕ
    → ℕ
    → Outcome Bool
    → Type 0
Judges hmac upper secret code now answer =
    ((is_code code ≡ true) × Tried hmac (base32_decode upper secret) code (counters now) answer)
    ⊎ ((is_code code ≡ false) × (answer ≡ ok false))

-- `verify` answers true exactly when the code has six digits and is the one expected at one of the
-- counters, those before it having other codes; it answers false when the code is none of the
-- expected ones or is not six digits; and it fails, with the code INTERNAL, only when the HMAC at
-- some counter throws, those before it having other codes.
pub verify-Judges :
    (hmac : List ℕ → List ℕ → Option (List ℕ)) (upper : List ℕ → List ℕ) (secret code : List ℕ)
    (now : ℕ)
    → Judges hmac upper secret code now (verify hmac upper secret code now)
unfolding verify
verify-Judges hmac upper secret code now = elim (Bool-cases (is_code code)) [
  | inl t ↦ inl (t, rw t (try_counters-Tried hmac (base32_decode upper secret) code (counters now)))
  | inr f ↦ inr (f, rw f refl)
]
