-- ===== src/Security/Totp.antt =====
-- src/infrastructure/security/totp-service.ts, but for the secrets that the run time draws. Texts are
-- lists of code units, and the clock reads milliseconds, `now`. The HMAC of a key and a message is
-- what Bun.CryptoHasher computes; it may throw, `none`.
pub mod Codes
mod Tests
use onlyapi.Base.{
  Bool, List, Option, [], bit_or, bit_xor, false, if◌then◌else◌, leb, length, ltb, none, some, suc,
  true, zero, ℕ, ◌%◌, ◌&&◌, ◌*◌, ◌+◌, ◌++◌, ◌-◌, ◌/◌, ◌==◌, ◌^◌, ◌∷◌,
}
use onlyapi.Core.Errors.{app_error, internal}
use onlyapi.Core.Results.{Outcome, err, ok}
use onlyapi.Security.Base32.{base32_decode}

-- The loop over eight bytes, the last one first.
pub int_bytes : ℕ → ℕ → List ℕ → List ℕ
int_bytes zero n bytes = bytes
int_bytes (suc k) n bytes = int_bytes k (n / 256) ((n % 256) ∷ bytes)

pub int_to_bytes : ℕ → List ℕ
unfolding int_bytes
int_to_bytes n = int_bytes 8 n []

-- A byte of the buffer; past its end, `undefined`, which the masks turn to 0.
pub byte_at : List ℕ → ℕ → ℕ
byte_at [] i = 0
byte_at (b ∷ bs) zero = b
byte_at (b ∷ bs) (suc i) = byte_at bs i

-- The four parts are at different bits, so `|` is `+`.
pub dynamic_truncate : List ℕ → ℕ
unfolding byte_at
dynamic_truncate hmac =
    let offset = byte_at hmac (length hmac - 1) % 16 in
    byte_at hmac offset % 128 * 2 ^ 24
    + byte_at hmac (offset + 1) % 256 * 2 ^ 16
    + byte_at hmac (offset + 2) % 256 * 2 ^ 8
    + byte_at hmac (offset + 3) % 256

-- `toString()` of a number below a million, padded to six digits.
pub six_digits : ℕ → List ℕ
six_digits n =
    (48 + n / 100000 % 10)
    ∷ (48 + n / 10000 % 10)
    ∷ (48 + n / 1000 % 10)
    ∷ (48 + n / 100 % 10)
    ∷ (48 + n / 10 % 10)
    ∷ (48 + n % 10)
    ∷ []

-- The loop of timingSafeEqual over two texts of one length.
pub mismatch : List ℕ → List ℕ → ℕ → ℕ
mismatch [] bs result = result
mismatch (a ∷ as') [] result = result
mismatch (a ∷ as') (b ∷ bs) result = mismatch as' bs (bit_or result (bit_xor a b))

pub timing_safe_equal : List ℕ → List ℕ → Bool
unfolding mismatch
timing_safe_equal a b = if length a == length b then mismatch a b 0 == 0 else false

-- `/^\d{6}$/`
pub are_digits : List ℕ → Bool
are_digits [] = true
are_digits (c ∷ cs) = (leb 48 c && leb c 57) && are_digits cs

pub is_code : List ℕ → Bool
unfolding are_digits
is_code code = length code == 6 && are_digits code

-- The counters tried: the one before, which is -1 in the first half minute of 1970, the current one
-- and the next. The bytes of -1 are those of 2 ^ 64 - 1.
pub counters : ℕ → List ℕ
counters now =
    let current = now / 1000 / 30 in
    (if current == 0 then 2 ^ 64 - 1 else current - 1) ∷ current ∷ (current + 1) ∷ []

module _ (hmac : List ℕ → List ℕ → Option (List ℕ)) where
  -- The code that is expected at a counter.
  pub expected_code : List ℕ → ℕ → Option (List ℕ)
  unfolding int_to_bytes dynamic_truncate six_digits
  expected_code key counter = elim (hmac key (int_to_bytes counter)) [
    | none ↦ none
    | some digest ↦ some (six_digits (dynamic_truncate digest % 1000000))
  ]

  -- The loop over the counters.
  pub try_counters : List ℕ → List ℕ → List ℕ → Outcome Bool
  unfolding expected_code timing_safe_equal
  try_counters key code [] = ok false
  try_counters key code (counter ∷ rest) = elim (expected_code key counter) [
    | none ↦ err (app_error internal "TOTP verification failed")
    | some expected ↦
        if timing_safe_equal code expected then ok true else try_counters key code rest
  ]

  pub verify : (List ℕ → List ℕ) → List ℕ → List ℕ → ℕ → Outcome Bool
  unfolding is_code counters try_counters
  verify upper secret code now =
      if is_code code
      then try_counters (base32_decode upper secret) code (counters now)
      else ok false
