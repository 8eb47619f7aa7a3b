-- ===== src/Security/Totp/Tests.antt =====
-- Runs of the one-time codes, and their theorems at a concrete key.
use onlyapi.Base.{if◌then◌else◌, ◌==◌, List, Option, none, refl, some, true, ℕ, ◌≡◌, ◌∷◌, [], false}
use onlyapi.Core.Errors.{app_error, internal}
use onlyapi.Core.Results.{err, ok}
use onlyapi.Security.Totp.{
  are_digits, byte_at, counters, dynamic_truncate, expected_code, int_bytes, int_to_bytes, is_code,
  mismatch, six_digits, timing_safe_equal, try_counters, verify,
}
use onlyapi.Security.Totp.Codes.{Judges, verify-Judges}

-- The digest of the example of RFC 4226, section 5.4.
abbrev rfc_digest : List ℕ
rfc_digest =
    31 ∷ 134 ∷ 152 ∷ 105 ∷ 14 ∷ 2 ∷ 202 ∷ 22 ∷ 97 ∷ 133 ∷ 80 ∷ 239 ∷ 127 ∷ 25 ∷ 218 ∷ 142 ∷ 148 ∷ 91
    ∷ 85 ∷ 90 ∷ []

-- "872921"
abbrev rfc_code : List ℕ
rfc_code = 56 ∷ 55 ∷ 50 ∷ 57 ∷ 50 ∷ 49 ∷ []

abbrev upper : List ℕ → List ℕ
upper cs = cs

-- An HMAC that computes one digest where the message ends with 2 and throws at others.
abbrev one_digest : List ℕ → List ℕ → Option (List ℕ)
one_digest key message = if byte_at message 7 == 2 then some rfc_digest else none

-- "MY"
abbrev secret : List ℕ
secret = 77 ∷ 89 ∷ []

rfc_vector : six_digits (dynamic_truncate rfc_digest) ≡ rfc_code
unfolding dynamic_truncate byte_at six_digits
rfc_vector = refl

code_accepted : verify one_digest upper secret rfc_code 90000 ≡ ok true
unfolding verify is_code are_digits try_counters expected_code int_to_bytes int_bytes
    dynamic_truncate byte_at six_digits timing_safe_equal mismatch counters
code_accepted = refl

hmac_throws :
    verify one_digest upper secret rfc_code 30000
    ≡ err (app_error internal "TOTP verification failed")
unfolding verify is_code are_digits try_counters expected_code int_to_bytes int_bytes byte_at
    counters
hmac_throws = refl

letters_refused : verify one_digest upper secret (65 ∷ []) 90000 ≡ ok false
unfolding verify is_code are_digits
letters_refused = refl

verify-Judges_example :
    Judges one_digest upper secret rfc_code 90000 (verify one_digest upper secret rfc_code 90000)
verify-Judges_example = verify-Judges one_digest upper secret rfc_code 90000
