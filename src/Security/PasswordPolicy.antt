-- ===== src/Security/PasswordPolicy.antt =====
-- src/infrastructure/security/password-policy.ts, and the data of src/core/ports/password-policy.ts.
-- A password is the list of its UTF-16 code units, which is what `length` counts.
pub mod Rules
pub mod History
mod Tests
use onlyapi.Base.{
  Bool, List, Option, String, [], any, false, if◌then◌else◌, leb, length, ltb, none, not, some,
  true, ℕ, ◌&&◌, ◌*◌, ◌+◌, ◌++◌, ◌-◌, ◌==◌, ◌∷◌, ◌||◌,
}
use onlyapi.Core.Errors.{Violation, no_digit, no_lowercase, no_special, no_uppercase, too_short}
use onlyapi.Core.Results.{Outcome, err, ok}

pub record PasswordPolicyConfig : Type 0 where
  pub min_length : ℕ
  pub require_uppercase : Bool
  pub require_lowercase : Bool
  pub require_digit : Bool
  pub require_special : Bool
  pub history_count : ℕ
  pub max_age_days : ℕ

pub record PasswordPolicyResult : Type 0 where
  pub valid : Bool
  pub violations : List Violation

abbrev pub Password : Type 0
Password = List ℕ

-- `/[A-Z]/`, `/[a-z]/` and `/\d/`
abbrev pub is_upper : ℕ → Bool
is_upper c = leb 65 c && leb c 90

abbrev pub is_lower : ℕ → Bool
is_lower c = leb 97 c && leb c 122

abbrev pub is_digit : ℕ → Bool
is_digit c = leb 48 c && leb c 57

-- `SPECIAL_CHARS`: all signs of ASCII but the space, the backtick and the tilde.
abbrev pub is_special : ℕ → Bool
is_special c =
    (leb 33 c && leb c 47)
    || (leb 58 c && leb c 64)
    || (leb 91 c && leb c 95)
    || (leb 123 c && leb c 125)

-- `if (broken) violations.push(v)`
abbrev pub push_if : Bool → Violation → List Violation → List Violation
push_if broken v vs = if broken then vs ++ (v ∷ []) else vs

pub validate : PasswordPolicyConfig → Password → PasswordPolicyResult
validate c password =
    let v1 = push_if (ltb (length password) c.min_length) (too_short c.min_length) [] in
    let v2 = push_if (c.require_uppercase && not (any is_upper password)) no_uppercase v1 in
    let v3 = push_if (c.require_lowercase && not (any is_lower password)) no_lowercase v2 in
    let v4 = push_if (c.require_digit && not (any is_digit password)) no_digit v3 in
    let v5 = push_if (c.require_special && not (any is_special password)) no_special v4 in
    record { valid = length v5 == 0; violations = v5 }

-- The loop over the recent hashes; `verify` is the hasher's.
pub history_loop {ℓ} : {Hash : Type ℓ} → (Hash → Outcome Bool) → List Hash → Outcome Bool
history_loop verify [] = ok false
history_loop verify (old_hash ∷ hashes) = elim (verify old_hash) [
  | err e ↦ err e
  | ok true ↦ ok true
  | ok false ↦ history_loop verify hashes
]

-- `get_recent n` are the last `n` hashes of the user, and `verify` is the hasher's at the password.
pub check_history {ℓ} :
    {Hash : Type ℓ}
    → PasswordPolicyConfig
    → (Hash → Outcome Bool)
    → (ℕ → Outcome (List Hash))
    → Outcome Bool
unfolding history_loop
check_history c verify get_recent =
    if c.history_count == 0 then ok false else elim (get_recent c.history_count) [
      | err e ↦ err e
      | ok hashes ↦ history_loop verify hashes
    ]

-- `Date.now() - passwordChangedAt > maxAgeMs`
unfoldable pub is_expired : PasswordPolicyConfig → Option ℕ → ℕ → Bool
is_expired c password_changed_at now =
    if c.max_age_days == 0 then false else elim password_changed_at [
      | none ↦ false
      | some t ↦ ltb (t + c.max_age_days * 24 * 60 * 60 * 1000) now
    ]
