-- ===== src/Security/PasswordPolicy/Rules.antt =====
-- The rules that the policy states, and that `validate` checks them, in order.
use onlyapi.Base.{
  Bool, List, [], any, arith, filter, length, ltb, not, true, ◌&&◌, ◌==◌, ◌↔◌, ◌∷◌, ◌≡◌, ◌≤◌,
}
use onlyapi.Base.{Bool}
use onlyapi.Core.Errors.{Violation, no_digit, no_lowercase, no_special, no_uppercase, too_short}
use onlyapi.Security.PasswordPolicy.{
  Password, PasswordPolicyConfig, is_digit, is_lower, is_special, is_upper, validate,
}

-- The password obeys every rule that the configuration asks for.
pub record Obeys (c : PasswordPolicyConfig) (password : Password) : Type 0 where
  pub long : c.min_length ≤ length password
  pub upper : c.require_uppercase ≡ true → any is_upper password ≡ true
  pub lower : c.require_lowercase ≡ true → any is_lower password ≡ true
  pub digit : c.require_digit ≡ true → any is_digit password ≡ true
  pub special : c.require_special ≡ true → any is_special password ≡ true

-- A rule that is broken says so.
pub breaks : PasswordPolicyConfig → Password → Violation → Bool
breaks c password (too_short n) = (n == c.min_length) && ltb (length password) n
breaks c password no_uppercase = c.require_uppercase && not (any is_upper password)
breaks c password no_lowercase = c.require_lowercase && not (any is_lower password)
breaks c password no_digit = c.require_digit && not (any is_digit password)
breaks c password no_special = c.require_special && not (any is_special password)

abbrev pub rules : PasswordPolicyConfig → List Violation
rules c = too_short c.min_length ∷ no_uppercase ∷ no_lowercase ∷ no_digit ∷ no_special ∷ []

-- The violations are the rules that the password breaks, each once and in order.
pub validate-violations :
    (c : PasswordPolicyConfig) (password : Password)
    → (validate c password).violations ≡ filter (breaks c password) (rules c)
unfolding validate breaks
validate-violations c password = ground arith

-- A password is valid exactly if it obeys every rule.
validate-Obeys :
    (c : PasswordPolicyConfig) (password : Password)
    → ((validate c password).valid ≡ true) ↔ Obeys c password
unfolding validate
validate-Obeys c password = (
  λ h. record {
    long = ground arith;
    upper = λ r. ground arith;
    lower = λ r. ground arith;
    digit = λ r. ground arith;
    special = λ r. ground arith;
  },
  λ o. ground (arith, o.long, o.upper, o.lower, o.digit, o.special),
)
