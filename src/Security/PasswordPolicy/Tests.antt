-- ===== src/Security/PasswordPolicy/Tests.antt =====
-- Runs of the policy. The texts are in code units.
use onlyapi.Base.{[], false, refl, true, ◌∷◌, ◌≡◌}
use onlyapi.Core.Errors.{no_uppercase, too_short}
use onlyapi.Security.PasswordPolicy.{Password, PasswordPolicyConfig, validate}

abbrev strict : PasswordPolicyConfig
strict = record {
  min_length = 8;
  require_uppercase = true;
  require_lowercase = true;
  require_digit = true;
  require_special = false;
  history_count = 2;
  max_age_days = 90;
}

-- "Secret12" and "abc1"
abbrev good : Password
good = 83 ∷ 101 ∷ 99 ∷ 114 ∷ 101 ∷ 116 ∷ 49 ∷ 50 ∷ []

abbrev weak : Password
weak = 97 ∷ 98 ∷ 99 ∷ 49 ∷ []

weak_violations :
    validate strict weak ≡ record { valid = false; violations = too_short 8 ∷ no_uppercase ∷ [] }
unfolding validate
weak_violations = refl
