-- ===== src/Base/Ranges.antt =====
-- Tables: what a Boolean test says of the numbers under a bound, by evaluation.
use Prim.Native.Nat.{ℕ, zero, suc, ◌<◌}
use mathlib.Core.Path.{◌≡◌}
use mathlib.Core.Bool.{Bool, true, false}
use native.Mathlib.Omega.{arith}
use onlyapi.Base.Tests.{if◌then◌else◌}

module _ (test : ℕ → Bool) where
  unfoldable pub tests_under : ℕ → Bool
  tests_under zero = true
  tests_under (suc bound) = let rest = tests_under bound in if test bound then rest else false

  -- A number under the bound of a table passes its test.
  pub tests_under_lem : (i bound : ℕ) → i < bound → tests_under bound ≡ true → test i ≡ true
  unfolding tests_under
  tests_under_lem i zero under table = absurd (omega arith)
  tests_under_lem i (suc bound) under table = ground (arith, tests_under_lem i bound)
