-- ===== src/Base/Int.antt =====
-- The few signed integers that the program's counters need: `negsuc n` is -(n + 1).
use Prim.Native.Nat.{◌≤◌, ℕ, zero, suc}
use mathlib.Core.Bool.{Bool, false}
use onlyapi.Base.Tests.{leb}

pub data ℤ : Type 0 where
  pos : ℕ → ℤ
  negsuc : ℕ → ℤ

-- `z++` and `z--`.
abbrev pub increment : ℤ → ℤ
increment (pos n) = pos (suc n)
increment (negsuc zero) = pos 0
increment (negsuc (suc n)) = negsuc n

abbrev pub decrement : ℤ → ℤ
decrement (pos zero) = negsuc 0
decrement (pos (suc n)) = pos n
decrement (negsuc n) = negsuc (suc n)

-- `z >= n`.
abbrev pub at_least : ℤ → ℕ → Bool
at_least (pos m) n = leb n m
at_least (negsuc m) n = false

-- `z <= n`.
abbrev pub IsAtMost : ℤ → ℕ → Type 0
IsAtMost (pos m) n = m ≤ n
IsAtMost (negsuc m) n = Unit {0}
