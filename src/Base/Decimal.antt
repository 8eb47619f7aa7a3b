-- ===== src/Base/Decimal.antt =====
-- A number as decimal digits, as a template string shows it.
use Prim.Native.Nat.{ℕ, zero, suc, ◌/◌, ◌%◌}
use Prim.Native.String.{String, ◌++◌}
use mathlib.Core.List.{List, [], ◌∷◌}
use onlyapi.Base.Tests.{if◌then◌else◌, ltb}

pick : ℕ → List String → String
pick n [] = ""
pick zero (x ∷ xs) = x
pick (suc n) (x ∷ xs) = pick n xs

digit : ℕ → String
unfolding pick
digit n = pick n ("0" ∷ "1" ∷ "2" ∷ "3" ∷ "4" ∷ "5" ∷ "6" ∷ "7" ∷ "8" ∷ "9" ∷ [])

-- A number has fewer digits than its value and one.
digits : ℕ → ℕ → String
unfolding digit
digits zero n = ""
digits (suc fuel) n =
    let rest = digits fuel (n / 10) in if ltb n 10 then digit n else rest ++ digit (n % 10)

pub decimal : ℕ → String
unfolding digits
decimal n = digits (suc n) n
