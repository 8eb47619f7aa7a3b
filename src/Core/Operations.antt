-- ===== src/Core/Operations.antt =====
-- An asynchronous operation of a port: it reads and changes the state of the system and returns a
-- result. `await`, and the pattern `if (!result.ok) return result`, which `◌>>=◌` follows.
use onlyapi.Core.Errors.{AppError}
use onlyapi.Core.Results.{Outcome, err, ok}

abbrev pub Op : Type 0 → Type 0 → Type 0
Op S A = S → Outcome A × S

infixl 5 ◌>>=◌ ◌>>◌
abbrev pub ◌>>=◌ : {S A B : Type 0} → Op S A → (A → Op S B) → Op S B
◌>>=◌ p f s = let (r, s') = p s in elim r [ err e ↦ (err e, s') | ok a ↦ f a s' ]

abbrev pub ◌>>◌ : {S A B : Type 0} → Op S A → Op S B → Op S B
p >> q = p >>= (λ _. q)

abbrev pub done : {S A : Type 0} → A → Op S A
done a s = (ok a, s)

abbrev pub fail : {S A : Type 0} → AppError → Op S A
fail e s = (err e, s)

-- A computation that does not touch the state.
abbrev pub lift : {S A : Type 0} → Outcome A → Op S A
lift r s = (r, s)

-- The result as it is, for code that looks at a failure or ignores it.
abbrev pub attempt : {S A : Type 0} → Op S A → Op S (Outcome A)
attempt p s = let (r, s') = p s in (ok r, s')
