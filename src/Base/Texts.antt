-- ===== src/Base/Texts.antt =====
-- Texts as lists of code units: `split` by a character, and the parts joined again.
use Prim.Native.Nat.{ℕ, zero, suc}
use Prim.Native.Char.{code}
use Prim.Native.String.{String}
use mathlib.Core.Path.{◌≡◌, refl, ap, ◌∙◌}
use mathlib.Core.Bool.{Bool, true, false}
use mathlib.Core.Logic.{◌≢◌, inl, inr}
use mathlib.Core.List.{List, [], ◌∷◌, ◌++◌}
use native.Mathlib.Omega.{arith}
use onlyapi.Base.Lists.{All}
use onlyapi.Base.Tests.{Bool-cases, if◌then◌else◌, ◌==◌}

-- The code units of an ASCII text.
abbrev pub codes : String → List ℕ
codes String.[] = []
codes (String.◌∷◌ c s) = code c ∷ codes s

-- `===` of two texts.
unfoldable pub text_eq : List ℕ → List ℕ → Bool
text_eq [] [] = true
text_eq [] (b ∷ bs) = false
text_eq (a ∷ as') [] = false
text_eq (a ∷ as') (b ∷ bs) = if a == b then text_eq as' bs else false

pub text_eq-≡ : (a b : List ℕ) → text_eq a b ≡ true → a ≡ b
unfolding text_eq
text_eq-≡ [] [] h = refl
text_eq-≡ [] (b ∷ bs) h = absurd cc
text_eq-≡ (a ∷ as') [] h = absurd cc
text_eq-≡ (a ∷ as') (b ∷ bs) h = ground (arith, text_eq-≡ as' bs)

-- `startsWith`
unfoldable pub starts_with : List ℕ → List ℕ → Bool
starts_with [] cs = true
starts_with (p ∷ ps) [] = false
starts_with (p ∷ ps) (c ∷ cs) = if p == c then starts_with ps cs else false

-- `substring`
unfoldable pub substring : ℕ → List ℕ → List ℕ
substring zero cs = cs
substring (suc n) [] = []
substring (suc n) (c ∷ cs) = substring n cs

-- A character in front of the first part.
unfoldable pub prepend : ℕ → List (List ℕ) → List (List ℕ)
prepend c [] = (c ∷ []) ∷ []
prepend c (p ∷ ps) = (c ∷ p) ∷ ps

-- `text.split(sep)`
unfoldable pub split : ℕ → List ℕ → List (List ℕ)
unfolding prepend
split sep [] = [] ∷ []
split sep (c ∷ cs) = if c == sep then [] ∷ split sep cs else prepend c (split sep cs)

-- `parts.join(sep)`
unfoldable pub join : ℕ → List (List ℕ) → List ℕ
join sep [] = []
join sep (p ∷ []) = p
join sep (p ∷ q ∷ ps) = p ++ sep ∷ join sep (q ∷ ps)

module _ (sep : ℕ) where
  -- The separator does not stand in the text.
  abbrev pub IsPart : List ℕ → Type 0
  IsPart cs = All (λ c. c ≢ sep) cs

  pub split-part :
      (part rest : List ℕ) → IsPart part → split sep (part ++ sep ∷ rest) ≡ part ∷ split sep rest
  unfolding split prepend
  split-part [] rest h = ground arith
  split-part (c ∷ cs) rest (h, hs) =
      let f : (c == sep) ≡ false = ground arith in rw (f, split-part cs rest hs) refl

  pub split_last : (part : List ℕ) → IsPart part → split sep part ≡ part ∷ []
  unfolding split prepend
  split_last [] h = refl
  split_last (c ∷ cs) (h, hs) =
      let f : (c == sep) ≡ false = ground arith in rw (f, split_last cs hs) refl

  join-prepend : (c : ℕ) (ps : List (List ℕ)) → join sep (prepend c ps) ≡ c ∷ join sep ps
  unfolding join prepend
  join-prepend c [] = refl
  join-prepend c (p ∷ []) = refl
  join-prepend c (p ∷ q ∷ ps) = refl

  first_sep :
      (c : ℕ) (ps : List (List ℕ)) → join sep ([] ∷ prepend c ps) ≡ sep ∷ join sep (prepend c ps)
  unfolding join prepend
  first_sep c [] = refl
  first_sep c (p ∷ ps) = refl

  -- A separator in front of the parts of a text, which are one at least.
  join-split_sep : (cs : List ℕ) → join sep ([] ∷ split sep cs) ≡ sep ∷ join sep (split sep cs)
  unfolding join split
  join-split_sep [] = refl
  join-split_sep (c ∷ cs) = elim (Bool-cases (c == sep)) [
    | inl t ↦ rw t refl
    | inr f ↦ rw f (first_sep c (split sep cs))
  ]

  -- The parts of a text joined are the text.
  pub join-split : (cs : List ℕ) → join sep (split sep cs) ≡ cs
  unfolding join split
  join-split [] = refl
  join-split (c ∷ cs) = elim (Bool-cases (c == sep)) [
    | inl t ↦
        rw t (
          join-split_sep cs ∙ ap (λ xs. sep ∷ xs) (join-split cs) ∙ ap (λ s. s ∷ cs) (ground arith))
    | inr f ↦ rw f (join-prepend c (split sep cs) ∙ ap (λ xs. c ∷ xs) (join-split cs))
  ]
