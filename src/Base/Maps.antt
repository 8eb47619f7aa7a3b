-- ===== src/Base/Maps.antt =====
-- A JavaScript `Map` with text keys: an association list in insertion order. `set` overwrites in
-- place or appends, as `Map.prototype.set` does; a key stands once at most, so `delete` may drop
-- every entry with the key.
use Prim.Native.String.{String}
use mathlib.Core.Path.{◌≡◌, ap, refl, sym, subst, ◌∙◌}
use mathlib.Core.Bool.{Bool, true, false}
use mathlib.Core.Logic.{◌⊎◌, inl, inr, ◌≢◌}
use mathlib.Core.Option.{Option, none, some}
use mathlib.Core.List.{List, [], ◌∷◌}
use native.Mathlib.Omega.{arith}
use text.Mathlib.Text.{◌==◌ as str_eq}
use text.Mathlib.TextEquality.{eq_iff}
use onlyapi.Base.Tests.{
  Bool-cases, Option-cases, if◌then◌else◌, str_eq_self, str_eq_ne, str_eq-cases,
}

abbrev pub Map {ℓ} : Type ℓ → Type ℓ
Map V = List (String × V)

pub some_inj {ℓ} : {A : Type ℓ} {a b : A} → some a ≡ some b → a ≡ b
some_inj h = cc

pub true_ne_false : true ≡ false → ⊥
true_ne_false h = cc

pub absent_some {ℓ} : {A : Type ℓ} {a : A} → some a ≡ none → ⊥
absent_some h = cc

-- A chain of two that succeeds.
pub bind_some {ℓ κ} :
    {A : Type ℓ} {B : Type κ} (o : Option A) (f : A → Option B) {b : B}
    → elim o [ none ↦ none | some a ↦ f a ] ≡ some b
    → (a : A) × (o ≡ some a) × (f a ≡ some b)
bind_some none f h = absurd (absent_some (sym h))
bind_some (some a) f h = (a, refl, h)

module _ {ℓ} {V : Type ℓ} where
  unfoldable pub get : String → Map V → Option V
  get k [] = none
  get k ((j, v) ∷ m) = if str_eq j k then some v else get k m

  unfoldable pub set : String → V → Map V → Map V
  set k v [] = (k, v) ∷ []
  set k v ((j, w) ∷ m) = if str_eq j k then (j, v) ∷ m else (j, w) ∷ set k v m

  unfoldable pub delete : String → Map V → Map V
  delete k [] = []
  delete k ((j, w) ∷ m) = if str_eq j k then delete k m else (j, w) ∷ delete k m

  unfoldable pub has : String → Map V → Bool
  unfolding get
  has k m = elim (get k m) [ none ↦ false | some v ↦ true ]

  -- Delete in a loop over the entries: `for (const [k, v] of m) if (test(v)) m.delete(k)`.
  unfoldable pub keep_if : (String → V → Bool) → Map V → Map V
  keep_if p [] = []
  keep_if p ((j, w) ∷ m) = if p j w then (j, w) ∷ keep_if p m else keep_if p m

  pub get-set :
      (j k : String) (v : V) (m : Map V)
      → get j (set k v m) ≡ (if str_eq k j then some v else get j m)
  unfolding get set
  get-set j k v [] = refl
  get-set j k v ((i, w) ∷ m) = ground (arith, eq_iff k j, eq_iff i k, eq_iff i j, get-set j k v m)

  pub get-delete :
      (j k : String) (m : Map V) → get j (delete k m) ≡ (if str_eq k j then none else get j m)
  unfolding get delete
  get-delete j k [] = ground arith
  get-delete j k ((i, w) ∷ m) = ground (arith, eq_iff k j, eq_iff i k, eq_iff i j, get-delete j k m)

  pub get-set_self : (k : String) (v : V) (m : Map V) → get k (set k v m) ≡ some v
  get-set_self k v m = rw (get-set, str_eq_self k)

  pub get-delete_self : (k : String) (m : Map V) → get k (delete k m) ≡ none
  get-delete_self k m = rw (get-delete, str_eq_self k)

  pub get-set_ne : (k j : String) (v : V) (m : Map V) → j ≢ k → get j (set k v m) ≡ get j m
  get-set_ne k j v m ne = rw (get-set, str_eq_ne k j (λ p. ne (sym p)))

  pub get-delete_ne : (k j : String) (m : Map V) → j ≢ k → get j (delete k m) ≡ get j m
  get-delete_ne k j m ne = rw (get-delete, str_eq_ne k j (λ p. ne (sym p)))

  -- An entry of the map that `set` makes is the one set or stood there.
  pub set-entry :
      (k j : String) (v w : V) (m : Map V)
      → get j (set k v m) ≡ some w
      → ((k ≡ j) × (w ≡ v)) ⊎ (get j m ≡ some w)
  set-entry k j v w m e = elim (str_eq-cases k j) [
    | inl (y, same) ↦
        inl (same, some_inj (sym e ∙ ap (λ i. get i (set k v m)) (sym same) ∙ get-set_self k v m))
    | inr (f, other) ↦ inr (sym (get-set_ne k j v m (λ p. other (sym p))) ∙ e)
  ]

  -- Every key stands once.
  abbrev pub Distinct : Map V → Type ℓ
  Distinct [] = Unit
  Distinct ((j, w) ∷ m) = (get j m ≡ none) × Distinct m

  pub set-Distinct : (k : String) (v : V) (m : Map V) → Distinct m → Distinct (set k v m)
  unfolding set get
  set-Distinct k v [] d = (refl, tt)
  set-Distinct k v ((j, w) ∷ m) d =
      ground (arith, get-set j k v m, eq_iff j k, eq_iff k j, set-Distinct k v m d.1)

  pub delete-Distinct : (k : String) (m : Map V) → Distinct m → Distinct (delete k m)
  unfolding delete
  delete-Distinct k [] d = tt
  delete-Distinct k ((j, w) ∷ m) d = ground (arith, get-delete j k m, delete-Distinct k m d.1)

  get-keep_if-none :
      (k : String) (p : String → V → Bool) (m : Map V) → get k m ≡ none → get k (keep_if p m) ≡ none
  unfolding get keep_if
  get-keep_if-none k p [] h = refl
  get-keep_if-none k p ((j, w) ∷ m) h = ground (arith, get-keep_if-none k p m)

  pub keep_if-Distinct : (p : String → V → Bool) (m : Map V) → Distinct m → Distinct (keep_if p m)
  unfolding keep_if
  keep_if-Distinct p [] d = tt
  keep_if-Distinct p ((j, w) ∷ m) d =
      ground (arith, get-keep_if-none j p m d.0, keep_if-Distinct p m d.1)

  -- What an entry is worth after the loop.
  abbrev pub kept : (String → V → Bool) → String → Option V → Option V
  kept p k none = none
  kept p k (some v) = if p k v then some v else none

  pub get-keep_if :
      (k : String) (p : String → V → Bool) (m : Map V)
      → Distinct m
      → get k (keep_if p m) ≡ kept p k (get k m)
  unfolding get keep_if
  get-keep_if k p [] d = refl
  get-keep_if k p ((j, w) ∷ m) d =
      ground (arith, eq_iff j k, get-keep_if-none j p m d.0, get-keep_if k p m d.1)

  -- An entry that passes stays, whatever else the store holds.
  pub get-keep_if-some :
      (k : String) (p : String → V → Bool) (m : Map V) (v : V)
      → get k m ≡ some v
      → p k v ≡ true
      → get k (keep_if p m) ≡ some v
  unfolding get keep_if
  get-keep_if-some k p [] v h q = cc
  get-keep_if-some k p ((j, w) ∷ m) v h q = ground (arith, eq_iff j k, get-keep_if-some k p m v)

  -- The listed entries are those of the map.
  abbrev pub EntriesOf : Map V → Map V → Type ℓ
  EntriesOf m [] = Unit
  EntriesOf m ((j, w) ∷ es) = (get j m ≡ some w) × EntriesOf m es

  -- A change of one key leaves the entries of the others.
  pub EntriesOf-others :
      (k : String) (m m' es : Map V)
      → ((j : String) → j ≢ k → get j m' ≡ get j m)
      → get k es ≡ none
      → EntriesOf m es
      → EntriesOf m' es
  unfolding get
  EntriesOf-others k m m' [] same h e = tt
  EntriesOf-others k m m' ((j, w) ∷ es) same h e = elim (str_eq-cases j k) [
    | inl (t, p) ↦ absurd (absent_some (subst (λ b. (if b then some w else get k es) ≡ none) t h))
    | inr (f, ne) ↦ (
      same j ne ∙ e.0,
      EntriesOf-others k m m' es same (subst (λ b. (if b then some w else get k es) ≡ none) f h)
          e.1,
    )
  ]

  pub Distinct-EntriesOf : (m : Map V) → Distinct m → EntriesOf m m
  unfolding get
  Distinct-EntriesOf [] d = tt
  Distinct-EntriesOf ((j, w) ∷ m) d = (
    rw (str_eq_self j),
    EntriesOf-others j m ((j, w) ∷ m) m (λ i ne. rw (str_eq_ne j i (λ p. ne (sym p)))) d.0
        (Distinct-EntriesOf m d.1),
  )

  -- The first value that passes: `for (const v of m.values()) if (test(v)) return v`.
  unfoldable pub find_value : (V → Bool) → Map V → Option V
  find_value p [] = none
  find_value p ((j, w) ∷ m) = if p w then some w else find_value p m

  -- Where the search finds nothing, no entry passes.
  pub find_value-none :
      (p : V → Bool) (m : Map V) (k : String) (v : V)
      → find_value p m ≡ none
      → get k m ≡ some v
      → p v ≡ false
  unfolding find_value get
  find_value-none p [] k v n g = cc
  find_value-none p ((j, w) ∷ m) k v n g = grind (arith, find_value-none p m k v, eq_iff j k)

  -- What the search finds passes, and stands in the map.
  pub find_value-some :
      (p : V → Bool) (m : Map V) (v : V)
      → Distinct m
      → find_value p m ≡ some v
      → (p v ≡ true) × ((k : String) × (get k m ≡ some v))
  unfolding find_value get
  find_value-some p [] v d f = absurd (absent_some (sym f))
  find_value-some p ((j, w) ∷ m) v d f = elim (Bool-cases (p w)) [
    | inl t ↦
        let found : some w ≡ some v =
          subst (λ b. (if b then some w else find_value p m) ≡ some v) t f in
        (subst (λ x. p x ≡ true) (some_inj found) t, (j, rw (str_eq_self j) found))
    | inr n ↦
        let later = subst (λ b. (if b then some w else find_value p m) ≡ some v) n f in
        let (a, (k, g)) = find_value-some p m v d.1 later in (a, (k, ground (arith, eq_iff j k)))
  ]

  -- The search finds the one entry that passes.
  pub find_value_unique :
      (p : V → Bool) (m : Map V) (k : String) (v : V)
      → Distinct m
      → get k m ≡ some v
      → p v ≡ true
      → ((j : String) (w : V) → get j m ≡ some w → p w ≡ true → j ≡ k)
      → find_value p m ≡ some v
  find_value_unique p m k v d g t only = elim (Option-cases (find_value p m)) [
    | inl n ↦ absurd (true_ne_false (sym t ∙ find_value-none p m k v n g))
    | inr (w, f) ↦
        let (a, (j, h)) = find_value-some p m w d f in
        f ∙ sym (subst (λ x. get x m ≡ some w) (only j w h a) h) ∙ g
  ]
