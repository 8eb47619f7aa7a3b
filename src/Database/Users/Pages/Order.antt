-- ===== src/Database/Users/Pages/Order.antt =====
-- The order of the users that `list` answers from, the newest first.
use onlyapi.Base.{
  All, Bool, Bool-cases, List, [], ap₂, arith, false, filter, if◌then◌else◌, inl, inr, leb, ltb,
  refl, true, ℕ, ◌++◌, ◌<◌, ◌≡◌, ◌≢◌, ◌∷◌, All-split,
}
use onlyapi.Core.Users.{User}
use onlyapi.Database.Users.Pages.{insert, sort}

-- No two users were created at one time.
unfoldable pub Apart : List User → Type 0
Apart [] = Unit
Apart (u ∷ us) = All (λ v. v.created_at ≢ u.created_at) us × Apart us

-- Each user was created after all that follow.
unfoldable pub Falling : List User → Type 0
Falling [] = Unit
Falling (u ∷ us) = All (λ v. v.created_at < u.created_at) us × Falling us

insert-All : (P : User → Type 0) (u : User) (us : List User) → P u → All P us → All P (insert u us)
unfolding insert
insert-All P u [] h hs = (h, tt)
insert-All P u (v ∷ vs) h (g, gs) = elim (Bool-cases (leb v.created_at u.created_at)) [
  | inl t ↦ rw t (h, (g, gs))
  | inr f ↦ rw f (g, insert-All P u vs h gs)
]

sort-All : (P : User → Type 0) (us : List User) → All P us → All P (sort us)
unfolding sort
sort-All P [] h = tt
sort-All P (u ∷ us) (h, hs) = insert-All P u (sort us) h (sort-All P us hs)

pub All-map :
    (P Q : User → Type 0) (us : List User) → ((u : User) → P u → Q u) → All P us → All Q us
All-map P Q [] f h = tt
All-map P Q (u ∷ us) f (h, hs) = (f u h, All-map P Q us f hs)

insert-Falling :
    (u : User) (us : List User)
    → All (λ v. v.created_at ≢ u.created_at) us
    → Falling us
    → Falling (insert u us)
unfolding insert Falling
insert-Falling u [] h f = (tt, tt)
insert-Falling u (v ∷ vs) (h, hs) (f, fs) = elim (Bool-cases (leb v.created_at u.created_at)) [
  | inl t ↦
      let below : v.created_at < u.created_at = ground (arith, h) in
      let all_below =
        All-map (λ w. w.created_at < v.created_at) (λ w. w.created_at < u.created_at) vs
          (λ w lt. omega arith) f in
      rw t ((below, all_below), (f, fs))
  | inr n ↦ rw n (
    insert-All (λ w. w.created_at < v.created_at) u vs (ground arith) f,
    insert-Falling u vs hs fs,
  )
]

-- Users created at different times are sorted, the newest first.
pub sort-Falling : (us : List User) → Apart us → Falling (sort us)
unfolding sort Apart Falling
sort-Falling [] h = tt
sort-Falling (u ∷ us) (h, hs) =
    insert-Falling u (sort us) (sort-All (λ v. v.created_at ≢ u.created_at) us h)
      (sort-Falling us hs)

filter-All : (P : User → Type 0) (p : User → Bool) (us : List User) → All P us → All P (filter p us)
filter-All P p [] h = tt
filter-All P p (u ∷ us) (h, hs) = elim (Bool-cases (p u)) [
  | inl t ↦ rw t (h, filter-All P p us hs)
  | inr f ↦ rw f (filter-All P p us hs)
]

pub filter-Falling : (p : User → Bool) (us : List User) → Falling us → Falling (filter p us)
unfolding Falling
filter-Falling p [] h = tt
filter-Falling p (u ∷ us) (h, hs) = elim (Bool-cases (p u)) [
  | inl t ↦ rw t (filter-All (λ v. v.created_at < u.created_at) p us h, filter-Falling p us hs)
  | inr f ↦ rw f (filter-Falling p us hs)
]

pub filter_everything :
    (p : User → Bool) (us : List User) → All (λ u. p u ≡ true) us → filter p us ≡ us
filter_everything p [] h = refl
filter_everything p (u ∷ us) (h, hs) = rw (h, filter_everything p us hs) refl

pub filter_same :
    (p q : User → Bool) (us : List User) → ((u : User) → p u ≡ q u) → filter p us ≡ filter q us
filter_same p q [] h = refl
filter_same p q (u ∷ us) h = ap₂ (λ b vs. if b then u ∷ vs else vs) (h u) (filter_same p q us h)

pub filter_comm :
    (p q : User → Bool) (us : List User) → filter p (filter q us) ≡ filter q (filter p us)
filter_comm p q [] = refl
filter_comm p q (u ∷ us) = ground (arith, filter_comm p q us)

abbrev pub older : ℕ → User → Bool
older ts u = ltb u.created_at ts

-- In a falling list, those older than a user are those after it.
pub older_rest :
    (us : List User) (x : User) (vs : List User)
    → Falling (us ++ x ∷ vs)
    → filter (older x.created_at) (us ++ x ∷ vs) ≡ vs
unfolding Falling
older_rest [] x vs (h, hs) =
    let same : older x.created_at x ≡ false = ground arith in
    rw same (
      filter_everything (older x.created_at) vs (
        All-map (λ v. v.created_at < x.created_at) (λ v. older x.created_at v ≡ true) vs
          (λ v lt. ground arith) h))
older_rest (u ∷ us) x vs (h, hs) =
    let later : x.created_at < u.created_at =
      (All-split (λ v. v.created_at < u.created_at) us (x ∷ vs) h).1.0 in
    let not_older : older x.created_at u ≡ false = ground arith in
    rw not_older (older_rest us x vs hs)
