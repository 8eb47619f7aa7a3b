-- ===== src/Security/Blacklist/Laws.antt =====
-- What a caller can observe of the blacklist: which hashes it reports, now and later.
use onlyapi.Base.{
  Bool, Distinct, String, arith, delete-Distinct, eq_iff, false, get, get-delete, get-keep_if,
  get-set, if◌then◌else◌, keep_if-Distinct, leb, ltb, none, not, set-Distinct, some, str_eq, ℕ, ◌≡◌,
  ◌≤◌,
}
use onlyapi.Security.Blacklist.{Blacklist, add, is_blacklisted, lives, prune}

-- The answer that the entries of a store give.
abbrev pub reported : String → ℕ → Blacklist → Bool
reported hash now b = elim (get hash b.store) [ none ↦ false | some t ↦ not (leb t now) ]

-- A read answers from the entry, and drops at most what is never reported again.
pub is_blacklisted-reported :
    (hash : String) (now : ℕ) (b : Blacklist)
    → let (found, b') = is_blacklisted hash now b in
      (found ≡ reported hash now b)
      × ((j : String) (t : ℕ) → now ≤ t → reported j t b' ≡ reported j t b)
unfolding is_blacklisted
is_blacklisted-reported hash now b =
    (ground arith, λ j t le. ground (arith, get-delete j hash b.store, eq_iff hash j))

-- A pruning pass changes no answer, now or later, on a store whose keys are distinct.
pub prune-reported :
    (now : ℕ) (b : Blacklist) (j : String) (t : ℕ)
    → Distinct b.store
    → now ≤ t
    → reported j t (prune now b).1 ≡ reported j t b
unfolding prune
prune-reported now b j t d le = ground (arith, get-keep_if j (lives now) b.store d)

-- An added hash is reported until its time comes, and no later; other hashes are as before.
pub add-reported :
    (hash : String) (expires_at : ℕ) (b : Blacklist) (j : String) (t : ℕ)
    → reported j t (add hash expires_at b)
      ≡ (if str_eq hash j then ltb t expires_at else reported j t b)
unfolding add
add-reported hash expires_at b j t = ground (arith, get-set j hash expires_at b.store)

-- Every operation keeps the keys distinct.
pub add-Distinct :
    (hash : String) (t : ℕ) (b : Blacklist) → Distinct b.store → Distinct (add hash t b).store
unfolding add
add-Distinct hash t b d = set-Distinct hash t b.store d

pub is_blacklisted-Distinct :
    (hash : String) (now : ℕ) (b : Blacklist)
    → Distinct b.store
    → Distinct (is_blacklisted hash now b).1.store
unfolding is_blacklisted
is_blacklisted-Distinct hash now b d = ground (arith, delete-Distinct hash b.store d)

pub prune-Distinct : (now : ℕ) (b : Blacklist) → Distinct b.store → Distinct (prune now b).1.store
unfolding prune
prune-Distinct now b d = ground (arith, keep_if-Distinct (lives now) b.store d)
