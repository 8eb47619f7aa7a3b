-- ===== src/Security/Blacklist/Tests.antt =====
-- Runs of the blacklist, and its theorems at a concrete one.
use onlyapi.Base.{Distinct, [], get, keep_if, refl, ◌∷◌, ◌≡◌}
use onlyapi.Security.Blacklist.{Blacklist, prune}

abbrev two_tokens : Blacklist
two_tokens = record { store = ("a", 10) ∷ ("b", 90) ∷ []; last_prune = 0 }

prune_drops_the_first : prune 70000 two_tokens ≡ (2, record { store = []; last_prune = 70000 })
unfolding prune keep_if
prune_drops_the_first = refl

two_tokens-Distinct : Distinct two_tokens.store
unfolding get
two_tokens-Distinct = (refl, (refl, tt))
