-- ===== src/Presentation/Access/Versions.antt =====
-- How the two functions on versioned paths agree.
use onlyapi.Base.{◌≢◌, List, Option, arith, false, none, refl, true, ℕ, ◌≡◌, ◌++◌, ◌∷◌, []}
use onlyapi.Presentation.Access.{
  normalize_versioned_path, resolve_api_version, v1_prefix, v2_prefix, v1, v2, accepts_v1,
}
use onlyapi.Base.{starts_with, substring}

-- No text starts with both of two texts that first differ at one character.
starts_with-differ :
    (ps as' bs cs : List ℕ) (a b : ℕ)
    → a ≢ b
    → starts_with (ps ++ a ∷ as') cs ≡ true
    → starts_with (ps ++ b ∷ bs) cs ≡ false
unfolding starts_with
starts_with-differ [] as' bs [] a b ne h = absurd cc
starts_with-differ [] as' bs (c ∷ cs) a b ne h = ground arith
starts_with-differ (p ∷ ps) as' bs [] a b ne h = absurd cc
starts_with-differ (p ∷ ps) as' bs (c ∷ cs) a b ne h =
    ground (arith, starts_with-differ ps as' bs cs a b ne)

one_version :
    (path : List ℕ) → starts_with v1_prefix path ≡ true → starts_with v2_prefix path ≡ false
one_version path h =
    starts_with-differ (47 ∷ 97 ∷ 112 ∷ 105 ∷ 47 ∷ 118 ∷ []) (47 ∷ []) (47 ∷ []) path 49 50
      (λ p. omega arith) h

-- Without the header Accept-Version, the version that a path is normalized for is the one that is
-- resolved; a path of version 2 is served by that of version 1 with the same rest, and resolves to
-- version 2 all the same.
normalize-resolve :
    (path rest : List ℕ) (accept : Option (List ℕ))
    → ((normalize_versioned_path path).1 ≡ resolve_api_version path none)
      × (normalize_versioned_path (v2_prefix ++ rest) ≡ (v1_prefix ++ rest, v2))
      × (resolve_api_version (v2_prefix ++ rest) accept ≡ v2)
      × (resolve_api_version (v1_prefix ++ rest) accept ≡ v1)
unfolding normalize_versioned_path resolve_api_version starts_with substring accepts_v1
normalize-resolve path rest accept = (ground (arith, one_version path), refl, refl, refl)
