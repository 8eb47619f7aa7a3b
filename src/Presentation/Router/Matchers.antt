-- ===== src/Presentation/Router/Matchers.antt =====
-- What each matcher of a path with a parameter dispatches.
use onlyapi.Base.{
  Bool, Bool-cases, List, Option, Option-cases, [], ap, arith, codes, false, if◌then◌else◌, inl,
  inr, length, none, refl, some, some_inj, subst, suc, sym, take, text_eq, text_eq-≡, true, zero, ℕ,
  ◌&&◌, ◌+◌, ◌++◌, ◌≡◌, ◌≢◌, ◌∙◌, ◌∷◌,
}
use onlyapi.Base.{starts_with, substring}
use onlyapi.Presentation.Router.{
  Route, admin_prefix, api_key_prefix, index_of_slash, is_bad_id, match_admin, match_api_key,
  match_oauth, match_webhook, oauth_prefix, or_else, webhook_prefix,
}
use onlyapi.Presentation.Router.Routes.{IsSegment, IsValid, method_of, path_of}

-- The text that follows a prefix.
prefix_rest :
    (prefix cs : List ℕ)
    → starts_with prefix cs ≡ true
    → cs ≡ prefix ++ substring (length prefix) cs
unfolding starts_with substring
prefix_rest [] cs h = refl
prefix_rest (p ∷ ps) [] h = absurd cc
prefix_rest (p ∷ ps) (c ∷ cs) h = ground (arith, prefix_rest ps cs)

no_slash : (cs : List ℕ) → index_of_slash cs ≡ none → IsSegment cs
unfolding index_of_slash
no_slash [] h = tt
no_slash (c ∷ cs) h = ground (arith, no_slash cs)

at_slash :
    (cs : List ℕ) (i : ℕ)
    → index_of_slash cs ≡ some i
    → (cs ≡ take i cs ++ b'/' ∷ substring (suc i) cs) × IsSegment (take i cs)
unfolding index_of_slash substring
at_slash [] i h = absurd cc
at_slash (c ∷ cs) zero h = ground arith
at_slash (c ∷ cs) (suc i) h = ground (arith, at_slash cs i)

and_true : (a b : Bool) → (a && b) ≡ true → (a ≡ true) × (b ≡ true)
and_true true b h = (refl, h)
and_true false b h = absurd cc

is_good_id : (id : List ℕ) → is_bad_id id ≡ false → (id ≢ []) × IsSegment id
unfolding is_bad_id
is_good_id [] h = absurd cc
is_good_id (c ∷ cs) h = (λ e. cc, no_slash (c ∷ cs) (ground arith))

module _ (m p : List ℕ) where
  -- The request is one of the handler's.
  abbrev pub Reaches : Route → Type 0
  Reaches r = IsValid r × (m ≡ method_of r) × (p ≡ path_of r)

  leaf :
      (b : Bool) (x r : Route) (o : Option Route)
      → (b ≡ true → Reaches x)
      → (o ≡ some r → Reaches r)
      → (if b then some x else o) ≡ some r
      → Reaches r
  leaf true x r o here later h = subst Reaches (some_inj h) (here refl)
  leaf false x r o here later h = later h

  missed : (r : Route) → none ≡ some r → Reaches r
  missed r h = absurd cc

  -- A method and an action after the parameter.
  acted :
      (prefix rest method action : List ℕ) (i : ℕ)
      → p ≡ prefix ++ rest
      → index_of_slash rest ≡ some i
      → (text_eq m method && text_eq (substring (i + 1) rest) action) ≡ true
      → IsSegment (take i rest) × (m ≡ method) × (p ≡ prefix ++ (take i rest ++ b'/' ∷ action))
  acted prefix rest method action i whole e b =
      let (mt, at) = and_true (text_eq m method) (text_eq (substring (i + 1) rest) action) b in
      let (cut, segment) = at_slash rest i e in
      let next : i + 1 ≡ suc i = omega arith in
      let same : substring (suc i) rest ≡ action =
        ap (λ k. substring k rest) (sym next) ∙ text_eq-≡ (substring (i + 1) rest) action at in
      (
        segment,
        text_eq-≡ m method mt,
        whole ∙ ap (λ t. prefix ++ t) (cut ∙ ap (λ t. take i rest ++ b'/' ∷ t) same),
      )

  pub match_admin-Reaches : (r : Route) → match_admin m p ≡ some r → Reaches r
  unfolding match_admin
  match_admin-Reaches r h = elim (Bool-cases (starts_with admin_prefix p)) [
    | inr f ↦ missed r (rw (f, match_admin) at h)
    | inl t ↦
        let rest = substring (length admin_prefix) p in
        let whole = prefix_rest admin_prefix p t in
        elim (Option-cases (index_of_slash rest)) [
          | inl n ↦
              leaf _ _ r _ (λ b. (no_slash rest n, text_eq-≡ m (codes "GET") b, whole)) (missed r)
                (rw (t, n, match_admin) at h)
          | inr (i, e) ↦
              leaf _ _ r _ (acted admin_prefix rest (codes "PATCH") (codes "role") i whole e)
                (leaf _ _ r _ (acted admin_prefix rest (codes "POST") (codes "ban") i whole e) (
                  leaf _ _ r _ (acted admin_prefix rest (codes "POST") (codes "unban") i whole e)
                    (missed r)))
                (rw (t, e, match_admin) at h)
        ]
  ]

  pub match_oauth-Reaches : (r : Route) → match_oauth m p ≡ some r → Reaches r
  unfolding match_oauth
  match_oauth-Reaches r h = elim (Bool-cases (starts_with oauth_prefix p)) [
    | inr f ↦ missed r (rw (f, match_oauth) at h)
    | inl t ↦
        let rest = substring (length oauth_prefix) p in
        let whole = prefix_rest oauth_prefix p t in
        elim (Option-cases (index_of_slash rest)) [
          | inl n ↦
              leaf _ _ r _ (λ b. (no_slash rest n, text_eq-≡ m (codes "GET") b, whole)) (missed r)
                (rw (t, n, match_oauth) at h)
          | inr (i, e) ↦
              leaf _ _ r _ (acted oauth_prefix rest (codes "POST") (codes "callback") i whole e)
                (missed r) (rw (t, e, match_oauth) at h)
        ]
  ]

  -- The two matchers of DELETE.
  deleted :
      (prefix : List ℕ) (make : List ℕ → Route) (r : Route)
      → ((id : List ℕ)
          → (id ≢ []) × IsSegment id
          → (m ≡ codes "DELETE")
          → (p ≡ prefix ++ id)
          → Reaches (make id))
      → (if text_eq m (codes "DELETE") && starts_with prefix p
          then (if is_bad_id (substring (length prefix) p)
              then none
              else some (make (substring (length prefix) p)))
          else none)
        ≡ some r
      → Reaches r
  deleted prefix make r reaches h =
      elim (Bool-cases (text_eq m (codes "DELETE") && starts_with prefix p)) [
        | inr f ↦ missed r (rw f at h)
        | inl t ↦
            let id = substring (length prefix) p in
            let (mt, st) = and_true (text_eq m (codes "DELETE")) (starts_with prefix p) t in
            elim (Bool-cases (is_bad_id id)) [
              | inl bad ↦ missed r (rw (t, bad) at h)
              | inr good ↦
                  let found : some (make id) ≡ some r = rw (t, good) at h in
                  subst Reaches (some_inj found) (
                    reaches id (is_good_id id good) (text_eq-≡ m (codes "DELETE") mt)
                      (prefix_rest prefix p st))
            ]
      ]

  pub match_api_key-Reaches : (r : Route) → match_api_key m p ≡ some r → Reaches r
  unfolding match_api_key
  match_api_key-Reaches r h = deleted api_key_prefix Route.revoke_key r (λ id v e q. (v, e, q)) h

  pub match_webhook-Reaches : (r : Route) → match_webhook m p ≡ some r → Reaches r
  unfolding match_webhook
  match_webhook-Reaches r h =
      deleted webhook_prefix Route.remove_webhook r (λ id v e q. (v, e, q)) h

  pub or_else-Reaches :
      (a b : Option Route) (r : Route)
      → (a ≡ some r → Reaches r)
      → (b ≡ some r → Reaches r)
      → or_else a b ≡ some r
      → Reaches r
  or_else-Reaches none b r f g h = g h
  or_else-Reaches (some x) b r f g h = f h
