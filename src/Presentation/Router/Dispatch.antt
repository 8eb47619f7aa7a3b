-- ===== src/Presentation/Router/Dispatch.antt =====
-- A request is dispatched to a handler exactly if it is one of that handler's requests.
use onlyapi.Base.{
  All, Bool-cases, IsPart, List, [], arith, inl, inr, refl, some, some_inj, subst, sym, text_eq,
  text_eq-≡, ℕ, ◌++◌, ◌≡◌, ◌↔◌, ◌∙◌, ◌∷◌,
}
use onlyapi.Presentation.Router.{
  Route, find_route, handle, match_admin, match_api_key, match_oauth, match_webhook, routes,
}
use onlyapi.Presentation.Router.Routes.{IsValid, handle-request, method_of, path_of}
use onlyapi.Presentation.Router.Matchers.{
  Reaches, match_admin-Reaches, match_api_key-Reaches, match_oauth-Reaches, match_webhook-Reaches,
  or_else-Reaches,
}

-- The entries of the static table name the requests of their handlers.
abbrev IsEntry : List ℕ × Route → Type 0
IsEntry (key, r) = (key ≡ method_of r ++ b' ' ∷ path_of r) × IsValid r

find_route-entry :
    (key : List ℕ) (table : List (List ℕ × Route)) (r : Route)
    → All IsEntry table
    → find_route key table ≡ some r
    → (key ≡ method_of r ++ b' ' ∷ path_of r) × IsValid r
unfolding find_route
find_route-entry key [] r a h = absurd cc
find_route-entry key ((k, x) ∷ table) r ((e, v), a) h = elim (Bool-cases (text_eq k key)) [
  | inl t ↦
      let found : some x ≡ some r = rw t at h in
      subst (λ y. (key ≡ method_of y ++ b' ' ∷ path_of y) × IsValid y) (some_inj found)
        (sym (text_eq-≡ k key t) ∙ e, v)
  | inr f ↦ find_route-entry key table r a (rw f at h)
]

routes-entries : All IsEntry routes
routes-entries = (
  (refl, tt),
  (
    (refl, tt),
    (
      (refl, tt),
      (
        (refl, tt),
        (
          (refl, tt),
          (
            (refl, tt),
            (
              (refl, tt),
              (
                (refl, tt),
                (
                  (refl, tt),
                  (
                    (refl, tt),
                    (
                      (refl, tt),
                      (
                        (refl, tt),
                        (
                          (refl, tt),
                          (
                            (refl, tt),
                            (
                              (refl, tt),
                              (
                                (refl, tt),
                                (
                                  (refl, tt),
                                  (
                                    (refl, tt),
                                    (
                                      (refl, tt),
                                      (
                                        (refl, tt),
                                        (
                                          (refl, tt),
                                          (
                                            (refl, tt),
                                            (
                                              (refl, tt),
                                              ((refl, tt), ((refl, tt), ((refl, tt), tt))),
                                            ),
                                          ),
                                        ),
                                      ),
                                    ),
                                  ),
                                ),
                              ),
                            ),
                          ),
                        ),
                      ),
                    ),
                  ),
                ),
              ),
            ),
          ),
        ),
      ),
    ),
  ),
)

-- A space that follows no other divides a text in one way.
one_division :
    (a b c d : List ℕ)
    → IsPart b' ' a
    → IsPart b' ' c
    → a ++ b' ' ∷ b ≡ c ++ b' ' ∷ d
    → (a ≡ c) × (b ≡ d)
one_division [] b [] d h k e = (refl, cc)
one_division [] b (y ∷ c) d h (k, ks) e = absurd (k cc)
one_division (x ∷ a) b [] d (h, hs) k e = absurd (h cc)
one_division (x ∷ a) b (y ∷ c) d (h, hs) (k, ks) e = ground (arith, one_division a b c d hs ks)

method-IsPart : (r : Route) → IsPart b' ' (method_of r)
method-IsPart Route.login = omega arith
method-IsPart _ = omega arith

dispatched : (m p : List ℕ) (r : Route) → IsPart b' ' m → handle m p ≡ some r → Reaches m p r
unfolding handle
dispatched m p r space h =
    or_else-Reaches m p (find_route (m ++ b' ' ∷ p) routes) _ r
      (λ found.
        let (e, v) = find_route-entry (m ++ b' ' ∷ p) routes r routes-entries found in
        let (same, path) = one_division m p (method_of r) (path_of r) space (method-IsPart r) e in
        (v, same, path))
      (or_else-Reaches m p (match_admin m p) _ r (match_admin-Reaches m p r) (
        or_else-Reaches m p (match_api_key m p) _ r (match_api_key-Reaches m p r) (
          or_else-Reaches m p (match_oauth m p) (match_webhook m p) r (match_oauth-Reaches m p r)
            (match_webhook-Reaches m p r))))
      h

-- A request whose method has no space is dispatched to a handler exactly if it has that handler's method
-- and path, with parameters that are segments of a path and, for keys and webhooks, are not empty.
pub handle_iff :
    (m p : List ℕ) (r : Route)
    → IsPart b' ' m
    → (handle m p ≡ some r) ↔ (IsValid r × (m ≡ method_of r) × (p ≡ path_of r))
handle_iff m p r space = (dispatched m p r space, λ (v, e, q). rw (e, q) (handle-request r v))
