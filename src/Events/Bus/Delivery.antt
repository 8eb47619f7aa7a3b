-- ===== src/Events/Bus/Delivery.antt =====
-- Which handlers an event reaches.
use onlyapi.Base.{
  set-entry, List, String, [], ap, arith, get, length, none, refl, some, suc, zero, ℕ, ◌++◌, ◌<◌,
  ◌≡◌, ◌≢◌, ◌∷◌, Option-cases, get-set_self, if◌then◌else◌, inl, inr, set, str_eq, str_eq-cases,
  subst, sym, ◌∙◌, get-set_ne, length-append,
}
use onlyapi.Events.Bus.{Bus, at, put, get_or_create}

pub at-put_self :
    (r : ℕ) (hs : List ℕ) (heap : List (List ℕ)) → r < length heap → at r (put r hs heap) ≡ hs
unfolding at put
at-put_self r hs [] lt = absurd (omega arith)
at-put_self zero hs (s ∷ heap) lt = refl
at-put_self (suc r) hs (s ∷ heap) lt = at-put_self r hs heap (omega arith)

pub at-put_ne :
    (r q : ℕ) (hs : List ℕ) (heap : List (List ℕ)) → q ≢ r → at q (put r hs heap) ≡ at q heap
unfolding at put
at-put_ne r q hs [] ne = refl
at-put_ne zero zero hs (s ∷ heap) ne = absurd (ne refl)
at-put_ne zero (suc q) hs (s ∷ heap) ne = refl
at-put_ne (suc r) zero hs (s ∷ heap) ne = refl
at-put_ne (suc r) (suc q) hs (s ∷ heap) ne = at-put_ne r q hs heap (λ p. ne (ap suc p))

pub length-put : (r : ℕ) (hs : List ℕ) (heap : List (List ℕ)) → length (put r hs heap) ≡ length heap
unfolding put
length-put r hs [] = refl
length-put zero hs (s ∷ heap) = refl
length-put (suc r) hs (s ∷ heap) = omega (arith, length-put r hs heap)

-- A new set is empty, and the others are where they were.
pub at-append : (r : ℕ) (heap : List (List ℕ)) → at r (heap ++ [] ∷ []) ≡ at r heap
unfolding at
at-append zero [] = refl
at-append (suc r) [] = refl
at-append zero (s ∷ heap) = refl
at-append (suc r) (s ∷ heap) = at-append r heap

-- The handlers of a type.
unfoldable pub handlers_of : String → Bus → List ℕ
unfolding at
handlers_of type_ b = elim (get type_ b.handlers) [ none ↦ [] | some r ↦ at r b.heap ]

-- Every entry of the map has a set of its own in the heap.
pub record IsApart (b : Bus) : Type 0 where
  pub in_heap : (t : String) (r : ℕ) → get t b.handlers ≡ some r → r < length b.heap
  pub apart : (t u : String) (r : ℕ) → get t b.handlers ≡ some r → get u b.handlers ≡ some r → t ≡ u

pub handlers_of-some :
    (t : String) (r : ℕ) (b : Bus) → get t b.handlers ≡ some r → handlers_of t b ≡ at r b.heap
unfolding handlers_of
handlers_of-some t r b e = rw (handlers_of, e) refl

pub handlers_of-none : (t : String) (b : Bus) → get t b.handlers ≡ none → handlers_of t b ≡ []
unfolding handlers_of
handlers_of-none t b e = rw (handlers_of, e) refl

-- The bus where the set at an address holds `hs`.
abbrev pub with_set : ℕ → List ℕ → Bus → Bus
with_set r hs b = record b { heap = put r hs b.heap }

pub with_set-IsApart : (r : ℕ) (hs : List ℕ) (b : Bus) → IsApart b → IsApart (with_set r hs b)
with_set-IsApart r hs b w = record {
  in_heap = λ t q e. subst (λ n. q < n) (sym (length-put r hs b.heap)) (w.in_heap t q e);
  apart = w.apart;
}

-- A change of the set of one type is seen at that type alone.
pub handlers_of-with_set :
    (t u : String) (r : ℕ) (hs : List ℕ) (b : Bus)
    → IsApart b
    → get t b.handlers ≡ some r
    → handlers_of u (with_set r hs b) ≡ (if str_eq t u then hs else handlers_of u b)
handlers_of-with_set t u r hs b w e = elim (str_eq-cases t u) [
  | inl (y, same) ↦
      let e' : get u b.handlers ≡ some r = subst (λ k. get k b.handlers ≡ some r) same e in
      rw y (handlers_of-some u r (with_set r hs b) e' ∙ at-put_self r hs b.heap (w.in_heap t r e))
  | inr (f, other) ↦ rw f (elim (Option-cases (get u b.handlers)) [
    | inl n ↦ handlers_of-none u (with_set r hs b) n ∙ sym (handlers_of-none u b n)
    | inr (q, e') ↦
        handlers_of-some u q (with_set r hs b) e'
        ∙ at-put_ne r q hs b.heap
            (λ p. other (w.apart t u r e (subst (λ k. get u b.handlers ≡ some k) p e')))
        ∙ sym (handlers_of-some u q b e')
  ])
]

-- The set of a type is there after getOrCreate, and no handlers have changed.
pub record Created (t : String) (b : Bus) (r : ℕ) (b' : Bus) : Type 0 where
  pub entry : get t b'.handlers ≡ some r
  pub apart : IsApart b'
  pub same : (u : String) → handlers_of u b' ≡ handlers_of u b
  pub wild : b'.wildcard_handlers ≡ b.wildcard_handlers

abbrev pub with_new : String → Bus → Bus
with_new t b = record b { heap = b.heap ++ [] ∷ []; handlers = set t (length b.heap) b.handlers }

at-length : (heap : List (List ℕ)) → at (length heap) heap ≡ []
unfolding at
at-length [] = refl
at-length (s ∷ heap) = at-length heap

with_new-IsApart : (t : String) (b : Bus) → IsApart b → IsApart (with_new t b)
with_new-IsApart t b w = record {
  in_heap = λ u r e.
      (let longer = length-append b.heap ([] ∷ []) in
        elim (set-entry t u (length b.heap) r b.handlers e) [
          | inl (same, p) ↦ omega arith
          | inr old ↦ (let lt = w.in_heap u r old in omega arith)
        ]);
  apart = λ u v r e e'. elim (set-entry t u (length b.heap) r b.handlers e) [
    | inl (same, p) ↦ elim (set-entry t v (length b.heap) r b.handlers e') [
      | inl (same', p') ↦ sym same ∙ same'
      | inr old' ↦ absurd (let lt = w.in_heap v r old' in omega arith)
    ]
    | inr old ↦ elim (set-entry t v (length b.heap) r b.handlers e') [
      | inl (same', p') ↦ absurd (let lt = w.in_heap u r old in omega arith)
      | inr old' ↦ w.apart u v r old old'
    ]
  ];
}

handlers_of-with_new :
    (t u : String) (b : Bus)
    → get t b.handlers ≡ none
    → handlers_of u (with_new t b) ≡ handlers_of u b
handlers_of-with_new t u b n = elim (str_eq-cases t u) [
  | inl (y, same) ↦
      subst (λ k. handlers_of k (with_new t b) ≡ handlers_of k b) same
        (handlers_of-some t (length b.heap) (with_new t b)
            (get-set_self t (length b.heap) b.handlers)
          ∙ at-append (length b.heap) b.heap
          ∙ at-length b.heap
          ∙ sym (handlers_of-none t b n))
  | inr (f, other) ↦
      let kept = get-set_ne t u (length b.heap) b.handlers (λ p. other (sym p)) in
      elim (Option-cases (get u b.handlers)) [
        | inl m ↦ handlers_of-none u (with_new t b) (kept ∙ m) ∙ sym (handlers_of-none u b m)
        | inr (q, e) ↦
            handlers_of-some u q (with_new t b) (kept ∙ e)
            ∙ at-append q b.heap
            ∙ sym (handlers_of-some u q b e)
      ]
]

pub get_or_create-Created :
    (t : String) (b : Bus) → IsApart b → Created t b (get_or_create t b).0 (get_or_create t b).1
unfolding get_or_create
get_or_create-Created t b w = elim (Option-cases (get t b.handlers)) [
  | inl n ↦
      rw (get_or_create, n)
        (record {
          entry = get-set_self t (length b.heap) b.handlers;
          apart = with_new-IsApart t b w;
          same = λ u. handlers_of-with_new t u b n;
          wild = refl;
        })
  | inr (r, e) ↦
      rw (get_or_create, e) (record { entry = e; apart = w; same = λ u. refl; wild = refl })
]
