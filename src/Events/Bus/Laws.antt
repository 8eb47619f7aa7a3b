-- ===== src/Events/Bus/Laws.antt =====
-- Subscribing, unsubscribing and publishing, by the handlers that an event reaches.
use onlyapi.Base.{
  str_eq_self, append_assoc, Bool, List, Option-cases, String, [], absent_some, ap, ap₂, arith,
  delete, false, get, get-delete_ne, get-delete_self, if◌then◌else◌, inl, inr, length, none, refl,
  some, str_eq-cases, str_eq, subst, sym, true, ℕ, ◌++◌, ◌≡◌, ◌∙◌, ◌∷◌, ◌⊎◌, kept,
}
use onlyapi.Events.Bus.{
  Bus, Ending, Log, Subscription, add, at, get_or_create, has, invoke_all, invoke_handler, publish,
  remove, subscribe, unsubscribe,
}
use onlyapi.Events.Bus.Delivery.{
  with_new, at-append, length-put, IsApart, at-put_self, at-put_ne, get_or_create-Created,
  handlers_of, handlers_of-with_set, handlers_of-none, handlers_of-some, with_set, with_set-IsApart,
}

-- After a subscription the handler comes last among those of its type, unless it is there; those of
-- the other types and the wildcard handlers stay, and the sets stay apart.
pub subscribe-handlers_of :
    (t u : String) (h : ℕ) (b : Bus)
    → IsApart b
    → let b' = (subscribe t h b).1 in
      (handlers_of u b' ≡ (if str_eq t u then add h (handlers_of t b) else handlers_of u b))
      × (b'.wildcard_handlers ≡ b.wildcard_handlers)
      × IsApart b'
      × (get t b'.handlers ≡ some (subscribe t h b).0.address)
unfolding subscribe
subscribe-handlers_of t u h b w =
    let made = get_or_create-Created t b w in
    let r = (get_or_create t b).0 in
    let b' = (get_or_create t b).1 in
    let hs = add h (at r b'.heap) in
    let was = ap (add h) (sym (handlers_of-some t r b' made.entry) ∙ made.same t) in
    let there = handlers_of-with_set t u r hs b' made.apart made.entry in
    (
      there ∙ ap₂ (λ x y. if str_eq t u then x else y) was (made.same u),
      made.wild,
      with_set-IsApart r hs b' made.apart,
      made.entry,
    )

List-cases : (hs : List ℕ) → (hs ≡ []) ⊎ ((g : ℕ) × (gs : List ℕ) × (hs ≡ g ∷ gs))
List-cases [] = inl refl
List-cases (g ∷ gs) = inr (g, gs, refl)

abbrev without : String → Bus → Bus
without t b = record b { handlers = delete t b.handlers }

-- What unsubscribe does where it empties the set, and where it does not.
unsubscribe_last :
    (s : Subscription) (b : Bus)
    → remove s.handler (at s.address b.heap) ≡ []
    → unsubscribe s b ≡ without s.type_ (with_set s.address [] b)
unfolding unsubscribe
unsubscribe_last s b e =
    rw (unsubscribe, e) (ap (λ hs. without s.type_ (with_set s.address hs b)) e)

unsubscribe_others :
    (s : Subscription) (b : Bus) (g : ℕ) (gs : List ℕ)
    → remove s.handler (at s.address b.heap) ≡ g ∷ gs
    → unsubscribe s b ≡ with_set s.address (g ∷ gs) b
unfolding unsubscribe
unsubscribe_others s b g gs e = rw (unsubscribe, e) (ap (λ hs. with_set s.address hs b) e)

delete_entry :
    (t u : String) (r : ℕ) (b : Bus)
    → get u (delete t b.handlers) ≡ some r
    → get u b.handlers ≡ some r
delete_entry t u r b e = elim (str_eq-cases t u) [
  | inl (y, same) ↦ absurd (
      absent_some
        (sym e ∙ ap (λ k. get k (delete t b.handlers)) (sym same) ∙ get-delete_self t b.handlers))
  | inr (f, other) ↦ sym (get-delete_ne t u b.handlers (λ p. other (sym p))) ∙ e
]

without-IsApart : (t : String) (b : Bus) → IsApart b → IsApart (without t b)
without-IsApart t b w = record {
  in_heap = λ u r e. w.in_heap u r (delete_entry t u r b e);
  apart = λ u v r e e'. w.apart u v r (delete_entry t u r b e) (delete_entry t v r b e');
}

handlers_of-without :
    (t u : String) (b : Bus)
    → handlers_of u (without t b) ≡ (if str_eq t u then [] else handlers_of u b)
unfolding handlers_of
handlers_of-without t u b = elim (str_eq-cases t u) [
  | inl (y, same) ↦ rw y (
      handlers_of-none u (without t b)
        (ap (λ k. get k (delete t b.handlers)) (sym same) ∙ get-delete_self t b.handlers))
  | inr (f, other) ↦ rw f (
      ap (λ o. elim o as (λ x. List ℕ) [ none ↦ [] | some r ↦ at r b.heap ])
        (get-delete_ne t u b.handlers (λ p. other (sym p))))
]

-- What a bus is after the handler of a subscription is taken out.
abbrev pub Unsubscribed : Subscription → String → Bus → Bus → Type 0
Unsubscribed s u b b' =
    (handlers_of u b'
      ≡ (if str_eq s.type_ u then remove s.handler (handlers_of s.type_ b) else handlers_of u b))
    × (b'.wildcard_handlers ≡ b.wildcard_handlers)
    × IsApart b'

nested_if :
    (c : Bool) (hs gs : List ℕ)
    → (if c then [] else (if c then gs else hs)) ≡ (if c then [] else hs)
nested_if true hs gs = refl
nested_if false hs gs = refl

-- The first call of the function that a subscription returned, while its set is the type's, takes
-- the handler out of that type and changes no other.
unsubscribe-handlers_of :
    (s : Subscription) (u : String) (b : Bus)
    → IsApart b
    → get s.type_ b.handlers ≡ some s.address
    → Unsubscribed s u b (unsubscribe s b)
unsubscribe-handlers_of s u b w e =
    let was = handlers_of-some s.type_ s.address b e in
    let branch = λ (hs : List ℕ). if str_eq s.type_ u then hs else handlers_of u b in
    elim (List-cases (remove s.handler (at s.address b.heap))) [
      | inl z ↦
          let b' = with_set s.address [] b in
          let emptied =
            handlers_of-without s.type_ u b'
            ∙ ap (λ hs. if str_eq s.type_ u then [] else hs)
                (handlers_of-with_set s.type_ u s.address [] b w e)
            ∙ nested_if (str_eq s.type_ u) (handlers_of u b) [] in
          subst (Unsubscribed s u b) (sym (unsubscribe_last s b z)) (
            emptied ∙ ap branch (sym (ap (remove s.handler) was ∙ z)),
            refl,
            without-IsApart s.type_ b' (with_set-IsApart s.address [] b w),
          )
      | inr (g, gs, z) ↦ subst (Unsubscribed s u b) (sym (unsubscribe_others s b g gs z)) (
        handlers_of-with_set s.type_ u s.address (g ∷ gs) b w e
            ∙ ap branch (sym (ap (remove s.handler) was ∙ z)),
        refl,
        with_set-IsApart s.address (g ∷ gs) b w,
      )
    ]

-- A call of that function when its set is empty takes every handler of the type away, also those
-- that were subscribed to a newer set.
pub unsubscribe_stale :
    (s : Subscription) (b : Bus)
    → at s.address b.heap ≡ []
    → handlers_of s.type_ (unsubscribe s b) ≡ []
unfolding remove
unsubscribe_stale s b e =
    ap (handlers_of s.type_) (unsubscribe_last s b (ap (remove s.handler) e))
    ∙ handlers_of-without s.type_ s.type_ (with_set s.address [] b)
    ∙ ap (λ c. if c then [] else handlers_of s.type_ (with_set s.address [] b))
        (str_eq_self s.type_)

-- What the handlers of a list have logged.
pub logs_of : (ℕ → Ending) → List ℕ → List Log
logs_of ending [] = []
logs_of ending (h ∷ hs) = invoke_handler ending h ++ logs_of ending hs

logs_of-append :
    (ending : ℕ → Ending) (hs gs : List ℕ)
    → logs_of ending (hs ++ gs) ≡ logs_of ending hs ++ logs_of ending gs
unfolding logs_of
logs_of-append ending [] gs = refl
logs_of-append ending (h ∷ hs) gs =
    ap (λ l. invoke_handler ending h ++ l) (logs_of-append ending hs gs)
    ∙ sym (append_assoc (invoke_handler ending h) (logs_of ending hs) (logs_of ending gs))

invoke_all_lem :
    (ending : ℕ → Ending) (hs : List ℕ) → invoke_all ending hs ≡ (hs, logs_of ending hs)
unfolding invoke_all logs_of
invoke_all_lem ending [] = refl
invoke_all_lem ending (h ∷ hs) =
    ap (λ r. (h ∷ r.0, invoke_handler ending h ++ r.1)) (invoke_all_lem ending hs)

typed_lem :
    (ending : ℕ → Ending) (t : String) (b : Bus)
    → elim (get t b.handlers) as (λ x. List ℕ × List Log) [
      | none ↦ ([], [])
      | some r ↦ invoke_all ending (at r b.heap)
    ]
      ≡ (handlers_of t b, logs_of ending (handlers_of t b))
unfolding logs_of
typed_lem ending t b = elim (Option-cases (get t b.handlers)) [
  | inl n ↦ rw (handlers_of-none t b n, n) refl
  | inr (r, e) ↦ rw (handlers_of-some t r b e, e) (invoke_all_lem ending (at r b.heap))
]

-- An event reaches the handlers of its type and then the wildcard handlers, all of them, however
-- each of them ends; and each one that throws, or whose promise is rejected, is logged.
pub publish-handlers_of :
    (ending : ℕ → Ending) (t : String) (b : Bus)
    → let called = handlers_of t b ++ b.wildcard_handlers in
      publish ending t b ≡ (called, logs_of ending called)
unfolding publish
publish-handlers_of ending t b =
    let joined : List ℕ × List Log → List ℕ × List Log → List ℕ × List Log =
      λ x y. (x.0 ++ y.0, x.1 ++ y.1) in
    ap₂ joined (typed_lem ending t b) (invoke_all_lem ending b.wildcard_handlers)
    ∙ ap (λ l. (handlers_of t b ++ b.wildcard_handlers, l))
        (sym (logs_of-append ending (handlers_of t b) b.wildcard_handlers))

-- The set of a type that has none is the newest.
subscribe_new :
    (t : String) (g : ℕ) (b : Bus)
    → get t b.handlers ≡ none
    → (subscribe t g b).1
      ≡ with_set (length b.heap) (add g (at (length b.heap) (b.heap ++ [] ∷ []))) (with_new t b)
unfolding subscribe get_or_create
subscribe_new t g b n = rw (subscribe, get_or_create, n) refl

-- Where a subscription's handler is the only one of its type: it is unsubscribed, another is
-- subscribed, and then the first unsubscribe function is called again. Before that call the other is
-- the only handler of the type, and after it there is none.
unsubscribe-twice :
    (s : Subscription) (g : ℕ) (b : Bus)
    → IsApart b
    → get s.type_ b.handlers ≡ some s.address
    → handlers_of s.type_ b ≡ s.handler ∷ []
    → let b' = (subscribe s.type_ g (unsubscribe s b)).1 in
      (handlers_of s.type_ b' ≡ g ∷ []) × (handlers_of s.type_ (unsubscribe s b') ≡ [])
unfolding remove add has
unsubscribe-twice s g b w e held =
    let empties : remove s.handler (at s.address b.heap) ≡ [] =
      ap (remove s.handler) (sym (handlers_of-some s.type_ s.address b e) ∙ held) ∙ ground arith in
    let b2 = without s.type_ (with_set s.address [] b) in
    let n2 = get-delete_self s.type_ b.handlers in
    let w2 =
      without-IsApart s.type_ (with_set s.address [] b) (with_set-IsApart s.address [] b w) in
    let (first, kept, w3, entry) = subscribe-handlers_of s.type_ s.type_ g b2 w2 in
    let lt = w.in_heap s.type_ s.address e in
    let same = length-put s.address [] b.heap in
    let newest = add g (at (length b2.heap) (b2.heap ++ [] ∷ [])) in
    let old : at s.address (subscribe s.type_ g b2).1.heap ≡ [] =
      ap (λ x. at s.address x.heap) (subscribe_new s.type_ g b2 n2)
      ∙ at-put_ne (length b2.heap) s.address newest (b2.heap ++ [] ∷ []) (λ p. omega arith)
      ∙ at-append s.address b2.heap
      ∙ at-put_self s.address [] b.heap lt in
    subst
      (λ x.
        let x' = (subscribe s.type_ g x).1 in
        (handlers_of s.type_ x' ≡ g ∷ []) × (handlers_of s.type_ (unsubscribe s x') ≡ []))
      (sym (unsubscribe_last s b empties))
      (
        first
            ∙ ap (λ c. if c then add g (handlers_of s.type_ b2) else handlers_of s.type_ b2)
                (str_eq_self s.type_)
            ∙ ap (add g) (handlers_of-none s.type_ b2 n2),
        unsubscribe_stale s (subscribe s.type_ g b2).1 old,
      )

pub unsubscribe-IsApart : (s : Subscription) (b : Bus) → IsApart b → IsApart (unsubscribe s b)
unsubscribe-IsApart s b w = elim (List-cases (remove s.handler (at s.address b.heap))) [
  | inl z ↦
      subst IsApart (sym (unsubscribe_last s b z))
        (without-IsApart s.type_ (with_set s.address [] b) (with_set-IsApart s.address [] b w))
  | inr (g, gs, z) ↦
      subst IsApart (sym (unsubscribe_others s b g gs z)) (with_set-IsApart s.address (g ∷ gs) b w)
]
