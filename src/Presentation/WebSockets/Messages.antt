-- ===== src/Presentation/WebSockets/Messages.antt =====
-- What the messages received prove of the data of each socket, kept by every message.
use onlyapi.Base.{
  All, All-append, Bool, Bool-cases, List, Map, Option-cases, String, [], ap, arith, eq_iff, false,
  get, set-entry, if◌then◌else◌, inl, inr, refl, set, some, str_eq, subst, sym, true, ℕ, ◌++◌, ◌≡◌,
  ◌⊎◌, ◌∙◌, ◌∷◌,
}
use onlyapi.Core.Results.{Outcome, ok}
use onlyapi.Presentation.WebSockets.{
  ClientMessage, Manager, Parsed, WsConnectionData, add_all, contains, delete_all, events_of,
  message, on_auth, on_subscribe, on_type, on_unsubscribe, send_json, set_add, set_delete,
}
use onlyapi.Security.TokenService.{JwtPayload}

contains-set_add :
    (e f : String) (fs : List String)
    → contains e (set_add f fs) ≡ true
    → (contains e fs ≡ true) ⊎ (f ≡ e)
unfolding set_add contains
contains-set_add e f fs h = elim (Bool-cases (contains f fs)) [
  | inl t ↦ inl (rw t at h)
  | inr n ↦ at_end fs (rw n at h)
]
  where
    at_end :
        (gs : List String) → contains e (gs ++ f ∷ []) ≡ true → (contains e gs ≡ true) ⊎ (f ≡ e)
    at_end [] k = inr ((eq_iff f e).0 (ground arith))
    at_end (g ∷ gs) k = elim (Bool-cases (str_eq g e)) [
      | inl t ↦ inl (rw t refl)
      | inr n ↦ elim (at_end gs (rw n at k)) [ inl p ↦ inl (rw n p) | inr p ↦ inr p ]
    ]

contains-add_all :
    (e : String) (es fs : List String)
    → contains e (add_all es fs) ≡ true
    → (contains e es ≡ true) ⊎ (contains e fs ≡ true)
unfolding add_all contains
contains-add_all e [] fs h = inr h
contains-add_all e (f ∷ es) fs h = elim (contains-add_all e es (set_add f fs) h) [
  | inl p ↦ inl (ground arith)
  | inr p ↦ elim (contains-set_add e f fs p) [
    | inl q ↦ inr q
    | inr q ↦ inl (ground (arith, eq_iff f e))
  ]
]

contains-set_delete :
    (e f : String) (fs : List String) → contains e (set_delete f fs) ≡ true → contains e fs ≡ true
unfolding set_delete contains
contains-set_delete e f [] h = h
contains-set_delete e f (g ∷ fs) h = ground (arith, contains-set_delete e f fs)

contains-delete_all :
    (e : String) (es fs : List String) → contains e (delete_all es fs) ≡ true → contains e fs ≡ true
unfolding delete_all
contains-delete_all e [] fs h = h
contains-delete_all e (f ∷ es) fs h =
    contains-set_delete e f fs (contains-delete_all e es (set_delete f fs) h)

-- Some entry of the history has the property.
abbrev pub Occurs : (String × String → Type 0) → List (String × String) → Type 0
Occurs P [] = ⊥
Occurs P (x ∷ xs) = P x ⊎ Occurs P xs

module _ (parse : String → Parsed) (verify : String → ℕ → Outcome JwtPayload) where
  -- Of the messages received, with their sockets: one on the socket offers the token.
  abbrev pub Offers : List (String × String) → String → String → Type 0
  Offers history ws token =
      Occurs
        (λ x.
          (x.0 ≡ ws)
          × (msg : ClientMessage) × (parse x.1 ≡ message msg)
          × (msg.type_ ≡ some "auth")
          × (msg.token ≡ some token))
        history

  -- One on the socket asks for the type of events.
  abbrev pub Asks : List (String × String) → String → String → Type 0
  Asks history ws type_ =
      Occurs
        (λ x.
          (x.0 ≡ ws)
          × (msg : ClientMessage) × (parse x.1 ≡ message msg)
          × (msg.type_ ≡ some "subscribe")
          × (contains type_ (events_of msg) ≡ true))
        history

  -- The token service accepted, at some time, a token that the socket offered.
  abbrev pub IsTrusted : List (String × String) → String → JwtPayload → Type 0
  IsTrusted history ws payload =
      (token : String) × (at : ℕ) × Offers history ws token × (verify token at ≡ ok payload)

  pub record Sound (history : List (String × String)) (sockets : Map WsConnectionData)
      (waiting : List (String × String)) : Type 0 where
    pub owned : (k : String) (c : WsConnectionData) → get k sockets ≡ some c → c.id ≡ k
    pub trusted :
        (k : String) (c : WsConnectionData) (p : JwtPayload)
        → get k sockets ≡ some c
        → c.auth ≡ some p
        → IsTrusted history k p
    pub asked :
        (k : String) (c : WsConnectionData) (e : String)
        → get k sockets ≡ some c
        → contains e c.subscriptions ≡ true
        → Asks history k e
    pub offered : All (λ x. Offers history x.0 x.1) waiting

  abbrev pub IsSound : List (String × String) → Manager → Type 0
  IsSound history s = Sound history s.sockets s.waiting

  -- A write of a socket's data.
  pub write :
      (history : List (String × String)) (s : Manager) (k : String) (c : WsConnectionData)
      → IsSound history s
      → c.id ≡ k
      → ((p : JwtPayload) → c.auth ≡ some p → IsTrusted history k p)
      → ((e : String) → contains e c.subscriptions ≡ true → Asks history k e)
      → Sound history (set k c s.sockets) s.waiting
  write history s k c h own trust ask = record {
    owned = λ j u g. elim (set-entry k j c u s.sockets g) [
      | inl (same, e) ↦ ap (λ x. x.id) e ∙ own ∙ same
      | inr old ↦ h.owned j u old
    ];
    trusted = λ j u p g a. elim (set-entry k j c u s.sockets g) [
      | inl (same, e) ↦
          subst (λ i. IsTrusted history i p) same (trust p (sym (ap (λ x. x.auth) e) ∙ a))
      | inr old ↦ h.trusted j u p old a
    ];
    asked = λ j u t g a. elim (set-entry k j c u s.sockets g) [
      | inl (same, e) ↦
          subst (λ i. Asks history i t) same
            (ask t (ap (λ x. contains t x.subscriptions) (sym e) ∙ a))
      | inr old ↦ h.asked j u t old a
    ];
    offered = h.offered;
  }

  later_offers :
      (waiting history : List (String × String)) (x : String × String)
      → All (λ y. Offers history y.0 y.1) waiting
      → All (λ y. Offers (x ∷ history) y.0 y.1) waiting
  later_offers [] history x h = tt
  later_offers (w ∷ ws) history x (h, hs) = (inr h, later_offers ws history x hs)

  -- A longer history.
  pub later :
      (history : List (String × String)) (x : String × String) (s : Manager)
      → IsSound history s
      → IsSound (x ∷ history) s
  later history x s h = record {
    owned = h.owned;
    trusted = λ k c p g a. let (token, at, o, v) = h.trusted k c p g a in (token, at, inr o, v);
    asked = λ k c e g a. inr (h.asked k c e g a);
    offered = later_offers s.waiting history x h.offered;
  }

  if-Sound :
      (history : List (String × String)) (b : Bool) (x y : Manager)
      → (b ≡ true → IsSound history x)
      → (b ≡ false → IsSound history y)
      → IsSound history (if b then x else y)
  if-Sound history true x y f g = f refl
  if-Sound history false x y f g = g refl

  module _ (history : List (String × String)) (s : Manager) (k : String) (c : WsConnectionData)
      (sound : IsSound history s) (here : get k s.sockets ≡ some c) where
    own : c.id ≡ k
    own = sound.owned k c here

    auth-Sound :
        (msg : ClientMessage)
        → ((token : String) → msg.token ≡ some token → Offers history k token)
        → IsSound history (on_auth c msg s)
    unfolding on_auth send_json
    auth-Sound msg offer = elim (Option-cases msg.token) [
      | inl n ↦ rw (n, on_auth) sound
      | inr (token, e) ↦
          rw (e, on_auth)
            (if-Sound history (str_eq token "") _ _ (λ b. sound)
              (λ b. record {
                owned = sound.owned;
                trusted = sound.trusted;
                asked = sound.asked;
                offered =
                    All-append (λ x. Offers history x.0 x.1) s.waiting ((c.id, token) ∷ [])
                      sound.offered
                      (subst (λ i. Offers history i token) (sym own) (offer token e), tt);
              }))
    ]

    subscribe-Sound :
        (msg : ClientMessage)
        → ((e : String) → contains e (events_of msg) ≡ true → Asks history k e)
        → IsSound history (on_subscribe c msg s)
    unfolding on_subscribe send_json
    subscribe-Sound msg ask = elim (Option-cases c.auth) [
      | inl n ↦ rw (n, on_subscribe) sound
      | inr (p, a) ↦
          let c' = record c { subscriptions = add_all (events_of msg) c.subscriptions } in
          rw (a, on_subscribe)
            (subst (λ i. Sound history (set i c' s.sockets) s.waiting) (sym own)
              (write history s k c' sound own (λ q b. sound.trusted k c q here b)
                (λ e t. elim (contains-add_all e (events_of msg) c.subscriptions t) [
                  | inl new ↦ ask e new
                  | inr old ↦ sound.asked k c e here old
                ])))
    ]

    unsubscribe-Sound : (msg : ClientMessage) → IsSound history (on_unsubscribe c msg s)
    unfolding on_unsubscribe send_json
    unsubscribe-Sound msg =
        let c' = record c { subscriptions = delete_all (events_of msg) c.subscriptions } in
        subst (λ i. Sound history (set i c' s.sockets) s.waiting) (sym own)
          (write history s k c' sound own (λ q b. sound.trusted k c q here b)
            (λ e t.
              sound.asked k c e here (contains-delete_all e (events_of msg) c.subscriptions t)))

    pub type-Sound :
        (raw : String) (msg : ClientMessage) (rest : List (String × String))
        → history ≡ (k, raw) ∷ rest
        → parse raw ≡ message msg
        → IsSound history (on_type c msg s)
    unfolding on_type send_json
    type-Sound raw msg rest first parsed = elim (Option-cases msg.type_) [
      | inl n ↦ rw (n, on_type) sound
      | inr (t, e) ↦
          let named : (w : String) → str_eq t w ≡ true → msg.type_ ≡ some w =
            λ w b. e ∙ ap some ((eq_iff t w).0 b) in
          rw (e, on_type)
            (if-Sound history (str_eq t "ping") _ _ (λ b. sound)
              (λ _.
                if-Sound history (str_eq t "auth") _ _
                  (λ b. auth-Sound msg (λ token o.
                    subst (λ h. Offers h k token) (sym first)
                      (inl (refl, msg, parsed, named "auth" b, o))))
                  (λ _.
                    if-Sound history (str_eq t "subscribe") _ _
                      (λ b. subscribe-Sound msg (λ f o.
                        subst (λ h. Asks h k f) (sym first)
                          (inl (refl, msg, parsed, named "subscribe" b, o))))
                      (λ _.
                        if-Sound history (str_eq t "unsubscribe") _ _ (λ b. unsubscribe-Sound msg)
                          (λ b. sound)))))
    ]
