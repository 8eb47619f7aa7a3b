-- ===== src/Presentation/WebSockets/Runs.antt =====
-- What calls lead a manager of src/presentation/handlers/websocket.handler.ts to, in any order.
use onlyapi.Base.{
  All, All-append, All-split, List, Option, Option-cases, String, [], get, inl, inr, none, refl,
  some, some_inj, subst, true, ℕ, ◌++◌, ◌≡◌, ◌⊎◌, ◌∷◌,
}
use onlyapi.Core.Results.{Outcome, Outcome-cases, ok}
use onlyapi.Presentation.WebSockets.{
  Manager, Parsed, authenticated, broadcast, contains, create_manager, handle_upgrade, invalid,
  message, null_value, on_close, on_message, on_open, send_json, ClientMessage,
}
use onlyapi.Presentation.WebSockets.Messages.{IsSound, Offers, later, type-Sound, write}
use onlyapi.Security.TokenService.{JwtPayload}

Parsed-cases :
    (r : Parsed) → (r ≡ invalid) ⊎ (r ≡ null_value) ⊎ ((msg : ClientMessage) × (r ≡ message msg))
Parsed-cases invalid = inl refl
Parsed-cases null_value = inr (inl refl)
Parsed-cases (message msg) = inr (inr (msg, refl))

module _ (parse : String → Parsed) (verify : String → ℕ → Outcome JwtPayload) where
  -- The managers that calls lead to, with the messages received, the last one first. A socket is opened
  -- under a new id, messages come on open sockets, and the token service answers the calls that wait in
  -- any order and at any time.
  pub data Run : List (String × String) → Manager → Type 0 where
    starts : Run [] create_manager
    opens :
        {h : List (String × String)} {s : Manager}
        → Run h s
        → (id : String) (now : ℕ) (ip : String) (token : Option String) → get id s.sockets ≡ none
        → Run h (on_open (handle_upgrade id now ip token) s)
    receives :
        {h : List (String × String)} {s : Manager}
        → Run h s
        → (ws raw : String) → contains ws s.connections ≡ true
        → Run ((ws, raw) ∷ h) (on_message parse ws raw s)
    answers :
        {h : List (String × String)} {s : Manager}
        → Run h s
        → (ws token : String) (before after : List (String × String)) (at : ℕ)
        → s.waiting ≡ before ++ (ws, token) ∷ after
        → Run h (authenticated ws (verify token at) (record s { waiting = before ++ after }))
    closes :
        {h : List (String × String)} {s : Manager} → Run h s → (ws : String) → Run h (on_close ws s)
    broadcasts :
        {h : List (String × String)} {s : Manager}
        → Run h s
        → (type_ payload : String) → Run h (broadcast type_ payload s)

  message-Sound :
      (h : List (String × String)) (s : Manager) (ws raw : String)
      → IsSound parse verify h s
      → IsSound parse verify ((ws, raw) ∷ h) (on_message parse ws raw s)
  unfolding on_message send_json
  message-Sound h s ws raw sound =
      let sound' = later parse verify h (ws, raw) s sound in
      elim (Option-cases (get ws s.sockets)) [
        | inl n ↦ rw (n, on_message) sound'
        | inr (c, g) ↦ elim (Parsed-cases (parse raw)) [
          | inl i ↦ rw (g, i, on_message) sound'
          | inr (inl n) ↦ rw (g, n, on_message) sound'
          | inr (inr (msg, e)) ↦
              rw (g, e, on_message)
                (type-Sound parse verify ((ws, raw) ∷ h) s ws c sound' g raw msg h refl e)
        ]
      ]

  open-Sound :
      (h : List (String × String)) (s : Manager) (id : String) (now : ℕ) (ip : String)
      (token : Option String)
      → IsSound parse verify h s
      → IsSound parse verify h (on_open (handle_upgrade id now ip token) s)
  unfolding on_open handle_upgrade send_json contains
  open-Sound h s id now ip token sound =
      write parse verify h s id (handle_upgrade id now ip token) sound refl (λ p a. absurd cc)
        (λ e c. absurd cc)

  answer-Sound :
      (h : List (String × String)) (s : Manager) (ws token : String)
      (before after : List (String × String)) (at : ℕ)
      → s.waiting ≡ before ++ (ws, token) ∷ after
      → IsSound parse verify h s
      → IsSound parse verify h
          (authenticated ws (verify token at) (record s { waiting = before ++ after }))
  unfolding authenticated send_json
  answer-Sound h s ws token before after at w sound =
      let Q = λ (x : String × String). Offers parse verify h x.0 x.1 in
      let (front, (mine, back)) =
        All-split Q before ((ws, token) ∷ after) (subst (All Q) w sound.offered) in
      let s' = record s { waiting = before ++ after } in
      let sound' : IsSound parse verify h s' = record {
        owned = sound.owned;
        trusted = sound.trusted;
        asked = sound.asked;
        offered = All-append Q before after front back;
      } in
      elim (Outcome-cases (verify token at)) [
        | inl (e, bad) ↦ rw (bad, authenticated) sound'
        | inr (p, good) ↦ elim (Option-cases (get ws s.sockets)) [
          | inl n ↦ rw (good, n, authenticated) sound'
          | inr (c, g) ↦
              rw (good, g, authenticated)
                (write parse verify h s' ws (record c { auth = some p }) sound' (sound.owned ws c g)
                  (λ q a. (token, at, mine, subst (λ x. verify token at ≡ ok x) (some_inj a) good))
                  (λ e t. sound.asked ws c e g t))
        ]
      ]

  pub Run-Sound : {h : List (String × String)} {s : Manager} → Run h s → IsSound parse verify h s
  unfolding create_manager on_close broadcast get
  Run-Sound starts = record {
    owned = λ k c g. absurd cc;
    trusted = λ k c p g a. absurd cc;
    asked = λ k c e g a. absurd cc;
    offered = tt;
  }
  Run-Sound {h} (opens {s = s} r id now ip token new) = open-Sound h s id now ip token (Run-Sound r)
  Run-Sound (receives {h = h} {s = s} r ws raw up) = message-Sound h s ws raw (Run-Sound r)
  Run-Sound {h} (answers {s = s} r ws token before after at w) =
      answer-Sound h s ws token before after at w (Run-Sound r)
  Run-Sound (closes r ws) = Run-Sound r
  Run-Sound (broadcasts r type_ payload) = Run-Sound r
