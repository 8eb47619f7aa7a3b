-- ===== src/Presentation/WebSockets/Delivery.antt =====
-- Whatever happens, in whatever order, an event goes only to clients that proved who they are.
use onlyapi.Base.{
  All, Bool, Bool-cases, List, Option-cases, String, [], arith, filter, get, inl, inr, none, refl,
  some, map, str_eq-cases, str_eq_self, true, ℕ, ◌++◌, ◌||◌, ◌≡◌, ◌⊎◌, ◌∷◌, kept,
}
use onlyapi.Core.Results.{Outcome}
use onlyapi.Presentation.WebSockets.{
  Manager, Parsed, WsConnectionData, broadcast, contains, event_message, hears, is_recipient,
  recipients, ServerMessage,
}
use onlyapi.Presentation.WebSockets.Messages.{Asks, IsSound, IsTrusted}
use onlyapi.Presentation.WebSockets.Runs.{Run, Run-Sound}
use onlyapi.Security.TokenService.{JwtPayload}

-- What is left of a list by a test.
filtered :
    (Q : String → Type 0) (p : String → Bool) (xs : List String)
    → ((x : String) → contains x xs ≡ true → p x ≡ true → Q x)
    → All Q (filter p xs)
unfolding contains
filtered Q p [] f = tt
filtered Q p (x ∷ xs) f =
    let rest = filtered Q p xs (λ y c t. f y (ground arith) t) in
    elim (Bool-cases (p x)) [
      | inl t ↦ rw t (f x (ground (arith, str_eq_self x)) t, rest)
      | inr n ↦ rw n rest
    ]

contains-filter :
    (p : String → Bool) (xs : List String) (x : String)
    → contains x xs ≡ true
    → p x ≡ true
    → contains x (filter p xs) ≡ true
unfolding contains
contains-filter p [] x c t = absurd cc
contains-filter p (y ∷ xs) x c t = elim (str_eq-cases y x) [
  | inl (test, same) ↦ let hit : p y ≡ true = rw same t in rw hit (rw (test, contains) refl)
  | inr (test, other) ↦
      let rest = contains-filter p xs x (ground arith) t in
      elim (Bool-cases (p y)) [
        | inl kept ↦ rw kept (rw (test, contains) rest)
        | inr cut ↦ rw cut rest
      ]
]

-- The messages of a broadcast to a list of sockets.
All-sent :
    (Q : String → Type 0) (m : ServerMessage) (xs : List String)
    → All Q xs
    → All (λ (x : String × ServerMessage). (x.1 ≡ m) × Q x.0) (map (λ ws. (ws, m)) xs)
All-sent Q m [] all = tt
All-sent Q m (x ∷ xs) (q, all) = ((refl, q), All-sent Q m xs all)

receivers-sent :
    (m : ServerMessage) (xs : List String)
    → map (λ (x : String × ServerMessage). x.0) (map (λ ws. (ws, m)) xs) ≡ xs
receivers-sent m [] = refl
receivers-sent m (x ∷ xs) = rw (receivers-sent m xs) refl

module _ (parse : String → Parsed) (verify : String → ℕ → Outcome JwtPayload) where
  -- What is known of a client that is sent events of a type.
  abbrev pub IsEntitled : List (String × String) → Manager → String → String → Type 0
  IsEntitled h s type_ ws =
      (contains ws s.connections ≡ true)
      × (payload : JwtPayload) × IsTrusted parse verify h ws payload
      × (Asks parse verify h ws type_ ⊎ Asks parse verify h ws "*")

  recipients-IsEntitled :
      (h : List (String × String)) (s : Manager) (type_ : String)
      → Run parse verify h s
      → All (IsEntitled h s type_) (recipients type_ s)
  unfolding recipients is_recipient hears
  recipients-IsEntitled h s type_ r =
      filtered (IsEntitled h s type_) (is_recipient type_ s.sockets) s.connections
        (λ ws up t. entitled ws up (Option-cases (get ws s.sockets)) t)
    where
      sound : IsSound parse verify h s
      sound = Run-Sound parse verify r

      entitled :
          (ws : String)
          → contains ws s.connections ≡ true
          → (get ws s.sockets ≡ none) ⊎ ((c : WsConnectionData) × (get ws s.sockets ≡ some c))
          → is_recipient type_ s.sockets ws ≡ true
          → IsEntitled h s type_ ws
      entitled ws up (inl n) t = absurd cc
      entitled ws up (inr (c, g)) t = elim (Option-cases c.auth) [
        | inl n ↦ absurd cc
        | inr (p, a) ↦
            let either : (contains type_ c.subscriptions || contains "*" c.subscriptions) ≡ true =
              ground arith in
            let asks =
              elim (Bool-cases (contains type_ c.subscriptions))
                as (λ x. Asks parse verify h ws type_ ⊎ Asks parse verify h ws "*") [
                  | inl d ↦ inl (sound.asked ws c type_ g d)
                  | inr d ↦ inr (sound.asked ws c "*" g (ground arith))
                ] in
            (up, p, sound.trusted ws c p g a, asks)
      ]

  -- In every manager that calls lead to, a broadcast sends the event, and nothing else, to every open
  -- socket that is authenticated and subscribed to the type or to all types; and only to open sockets
  -- that offered, in an auth message of their own, a token that the token service accepted, and asked,
  -- in a subscribe message of their own, for events of the type or of all types.
  pub broadcast-IsEntitled :
      (h : List (String × String)) (s : Manager) (type_ payload : String)
      → Run parse verify h s
      → (new : List (String × ServerMessage)) × ((broadcast type_ payload s).sent ≡ s.sent ++ new)
        × All
            (λ (m : String × ServerMessage).
              (m.1 ≡ event_message payload) × IsEntitled h s type_ m.0)
            new
        × ((ws : String) (c : WsConnectionData)
            → contains ws s.connections ≡ true
            → get ws s.sockets ≡ some c
            → hears type_ c ≡ true
            → contains ws (map (λ (m : String × ServerMessage). m.0) new) ≡ true)
  unfolding broadcast recipients is_recipient
  broadcast-IsEntitled h s type_ payload r = (
    map (λ ws. (ws, event_message payload)) (recipients type_ s),
    refl,
    All-sent (IsEntitled h s type_) (event_message payload) (recipients type_ s)
        (recipients-IsEntitled h s type_ r),
    λ ws c up g t.
        let hit : is_recipient type_ s.sockets ws ≡ true = rw (g, is_recipient) t in
        rw (receivers-sent (event_message payload) (recipients type_ s))
          (contains-filter (is_recipient type_ s.sockets) s.connections ws up hit),
  )
