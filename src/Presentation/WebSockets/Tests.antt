-- ===== src/Presentation/WebSockets/Tests.antt =====
-- Runs of the manager, and its theorem after an authentication and a subscription.
use onlyapi.Base.{
  All, List, String, [], get, if◌then◌else◌, none, refl, set, some, str_eq, ℕ, ◌≡◌, ◌∷◌, ◌++◌, map,
  true,
}
use onlyapi.Core.Errors.{app_error, unauthorized}
use onlyapi.Core.Results.{Outcome, err, ok}
use onlyapi.Presentation.WebSockets.{
  Manager, Parsed, authenticated, broadcast, connected, contains, create_manager, error_message,
  handle_upgrade, invalid, message, on_message, on_open, recipients, event_message, hears,
  ServerMessage, WsConnectionData,
}
use onlyapi.Presentation.WebSockets.Delivery.{IsEntitled, broadcast-IsEntitled}
use onlyapi.Presentation.WebSockets.Runs.{Run, answers, opens, receives, starts}
use onlyapi.Security.TokenService.{JwtPayload}

-- JSON for three messages.
abbrev parse : String → Parsed
parse raw =
    if str_eq raw "auth"
    then message (record { type_ = some "auth"; token = some "t"; events = none })
    else if str_eq raw "sub"
    then message (record { type_ = some "subscribe"; token = none; events = some ("e" ∷ []) })
    else invalid

abbrev ann : JwtPayload
ann = record { sub = some "ann"; role = some "user" }

abbrev verify : String → ℕ → Outcome JwtPayload
verify token at = if str_eq token "t" then ok ann else err (app_error unauthorized "Invalid token")

abbrev opened : Manager
opened = on_open (handle_upgrade "s" 1 "ip" none) create_manager

abbrev offered : Manager
offered = on_message parse "s" "auth" opened

abbrev accepted : Manager
accepted = authenticated "s" (verify "t" 5) (record offered { waiting = [] })

abbrev asked : Manager
asked = on_message parse "s" "sub" accepted

abbrev history : List (String × String)
history = ("s", "sub") ∷ ("s", "auth") ∷ []

ran : Run parse verify history asked
unfolding on_open on_message authenticated handle_upgrade create_manager get set contains
ran =
    receives
      (answers (receives (opens starts "s" 1 "ip" none refl) "s" "auth" refl) "s" "t" [] [] 5 refl)
      "s" "sub" refl

broadcast-IsEntitled_example :
    (new : List (String × ServerMessage)) × ((broadcast "e" "{}" asked).sent ≡ asked.sent ++ new)
    × All
        (λ (m : String × ServerMessage).
          (m.1 ≡ event_message "{}") × IsEntitled parse verify history asked "e" m.0)
        new
    × ((ws : String) (c : WsConnectionData)
        → contains ws asked.connections ≡ true
        → get ws asked.sockets ≡ some c
        → hears "e" c ≡ true
        → contains ws (map (λ (m : String × ServerMessage). m.0) new) ≡ true)
broadcast-IsEntitled_example = broadcast-IsEntitled parse verify history asked "e" "{}" ran

one_recipient : recipients "e" asked ≡ "s" ∷ []
unfolding on_open on_message authenticated handle_upgrade create_manager get set contains recipients
one_recipient = refl

-- A subscription before the authentication is refused.
too_early :
    (on_message parse "s" "sub" opened).sent
    ≡ ("s", connected "s") ∷ ("s", error_message "Not authenticated") ∷ []
unfolding on_open on_message handle_upgrade create_manager get set contains
too_early = refl

nothing_sent : (broadcast "e" "{}" opened).sent ≡ ("s", connected "s") ∷ []
unfolding on_open handle_upgrade create_manager get set contains broadcast
nothing_sent = refl
