-- ===== src/Presentation/WebSockets.antt =====
-- src/presentation/handlers/websocket.handler.ts. A socket is its id; its data lives in a heap, since a
-- socket keeps it when it is closed. An authentication is begun by a message and ends when the token
-- service answers, with other calls in between. JSON is a parameter; what `ws.send` throws is caught.
pub mod Messages
pub mod Runs
pub mod Delivery
mod Tests
use onlyapi.Base.{
  Bool, List, Map, Option, String, [], false, filter, get, if◌then◌else◌, length, map, none, not,
  set, some, str_eq, true, ℕ, ◌&&◌, ◌++◌, ◌||◌, ◌∷◌, ◌*◌,
}
use onlyapi.Core.Results.{Outcome, err, ok}
use onlyapi.Security.TokenService.{JwtPayload}

pub record WsConnectionData : Type 0 where
  pub id : String
  pub auth : Option JwtPayload
  pub connected_at : ℕ
  pub ip : String
  pub subscriptions : List String

-- The fields of a client's message; `none` is undefined.
pub record ClientMessage : Type 0 where
  pub type_ : Option String
  pub token : Option String
  pub events : Option (List String)

-- What `JSON.parse` makes of a text: it throws, it gives null, or a value whose fields are read.
pub data Parsed : Type 0 where
  invalid : Parsed
  null_value : Parsed
  message : ClientMessage → Parsed

pub data ServerMessage : Type 0 where
  connected : String → ServerMessage
  pong : ServerMessage
  auth_ok : Option String → ServerMessage
  auth_failed : String → ServerMessage
  subscribed : List String → ServerMessage
  error_message : String → ServerMessage
  unknown_type : Option String → ServerMessage
  event_message : String → ServerMessage

-- `connections` are the open sockets, `waiting` the calls of `authenticateToken` that wait, each with
-- its socket and token, and `sent` what was given to `ws.send`.
pub record Manager : Type 0 where
  pub sockets : Map WsConnectionData
  pub connections : List String
  pub waiting : List (String × String)
  pub sent : List (String × ServerMessage)

pub create_manager : Manager
create_manager = record { sockets = []; connections = []; waiting = []; sent = [] }

-- The operations of a `Set` of texts.
pub contains : String → List String → Bool
contains e [] = false
contains e (f ∷ fs) = str_eq f e || contains e fs

pub set_add : String → List String → List String
unfolding contains
set_add e fs = if contains e fs then fs else fs ++ e ∷ []

pub set_delete : String → List String → List String
set_delete e fs = filter (λ f. not (str_eq f e)) fs

pub add_all : List String → List String → List String
unfolding set_add
add_all [] fs = fs
add_all (e ∷ es) fs = add_all es (set_add e fs)

pub delete_all : List String → List String → List String
unfolding set_delete
delete_all [] fs = fs
delete_all (e ∷ es) fs = delete_all es (set_delete e fs)

pub send_json : String → ServerMessage → Manager → Manager
send_json ws answer s = record s { sent = s.sent ++ (ws, answer) ∷ [] }

-- The token of the query string is read, and changes nothing.
pub handle_upgrade : String → ℕ → String → Option String → WsConnectionData
handle_upgrade id now ip token = record {
  id = id;
  auth = none;
  connected_at = now;
  ip = ip;
  subscriptions = [];
}

-- The run time makes a socket of the data that `handleUpgrade` returned, and opens it.
pub on_open : WsConnectionData → Manager → Manager
unfolding send_json set_add
on_open conn s =
    send_json conn.id (connected conn.id) (record s {
      sockets = set conn.id conn s.sockets;
      connections = set_add conn.id s.connections;
    })

-- `msg.events ?? []`
abbrev pub events_of : ClientMessage → List String
events_of msg = elim msg.events [ none ↦ [] | some es ↦ es ]

pub on_auth : WsConnectionData → ClientMessage → Manager → Manager
unfolding send_json
on_auth conn msg s = elim msg.token [
  | none ↦ send_json conn.id (auth_failed "Missing token") s
  | some token ↦
      if str_eq token ""
      then send_json conn.id (auth_failed "Missing token") s
      else record s { waiting = s.waiting ++ (conn.id, token) ∷ [] }
]

-- The continuation of `authenticateToken`, with the token service's answer.
pub authenticated : String → Outcome JwtPayload → Manager → Manager
unfolding send_json
authenticated ws (ok payload) s = elim (get ws s.sockets) [
  | none ↦ s
  | some conn ↦
      send_json ws (auth_ok payload.sub)
        (record s { sockets = set ws (record conn { auth = some payload }) s.sockets })
]
authenticated ws (err e) s = send_json ws (auth_failed "Invalid token") s

pub on_subscribe : WsConnectionData → ClientMessage → Manager → Manager
unfolding send_json add_all
on_subscribe conn msg s = elim conn.auth [
  | none ↦ send_json conn.id (error_message "Not authenticated") s
  | some payload ↦
      let subscriptions = add_all (events_of msg) conn.subscriptions in
      send_json conn.id (subscribed subscriptions) (record s {
        sockets = set conn.id (record conn { subscriptions = subscriptions }) s.sockets;
      })
]

pub on_unsubscribe : WsConnectionData → ClientMessage → Manager → Manager
unfolding send_json delete_all
on_unsubscribe conn msg s =
    let subscriptions = delete_all (events_of msg) conn.subscriptions in
    send_json conn.id (subscribed subscriptions)
      (record s { sockets = set conn.id (record conn { subscriptions = subscriptions }) s.sockets })

-- The switch over `msg.type`.
pub on_type : WsConnectionData → ClientMessage → Manager → Manager
unfolding send_json on_auth on_subscribe on_unsubscribe
on_type conn msg s = elim msg.type_ [
  | none ↦ send_json conn.id (unknown_type none) s
  | some t ↦
      if str_eq t "ping"
      then send_json conn.id pong s
      else if str_eq t "auth"
      then on_auth conn msg s
      else if str_eq t "subscribe"
      then on_subscribe conn msg s
      else if str_eq t "unsubscribe"
      then on_unsubscribe conn msg s
      else send_json conn.id (unknown_type (some t)) s
]

-- A message on a socket. Of null no field is read: that throws, and leaves the manager as it is.
pub on_message : (String → Parsed) → String → String → Manager → Manager
unfolding send_json on_type
on_message parse ws raw s = elim (get ws s.sockets) [
  | none ↦ s
  | some conn ↦ elim (parse raw) [
    | invalid ↦ send_json conn.id (error_message "Invalid JSON") s
    | null_value ↦ s
    | message msg ↦ on_type conn msg s
  ]
]

pub on_close : String → Manager → Manager
unfolding set_delete
on_close ws s = record s { connections = set_delete ws s.connections }

-- The test of `broadcast`, on a socket's data.
pub hears : String → WsConnectionData → Bool
unfolding contains
hears type_ conn = elim conn.auth [
  | none ↦ false
  | some payload ↦ contains type_ conn.subscriptions || contains "*" conn.subscriptions
]

pub is_recipient : String → Map WsConnectionData → String → Bool
unfolding hears
is_recipient type_ sockets ws = elim (get ws sockets) [
  | none ↦ false
  | some conn ↦ hears type_ conn
]

pub recipients : String → Manager → List String
unfolding is_recipient
recipients type_ s = filter (is_recipient type_ s.sockets) s.connections

-- An event of a type; `payload` is its JSON.
pub broadcast : String → String → Manager → Manager
unfolding recipients
broadcast type_ payload s = record s {
  sent = s.sent ++ map (λ ws. (ws, event_message payload)) (recipients type_ s);
}

pub connection_count : Manager → ℕ
connection_count s = length s.connections
