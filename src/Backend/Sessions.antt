-- ===== src/Backend/Sessions.antt =====
-- backend/src/services/session-manager.ts: the maps between users and their sockets.
pub mod Consistent
pub mod Removed
pub mod Stale
use private_communication.Common.{
  ℕ, String, Bool, true, false, not, ◌&&◌, Option, none, some, List, [], ◌∷◌, map, str_eq, ◌==◌,
  if◌then◌else◌, Map, present, lookup, insert, erase, number_key, string_key,
}
use private_communication.Backend.Events.{ServerEvent}

-- A socket is known by its number.
pub record UserSession : Type 0 where
  pub user_id : String
  pub socket : ℕ
  pub public_key : String
  pub authenticated_at : ℕ

pub record SessionManager : Type 0 where
  pub sessions : Map String UserSession
  pub socket_to_user : Map ℕ String

-- `JSON.stringify({ event, data, timestamp })`, before it is made a text, and where it went.
pub record Sent : Type 0 where
  pub socket : ℕ
  pub event : ServerEvent
  pub timestamp : ℕ

pub record Closed : Type 0 where
  pub socket : ℕ
  pub code : ℕ
  pub reason : String

-- The sockets: which are OPEN, and what was written to them and closed, the latest first.
pub record Network : Type 0 where
  pub is_open : ℕ → Bool
  pub outbox : List Sent
  pub closings : List Closed

-- `socket.send(...)`
abbrev pub send_message : ℕ → ServerEvent → ℕ → Network → Network
send_message s event now n = record n {
  outbox = record { socket = s; event = event; timestamp = now } ∷ n.outbox;
}

-- `socket.close(code, reason)`: the socket is CLOSING from here on.
abbrev pub close_socket : ℕ → ℕ → String → Network → Network
close_socket s code reason n = record {
  is_open = λ t. not (t == s) && n.is_open t;
  outbox = n.outbox;
  closings = record { socket = s; code = code; reason = reason } ∷ n.closings;
}

-- sendEvent of websocket/connection-handler.ts
abbrev pub send_event : ℕ → ServerEvent → ℕ → Network → Network
send_event s event now n = if n.is_open s then send_message s event now n else n

unfoldable pub empty_manager : SessionManager
empty_manager = record { sessions = []; socket_to_user = [] }

unfoldable pub new_session : String → ℕ → String → ℕ → UserSession
new_session user s key now = record {
  user_id = user;
  socket = s;
  public_key = key;
  authenticated_at = now;
}

-- The part of addSession that closes the user's earlier session.
unfoldable pub close_existing :
    Option UserSession → (SessionManager × Network) → (SessionManager × Network)
close_existing none w = w
close_existing (some old) w = (
  record w.0 { socket_to_user = erase old.socket w.0.socket_to_user },
  close_socket old.socket 1000 "New session opened" w.1,
)

unfoldable pub register : String → ℕ → String → ℕ → SessionManager → SessionManager
unfolding new_session
register user s key now m = record {
  sessions = insert user (new_session user s key now) m.sessions;
  socket_to_user = insert s user m.socket_to_user;
}

unfoldable pub add_session :
    String → ℕ → String → ℕ → (SessionManager × Network) → (SessionManager × Network)
add_session user s key now w =
    let closed = close_existing (lookup user w.0.sessions) w in
    (register user s key now closed.0, closed.1)

unfoldable pub remove_user : Option String → ℕ → SessionManager → (SessionManager × Option String)
remove_user none s m = (m, none)
remove_user (some user) s m = (
  record { sessions = erase user m.sessions; socket_to_user = erase s m.socket_to_user },
  some user,
)

unfoldable pub remove_session : ℕ → SessionManager → (SessionManager × Option String)
remove_session s m = remove_user (present (lookup s m.socket_to_user)) s m

abbrev pub socket_of : Option UserSession → Option ℕ
socket_of none = none
socket_of (some session) = some session.socket

unfoldable pub get_socket : String → SessionManager → Option ℕ
get_socket user m = socket_of (lookup user m.sessions)

unfoldable pub get_user_id : ℕ → SessionManager → Option String
get_user_id s m = lookup s m.socket_to_user

abbrev pub open_session : Option UserSession → Network → Bool
open_session none n = false
open_session (some session) n = n.is_open session.socket

unfoldable pub is_connected : String → SessionManager → Network → Bool
is_connected user m n = open_session (lookup user m.sessions) n

unfoldable pub get_connected_users : SessionManager → List String
get_connected_users m = map (λ entry. entry.0) m.sessions

-- The loop of broadcast, over the entries of `sessions`.
unfoldable pub broadcast_to : Map String UserSession → ServerEvent → String → ℕ → Network → Network
broadcast_to [] event excluded now n = n
broadcast_to (entry ∷ rest) event excluded now n = broadcast_to rest event excluded now (
    if not (str_eq entry.0 excluded) && n.is_open entry.1.socket
    then send_message entry.1.socket event now n
    else n)

unfoldable pub broadcast : ServerEvent → String → ℕ → SessionManager → Network → Network
broadcast event excluded now m n = broadcast_to m.sessions event excluded now n

-- sendToUser: the network, and whether the message was sent.
abbrev pub send_to_session : Option UserSession → ServerEvent → ℕ → Network → (Network × Bool)
send_to_session none event now n = (n, false)
send_to_session (some session) event now n =
    if n.is_open session.socket then (send_message session.socket event now n, true) else (n, false)

unfoldable pub send_to_user : String → ServerEvent → ℕ → SessionManager → Network → (Network × Bool)
send_to_user user event now m n = send_to_session (lookup user m.sessions) event now n
