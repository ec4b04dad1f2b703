-- ===== src/Tests/Servers.antt =====
-- Runs of the server's handlers, with a Redis that is kept in maps.
mod Sessions
mod Limits
mod Delivery
mod Calls
mod Connections
use private_communication.Common.{
  ℕ, ◌≡◌, ◌≢◌, ◌≤◌, ◌<◌, ◌⊎◌, refl, inl, inr, ap, sym, ◌∙◌, String, Bool, true, false, not, Option,
  none, some, List, [], ◌∷◌, ◌++◌, arith, set, str_eq, ◌==◌, if◌then◌else◌, Map, lookup, insert,
  erase, string_key, number_key, present, lookup-insert_self, All,
}
use private_communication.Pcbk.Value.{
  Value, str, num, nat, obj, field, end, undefined, get, checks, is_undefined,
}
use private_communication.Backend.Events.{answer, offer, hangup}
use private_communication.Backend.Limits.{default_limits, create_rate_state, get_event_limit}
use private_communication.Backend.Redis.{Client, Settings}
use private_communication.Backend.Queue.{QueuedMessage, parsed_message, has_id}
use private_communication.Backend.Queue.Removal.{
  remove_first, IsIndexed, remove_queued_message_first,
}
use private_communication.Backend.Sessions.{
  UserSession, SessionManager, Network, empty_manager, add_session, get_user_id, close_existing,
  register, new_session,
}
use private_communication.Backend.World.{
  Server, World, AuthState, Connection, Schemas, AuthResponse, SendMessageData, SignalEventData,
  signed_in,
}

-- The lists of the keys are all that these runs look at.
abbrev pub Store : Type 0
Store = Map String (List String)

abbrev pub items : Option (List String) → List String
items none = []
items (some xs) = xs

abbrev pub list_of : String → Store → List String
list_of key r = items (lookup key r)

abbrev pub sample : SendMessageData
sample = record {
  recipient_id = "bob";
  payload = str "hello";
  signature = "s";
  timestamp = some (nat 7);
  id = some "m1";
  sender_keys = none;
}

abbrev pub sample_value : Value
sample_value = obj (
    field "id" (str "m1") (
      field "senderId" (str "alice") (
        field "recipientId" (str "bob") (
          field "timestamp" (num (nat 7))
            (field "payload" (str "hello") (field "signature" (str "s") end))))))

abbrev pub read_text : String → Option Value
read_text text =
    if str_eq text "m1"
    then some sample_value
    else if str_eq text "send"
    then some (obj (field "event" (str "send_message") (field "data" sample_value end)))
    else if str_eq text "answer"
    then some (obj (field "event" (str "auth_response") (field "data" sample_value end)))
    else none

abbrev pub memory : Client
memory = record {
  State = Store;
  get = λ key r. none;
  set = λ key value r. insert key (value ∷ []) r;
  set_ex = λ key value ttl r. r;
  exists = λ key r. 0;
  del = λ key r. erase key r;
  expire = λ key ttl r. r;
  pipeline_exists = λ keys r. none;
  sadd = λ key value r. r;
  srem = λ key values r. r;
  smembers = λ key r. [];
  rpush = λ key value r. insert key (list_of key r ++ (value ∷ [])) r;
  lrange = λ key r. list_of key r;
  lset = λ key i value r. insert key (set (list_of key r) i value) r;
  lrem = λ key n value r. insert key (remove_first value (list_of key r)) r;
  hget = λ key value r. none;
  hmget = λ key values r. [];
  hset = λ key name value r. r;
  hdel = λ key names r. r;
  zadd = λ key score value r. r;
  zrem = λ key values r. r;
  zcard = λ key r. 0;
  zrange = λ key r. [];
  zrange_first = λ key n r. [];
  stringify = λ v. "m1";
  parse = read_text;
}

abbrev pub schema_id : Value → Option QueuedMessage
schema_id v = some (record { id = "m1"; sender_id = some "alice" })

abbrev pub server : Server
server = record {
  client = memory;
  settings = record {
    message_ttl = 604800;
    receipt_queue_limit = 1000;
    incoming_call_ttl_seconds = 90;
    active_call_session_ttl_seconds = 180;
    online_user_ttl_seconds = 90;
  };
  limits = default_limits;
  schemas = record {
    auth_response = λ v. some (record {
      user_id = "alice";
      signature = "good";
      encryption_public_key = "e";
      signing_public_key = "k";
    });
    register_key = λ v. none;
    send_message = λ v. some sample;
    signal = λ v. none;
    message_ack = λ v. none;
    message_read = λ v. none;
    receipt_ack = λ v. none;
    queued_message = schema_id;
  };
  verify = λ nonce signature key. str_eq signature "good";
  auth_timeout = 30000;
  call_disconnect_grace_ms = 30000;
}

-- Every socket is open.
abbrev pub quiet : Network
quiet = record { is_open = λ s. true; outbox = []; closings = [] }

abbrev pub alice_session : UserSession
alice_session = record { user_id = "alice"; socket = 1; public_key = "k"; authenticated_at = 5 }

-- alice on socket 1, bob on socket 2.
abbrev pub both : SessionManager
both = record {
  sessions =
      ("alice", alice_session)
      ∷ ("bob", record { user_id = "bob"; socket = 2; public_key = "k"; authenticated_at = 6 })
      ∷ [];
  socket_to_user = (1, "alice") ∷ (2, "bob") ∷ [];
}

abbrev pub world : SessionManager → Map String String → World Store
world m peers = record {
  manager = m;
  network = quiet;
  peers = peers;
  timers = [];
  redis = [];
  pushes = [];
  auth_failures = 0;
  rate_rejections = 0;
}

abbrev pub challenged : AuthState
challenged = record { nonce = "n"; timestamp = 0; authenticated = false; user_id = none }

abbrev pub as_alice : AuthState
as_alice = record { nonce = "n"; timestamp = 0; authenticated = true; user_id = some "alice" }

abbrev pub connection : AuthState → Connection
connection auth = record {
  auth = auth;
  timeout_pending = true;
  rate = create_rate_state 0;
  event_rates = [];
}
