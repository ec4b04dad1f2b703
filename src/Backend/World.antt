-- ===== src/Backend/World.antt =====
-- The state that the handlers of backend/src/websocket/connection-handler.ts share, and what they take
-- from outside. A handler runs from its first line to its last with one reading of the clock: what
-- other handlers do while it awaits Redis is not modelled.
use private_communication.Common.{
  ℕ, ◌+◌, String, Bool, Option, none, List, ◌∷◌, if◌then◌else◌, Map, present, string_key,
}
use private_communication.Pcbk.Value.{Value, Number}
use private_communication.Backend.Events.{ServerEvent, SignalType, CallType, DeliveryReceiptStatus}
use private_communication.Backend.Limits.{Limits, RateState, EventRateState}
use private_communication.Backend.Redis.{Client, Settings}
use private_communication.Backend.Queue.{QueuedMessage}
use private_communication.Backend.Sessions.{
  SessionManager, Network, send_event, send_to_user, broadcast, close_socket,
}

pub record AuthState : Type 0 where
  pub nonce : String
  pub timestamp : ℕ
  pub authenticated : Bool
  pub user_id : Option String

-- What handleConnection keeps for a socket: its closure's variables, and whether the timeout of the
-- authentication is still to come.
pub record Connection : Type 0 where
  pub auth : AuthState
  pub timeout_pending : Bool
  pub rate : RateState
  pub event_rates : Map String EventRateState

-- What the schemas of the events give.
pub record AuthResponse : Type 0 where
  pub user_id : String
  pub signature : String
  pub encryption_public_key : String
  pub signing_public_key : String

pub record RegisterKeyData : Type 0 where
  pub encryption_public_key : Option String
  pub signing_public_key : Option String

pub record SenderKeys : Type 0 where
  pub encryption_public_key : String
  pub signing_public_key : String
  pub fingerprint : Option String

pub record SendMessageData : Type 0 where
  pub recipient_id : String
  pub payload : Value
  pub signature : String
  pub timestamp : Option Number
  pub id : Option String
  pub sender_keys : Option SenderKeys

pub record SignalEventData : Type 0 where
  pub kind : SignalType
  pub target_id : String
  pub payload : Value
  pub call_type : Option CallType
  pub renegotiate : Option Bool
  pub ice_restart : Option Bool
  pub force_relay : Option Bool
  pub reason : Option String

pub record MessageAckData : Type 0 where
  pub message_id : String
  pub sender_id : Option String

pub record MessageReadData : Type 0 where
  pub message_id : String
  pub sender_id : String

pub record ReceiptAckData : Type 0 where
  pub message_id : String
  pub status : Option DeliveryReceiptStatus

-- `schema.safeParse(value)` of zod, for each schema: `none` where it does not succeed.
pub record Schemas : Type 0 where
  pub auth_response : Value → Option AuthResponse
  pub register_key : Value → Option RegisterKeyData
  pub send_message : Value → Option SendMessageData
  pub signal : Value → Option SignalEventData
  pub message_ack : Value → Option MessageAckData
  pub message_read : Value → Option MessageReadData
  pub receipt_ack : Value → Option ReceiptAckData
  pub queued_message : Value → Option QueuedMessage

-- The environment of the server. `verify` is verifySignature on the nonce, the signature and the key
-- that spkiToPem writes, which ask Node's crypto.
pub record Server : Type 1 where
  pub client : Client
  pub settings : Settings
  pub limits : Limits
  pub schemas : Schemas
  pub verify : (nonce signature key : String) → Bool
  pub auth_timeout : ℕ
  pub call_disconnect_grace_ms : ℕ

pub data PushPayload : Type 0 where
  new_message : (sender : String) → PushPayload
  incoming_call : (sender : String) → Option CallType → (url : String) → PushPayload

-- A call of sendPushToUser of services/push.ts, which only hands the payload to Web Push.
pub record Push : Type 0 where
  pub user : String
  pub payload : PushPayload

-- `peers` is activeCallPeers; `timers` is disconnectGraceTimers, with the time when each is due.
pub record World (R : Type 0) : Type 0 where
  pub manager : SessionManager
  pub network : Network
  pub peers : Map String String
  pub timers : Map String ℕ
  pub redis : R
  pub pushes : List Push
  pub auth_failures : ℕ
  pub rate_rejections : ℕ

module _ {R : Type 0} where
  abbrev pub emit : ℕ → ServerEvent → ℕ → World R → World R
  emit s event now w = record w { network = send_event s event now w.network }

  abbrev pub close : ℕ → ℕ → String → World R → World R
  close s code reason w = record w { network = close_socket s code reason w.network }

  abbrev pub send_user : String → ServerEvent → ℕ → World R → (World R × Bool)
  send_user user event now w =
      let sent = send_to_user user event now w.manager w.network in
      (record w { network = sent.0 }, sent.1)

  abbrev pub tell : String → ServerEvent → ℕ → World R → World R
  tell user event now w = (send_user user event now w).0

  abbrev pub tell_others : ServerEvent → String → ℕ → World R → World R
  tell_others event user now w = record w { network = broadcast event user now w.manager w.network }

  abbrev pub on_redis : (R → R) → World R → World R
  on_redis f w = record w { redis = f w.redis }

  abbrev pub send_push : String → PushPayload → World R → World R
  send_push user payload w = record w {
    pushes = record { user = user; payload = payload } ∷ w.pushes;
  }

  abbrev pub record_auth_failure : World R → World R
  record_auth_failure w = record w { auth_failures = w.auth_failures + 1 }

  abbrev pub record_rate_limit_rejection : World R → World R
  record_rate_limit_rejection w = record w { rate_rejections = w.rate_rejections + 1 }

-- The user of a connection that is authenticated: `!authState.authenticated || !authState.userId` is
-- the test of the handlers that there is none.
unfoldable pub signed_in : AuthState → Option String
signed_in auth = if auth.authenticated then present auth.user_id else none
