-- ===== src/Backend/Connection.antt =====
-- handleConnection of backend/src/websocket/connection-handler.ts: what a socket's events do.
pub mod Unauthenticated
pub mod Signing
pub mod Verified
use private_communication.Common.{
  ℕ, ◌+◌, ◌-◌, String, Bool, true, false, not, ◌&&◌, Option, none, some, List, [], str_eq, ltb,
  if◌then◌else◌, Map,
}
use private_communication.Pcbk.Value.{Value, str, Fields, get, is_string}
use private_communication.Backend.Events.{auth_challenge, error, peer_offline}
use private_communication.Backend.Limits.{
  RateState, EventRateState, create_rate_state, count_message, within_limit, admit_event,
  count_auth, within_auth_limit,
}
use private_communication.Backend.Redis.{clear_active_call_session, set_user_offline}
use private_communication.Backend.Sessions.{remove_session}
use private_communication.Backend.World.{
  Server, World, AuthState, Connection, AuthResponse, emit, close, on_redis, tell_others,
  record_auth_failure, record_rate_limit_rejection,
}
use private_communication.Backend.Calls.{schedule_call_disconnect_grace}
use private_communication.Backend.Messages.{
  Then, is_object, handle_register_key, handle_send_message, handle_get_peers, handle_message_ack,
  handle_message_read, handle_get_receipts, handle_receipt_ack,
}
use private_communication.Backend.Signals.{handle_signal}
use private_communication.Backend.Auth.{Stepped, handle_auth_response}

-- What getMessageSize and rawToString make of the data of a message.
pub record Frame : Type 0 where
  pub size : ℕ
  pub text : String

-- A message with the shape that the handler asks for.
pub record Incoming : Type 0 where
  pub event : String
  pub event_data : Value

abbrev pub incoming_of : Option String → Fields → Option Incoming
incoming_of none fs = none
incoming_of (some event) fs = some (record { event = event; event_data = get "data" fs })

abbrev pub fields_incoming : Option Fields → Option Incoming
fields_incoming none = none
fields_incoming (some fs) = incoming_of (is_string (get "event" fs)) fs

-- A text that is no JSON throws, which the handler's catch only logs; a message of another shape is
-- only logged too.
abbrev pub read_incoming : Option Value → Option Incoming
read_incoming none = none
read_incoming (some value) = fields_incoming (is_object value)

-- The events of the switch.
pub data EventKind : Type 0 where
  auth_response register_key send_message signal get_peers message_ack message_read : EventKind
  get_receipts receipt_ack unknown : EventKind

unfoldable pub event_kind : String → EventKind
event_kind event =
    if str_eq event "auth_response"
    then auth_response
    else if str_eq event "register_key"
    then register_key
    else if str_eq event "send_message"
    then send_message
    else if str_eq event "signal"
    then signal
    else if str_eq event "get_peers"
    then get_peers
    else if str_eq event "message_ack"
    then message_ack
    else if str_eq event "message_read"
    then message_read
    else if str_eq event "get_receipts"
    then get_receipts
    else if str_eq event "receipt_ack"
    then receipt_ack
    else unknown

module _ (v : Server) where
  unfoldable pub connect : ℕ → String → ℕ → World v.client.State → Stepped v
  connect s nonce now w = (
    record {
      auth = record { nonce = nonce; timestamp = now; authenticated = false; user_id = none };
      timeout_pending = true;
      rate = create_rate_state now;
      event_rates = [];
    },
    emit s (auth_challenge nonce now) now w,
  )

  -- What is done with data that a schema takes, and the answers to data that is no object or that the
  -- schema refuses.
  abbrev pub answer_parsed {ℓ} : {A : Type ℓ} → Option A → ℕ → String → ℕ → (A → Then v) → Then v
  answer_parsed none s reason now act w = emit s (error reason) now w
  answer_parsed (some a) s reason now act w = act a w

  abbrev pub with_data {ℓ} :
      {A : Type ℓ} → Option Fields → Option A → ℕ → String → ℕ → (A → Then v) → Then v
  with_data none parsed s reason now act w = emit s (error "Invalid payload") now w
  with_data (some fs) parsed s reason now act w = answer_parsed parsed s reason now act w

  -- The same without an answer.
  abbrev pub act_parsed {ℓ} : {A : Type ℓ} → Option A → (A → Then v) → Then v
  act_parsed none act w = w
  act_parsed (some a) act w = act a w

  abbrev pub with_quiet_data {ℓ} : {A : Type ℓ} → Option Fields → Option A → (A → Then v) → Then v
  with_quiet_data none parsed act w = w
  with_quiet_data (some fs) parsed act w = act_parsed parsed act w

  unfoldable pub auth_answered :
      ℕ → Option AuthResponse → ℕ → Connection → World v.client.State → Stepped v
  auth_answered s none now k w =
      (k, emit s (error "Invalid auth payload") now (record_auth_failure w))
  auth_answered s (some answer) now k w = handle_auth_response v s answer k now w

  -- The case of `auth_response`, once it is counted.
  unfoldable pub auth_parsed :
      ℕ → Option Fields → Value → ℕ → Connection → World v.client.State → Stepped v
  auth_parsed s none d now k w = (k, emit s (error "Invalid payload") now w)
  auth_parsed s (some fs) d now k w = auth_answered s (v.schemas.auth_response d) now k w

  unfoldable pub auth_event : ℕ → Value → ℕ → Connection → World v.client.State → Stepped v
  auth_event s d now k w =
      let counted = record k { rate = count_auth v.limits k.rate } in
      if within_auth_limit v.limits counted.rate
      then auth_parsed s (is_object d) d now counted w
      else (counted, close s 1013 "Auth rate limit exceeded" (record_rate_limit_rejection w))

  unfoldable pub dispatch :
      EventKind → ℕ → Value → String → ℕ → Connection → World v.client.State → Stepped v
  dispatch auth_response s d fresh now k w = auth_event s d now k w
  dispatch register_key s d fresh now k w = (
    k,
    with_data (is_object d) (v.schemas.register_key d) s "Invalid register payload" now
        (λ parsed. handle_register_key v s k.auth parsed now) w,
  )
  dispatch send_message s d fresh now k w = (
    k,
    with_data (is_object d) (v.schemas.send_message d) s "Invalid message payload" now
        (λ parsed. handle_send_message v s k.auth parsed fresh now) w,
  )
  dispatch signal s d fresh now k w = (
    k,
    with_data (is_object d) (v.schemas.signal d) s "Invalid signal payload" now
        (λ parsed. handle_signal v s k.auth parsed now) w,
  )
  dispatch get_peers s d fresh now k w = (k, handle_get_peers v s k.auth now w)
  dispatch message_ack s d fresh now k w = (
    k,
    with_quiet_data (is_object d) (v.schemas.message_ack d)
        (λ parsed. handle_message_ack v k.auth parsed now) w,
  )
  dispatch message_read s d fresh now k w = (
    k,
    with_quiet_data (is_object d) (v.schemas.message_read d)
        (λ parsed. handle_message_read v k.auth parsed now) w,
  )
  dispatch get_receipts s d fresh now k w = (k, handle_get_receipts v s k.auth now w)
  dispatch receipt_ack s d fresh now k w = (
    k,
    with_quiet_data (is_object d) (v.schemas.receipt_ack d)
        (λ parsed. handle_receipt_ack v k.auth parsed) w,
  )
  dispatch unknown s d fresh now k w = (k, w)

  unfoldable pub admit_incoming :
      Option Incoming → ℕ → String → ℕ → Connection → World v.client.State → Stepped v
  admit_incoming none s fresh now k w = (k, w)
  admit_incoming (some m) s fresh now k w =
      let admitted = admit_event v.limits m.event now k.event_rates in
      let counted = record k { event_rates = admitted.0 } in
      if admitted.1
      then dispatch (event_kind m.event) s m.event_data fresh now counted w
      else (counted, close s 1013 "Event rate limit exceeded" (record_rate_limit_rejection w))

  -- `socket.on('message', ...)`
  unfoldable pub handle_message :
      ℕ → Frame → String → ℕ → Connection → World v.client.State → Stepped v
  handle_message s f fresh now k w =
      let counted = record k { rate = count_message v.limits now k.rate } in
      if ltb v.limits.max_message_bytes f.size
      then (k, close s 1009 "Message too large" w)
      else if within_limit v.limits counted.rate
      then admit_incoming (read_incoming (v.client.parse f.text)) s fresh now counted w
      else (counted, close s 1013 "Rate limit exceeded" (record_rate_limit_rejection w))

  -- The callback of the timeout that waits for the authentication.
  unfoldable pub auth_timeout_over : ℕ → Connection → Then v
  auth_timeout_over s k w =
      if k.timeout_pending && not k.auth.authenticated
      then close s 4001 "Authentication timeout" (record_auth_failure w)
      else w

  unfoldable pub end_session : String → ℕ → Then v
  end_session user now w =
      let scheduled = schedule_call_disconnect_grace v user now w in
      let quiet =
        if scheduled.1
        then scheduled.0
        else on_redis (clear_active_call_session v.client v.settings user) scheduled.0 in
      tell_others (peer_offline user) user now
        (on_redis (set_user_offline v.client v.settings user) quiet)

  abbrev pub end_session_of : Option String → ℕ → Then v
  end_session_of none now w = w
  end_session_of (some user) now w = end_session user now w

  -- `socket.on('close', ...)`: the timers of the connection are cleared, and its session is ended.
  unfoldable pub handle_close : ℕ → ℕ → Connection → World v.client.State → Stepped v
  handle_close s now k w =
      let removed = remove_session s w.manager in
      (
        record k { timeout_pending = false },
        end_session_of removed.1 now (record w { manager = removed.0 }),
      )
