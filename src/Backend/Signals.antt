-- ===== src/Backend/Signals.antt =====
-- handleSignal of backend/src/websocket/connection-handler.ts: the signalling of calls.
pub mod Answers
pub mod Peers
pub mod Symmetric
use Prim.Native.String.{◌++◌ as str_append}
use private_communication.Common.{
  ℕ, ◌+◌, ◌*◌, String, Bool, true, false, not, ◌&&◌, ◌||◌, Option, none, some, str_eq,
  if◌then◌else◌, Map,
}
use private_communication.Pcbk.Value.{
  Value, obj, bare, undefined, get, is_undefined, is_text, is_string,
}
use private_communication.Backend.Events.{
  ServerEvent, error, signal, signal_failed, call_busy, SignalType, offer, answer, candidate,
  hangup, CallType, audio, video,
}
use private_communication.Backend.Redis.{
  Offer, set_pending_incoming_call, clear_pending_incoming_call, is_user_online,
}
use private_communication.Backend.World.{
  Server, World, AuthState, SignalEventData, incoming_call, emit, send_user, on_redis, send_push,
  signed_in,
}
use private_communication.Backend.Calls.{
  peer_of, set_call_pair, persist_call_pair_state, persist_caller_call_state, clear_call_pair_state,
}
use private_communication.Backend.Messages.{Then, when_signed_in}

abbrev pub is_offer : SignalType → Bool
is_offer offer = true
is_offer answer = false
is_offer candidate = false
is_offer hangup = false

abbrev pub is_answer : SignalType → Bool
is_answer answer = true
is_answer offer = false
is_answer candidate = false
is_answer hangup = false

abbrev pub is_hangup : SignalType → Bool
is_hangup hangup = true
is_hangup offer = false
is_hangup answer = false
is_hangup candidate = false

-- `callType === 'video' ? 'video' : 'audio'`
abbrev pub call_type_or_audio : Option CallType → CallType
call_type_or_audio none = audio
call_type_or_audio (some audio) = audio
call_type_or_audio (some video) = video

abbrev pub is_set : Option Bool → Bool
is_set none = false
is_set (some b) = b

-- `!renegotiate && !iceRestart`
abbrev pub starts_call : SignalEventData → Bool
starts_call d = not (is_set d.renegotiate) && not (is_set d.ice_restart)

-- `value?.[key]`
abbrev pub property : String → Value → Value
property key (obj fs) = get key fs
property key (bare fs) = get key fs
property key _ = undefined

unfoldable pub pending_offer : Value → Option Offer
pending_offer payload =
    if is_text "offer" (property "type" payload)
    then some (record { kind = "offer"; sdp = is_string (property "sdp" payload) })
    else none

-- Another user with whom the user is in a call.
abbrev pub other_than : Option String → String → Bool
other_than none user = false
other_than (some peer) user = not (str_eq peer user)

-- Why an offer is refused, if it is.
unfoldable pub busy_reason : String → String → Map String String → Option String
busy_reason caller target peers =
    if other_than (peer_of caller peers) target
    then some "caller_already_in_call"
    else if other_than (peer_of target peers) caller
    then some "target_in_call"
    else none

abbrev pub forwarded : String → SignalEventData → ServerEvent
forwarded sender d = signal (record {
  kind = d.kind;
  sender_id = sender;
  payload = d.payload;
  call_type = d.call_type;
  renegotiate = d.renegotiate;
  ice_restart = d.ice_restart;
  force_relay = d.force_relay;
  reason = d.reason;
})

module _ (v : Server) where
  abbrev pub store_pending : Option Offer → String → SignalEventData → ℕ → Then v
  store_pending none caller d now w = w
  store_pending (some o) caller d now w =
      on_redis
        (set_pending_incoming_call v.client v.settings d.target_id caller o
          (call_type_or_audio d.call_type) now)
        w

  unfoldable pub push_if_offline : String → SignalEventData → Then v
  push_if_offline caller d w =
      let online = is_user_online v.client v.settings d.target_id w.redis in
      let asked = record w { redis = online.0 } in
      if online.1
      then asked
      else send_push d.target_id (incoming_call caller d.call_type (str_append "/call/" caller))
          asked

  unfoldable pub announce_call : String → SignalEventData → ℕ → Then v
  announce_call caller d now w =
      if starts_call d
      then push_if_offline caller d (store_pending (pending_offer d.payload) caller d now w)
      else w

  unfoldable pub start_offer : String → SignalEventData → ℕ → Then v
  start_offer caller d now w = announce_call caller d now (
      persist_caller_call_state v caller d.target_id (call_type_or_audio d.call_type) now
        (record w { peers = set_call_pair caller d.target_id w.peers }))

  unfoldable pub signal_not_sent : ℕ → SignalEventData → ℕ → Then v
  signal_not_sent s d now w =
      let retryable = is_offer d.kind && starts_call d in
      emit s
        (signal_failed (record {
          target_id = d.target_id;
          signal_type = d.kind;
          retryable = retryable;
          expires_at =
              if retryable then some (now + v.settings.incoming_call_ttl_seconds * 1000) else none;
          reason = if retryable then "Awaiting peer to come online" else "User not online";
        }))
        now w

  unfoldable pub answered : String → SignalEventData → ℕ → Then v
  answered caller d now w =
      let taken = on_redis (clear_pending_incoming_call v.client v.settings caller d.target_id) w in
      persist_call_pair_state v caller d.target_id (call_type_or_audio d.call_type) now
        (record taken { peers = set_call_pair caller d.target_id taken.peers })

  unfoldable pub forward : ℕ → String → SignalEventData → ℕ → Then v
  forward s caller d now w =
      let sent = send_user d.target_id (forwarded caller d) now w in
      if sent.1
      then (if is_answer d.kind then answered caller d now sent.0 else sent.0)
      else signal_not_sent s d now sent.0

  -- From the check of the payload on.
  unfoldable pub pass_on : ℕ → String → SignalEventData → ℕ → Then v
  pass_on s caller d now w =
      if not (is_hangup d.kind) && is_undefined d.payload
      then emit s (error "Missing payload") now w
      else forward s caller d now
          (if is_hangup d.kind then clear_call_pair_state v caller d.target_id w else w)

  abbrev pub offer_unless : Option String → ℕ → String → SignalEventData → ℕ → Then v
  offer_unless (some reason) s caller d now w = emit s (call_busy d.target_id reason) now w
  offer_unless none s caller d now w = pass_on s caller d now (start_offer caller d now w)

  unfoldable pub signal_from : ℕ → SignalEventData → ℕ → String → Then v
  signal_from s d now caller w =
      if is_offer d.kind
      then offer_unless (busy_reason caller d.target_id w.peers) s caller d now w
      else pass_on s caller d now w

  unfoldable pub handle_signal : ℕ → AuthState → SignalEventData → ℕ → Then v
  handle_signal s auth d now = when_signed_in v (signed_in auth) s now (signal_from s d now)
