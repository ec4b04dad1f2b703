-- ===== src/Backend/Calls.antt =====
-- The calls between users, in backend/src/websocket/connection-handler.ts: the pairs in memory, the
-- timers that end a call after its user is gone, and the sessions in Redis.
pub mod Symmetric
use private_communication.Common.{
  ℕ, ◌+◌, String, Bool, true, false, not, ◌&&◌, Option, none, some, List, [], ◌∷◌, str_eq,
  if◌then◌else◌, Map, present, lookup, insert, erase, string_key,
}
use private_communication.Pcbk.Value.{Value, undefined}
use private_communication.Backend.Events.{
  ServerEvent, SignalType, offer, answer, hangup, CallType, audio, signal, signal_failed,
}
use private_communication.Backend.Redis.{
  Client, Settings, set_active_call_session, clear_active_call_session, clear_pending_incoming_call,
}
use private_communication.Backend.Sessions.{is_connected}
use private_communication.Backend.World.{Server, World, on_redis, tell}

-- `activeCallPeers.get(user)`, where an empty text counts as none.
unfoldable pub peer_of : String → Map String String → Option String
peer_of user peers = present (lookup user peers)

unfoldable pub set_call_pair : String → String → Map String String → Map String String
set_call_pair a b peers = insert b a (insert a b peers)

abbrev pub is_user : Option String → String → Bool
is_user none user = false
is_user (some other) user = str_eq other user

abbrev pub clear_peer : Option String → String → Map String String → Map String String
clear_peer none user peers = peers
clear_peer (some peer) user peers =
    if is_user (lookup peer peers) user then erase peer peers else peers

unfoldable pub clear_call_for_user : String → Map String String → Map String String
clear_call_for_user user peers = clear_peer (peer_of user peers) user (erase user peers)

-- A signal that ends a call: what is undefined is left out of what is sent.
abbrev pub hangup_from : String → String → ServerEvent
hangup_from sender reason = signal (record {
  kind = hangup;
  sender_id = sender;
  payload = undefined;
  call_type = none;
  renegotiate = none;
  ice_restart = none;
  force_relay = none;
  reason = some reason;
})

module _ (v : Server) where
  abbrev pub clear_disconnect_grace_timer : String → World v.client.State → World v.client.State
  clear_disconnect_grace_timer user w = record w { timers = erase user w.timers }

  unfoldable pub persist_call_pair_state :
      String → String → CallType → ℕ → World v.client.State → World v.client.State
  persist_call_pair_state a b call_type now w =
      on_redis
        (λ r.
          set_active_call_session v.client v.settings b a call_type now
            (set_active_call_session v.client v.settings a b call_type now r))
        (clear_disconnect_grace_timer b (clear_disconnect_grace_timer a w))

  unfoldable pub persist_caller_call_state :
      String → String → CallType → ℕ → World v.client.State → World v.client.State
  persist_caller_call_state user peer call_type now w =
      on_redis (set_active_call_session v.client v.settings user peer call_type now)
        (clear_disconnect_grace_timer user w)

  -- The four commands are given together; here the order is that of the source.
  unfoldable pub clear_call_redis : String → String → v.client.State → v.client.State
  clear_call_redis a b r = clear_pending_incoming_call v.client v.settings b a (
      clear_pending_incoming_call v.client v.settings a b (
        clear_active_call_session v.client v.settings b
          (clear_active_call_session v.client v.settings a r)))

  unfoldable pub clear_call_pair_state :
      String → String → World v.client.State → World v.client.State
  clear_call_pair_state a b w =
      let quiet = clear_disconnect_grace_timer b (clear_disconnect_grace_timer a w) in
      on_redis (clear_call_redis a b) (record quiet { peers = clear_call_for_user a quiet.peers })

  -- The handler of a pending call whose key expired, once the key has named the two users.
  unfoldable pub pending_call_expired :
      String → String → ℕ → World v.client.State → World v.client.State
  pending_call_expired callee caller now w =
      tell callee (hangup_from caller "missed_call_timeout") now (
        tell caller
          (signal_failed (record {
            target_id = callee;
            signal_type = offer;
            retryable = false;
            expires_at = none;
            reason = "Call was not answered in time";
          }))
          now (clear_call_pair_state caller callee w))

  abbrev pub schedule_for :
      Option String → String → ℕ → World v.client.State → (World v.client.State × Bool)
  schedule_for none user now w = (w, false)
  schedule_for (some peer) user now w =
      let quiet = clear_disconnect_grace_timer user w in
      (record quiet { timers = insert user (now + v.call_disconnect_grace_ms) quiet.timers }, true)

  unfoldable pub schedule_call_disconnect_grace :
      String → ℕ → World v.client.State → (World v.client.State × Bool)
  schedule_call_disconnect_grace user now w = schedule_for (peer_of user w.peers) user now w

  abbrev pub end_call : Option String → String → ℕ → World v.client.State → World v.client.State
  end_call none user now w = w
  end_call (some peer) user now w =
      tell peer (hangup_from user "disconnect_timeout") now (clear_call_pair_state user peer w)

  -- The timer's callback.
  unfoldable pub disconnect_grace_over : String → ℕ → World v.client.State → World v.client.State
  disconnect_grace_over user now w =
      let expired = clear_disconnect_grace_timer user w in
      if is_connected user expired.manager expired.network
      then expired
      else end_call (peer_of user expired.peers) user now expired
