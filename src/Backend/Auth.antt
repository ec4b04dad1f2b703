-- ===== src/Backend/Auth.antt =====
-- handleAuthResponse of backend/src/websocket/connection-handler.ts: the answer to the challenge.
pub mod Registered
use private_communication.Common.{
  ℕ, ◌-◌, String, Bool, true, false, not, ◌&&◌, ◌||◌, Option, none, some, List, [], ◌∷◌, str_eq,
  ltb, length, ◌==◌, present, if◌then◌else◌,
}
use private_communication.Backend.Events.{auth_success, auth_failed, peer_online, queued_messages}
use private_communication.Backend.Redis.{
  register_user_keys, get_public_key, get_signing_public_key, set_user_online,
}
use private_communication.Backend.Queue.{get_queued_messages}
use private_communication.Backend.Sessions.{add_session}
use private_communication.Backend.World.{
  Server, World, AuthState, Connection, AuthResponse, emit, close, on_redis, tell_others,
  record_auth_failure,
}
use private_communication.Backend.Calls.{clear_disconnect_grace_timer}
use private_communication.Backend.Messages.{Then, parse_queued_messages, send_queued_receipts}

pub record StoredKeys : Type 0 where
  pub encryption : String
  pub signing : String

module _ (v : Server) where
  abbrev pub Stepped : Type 0
  Stepped = (Connection × World v.client.State)

  unfoldable pub missing_data : AuthResponse → Bool
  missing_data d =
      str_eq d.user_id ""
      || str_eq d.signature ""
      || str_eq d.encryption_public_key ""
      || str_eq d.signing_public_key ""

  -- A failure is counted, told and ends the connection.
  abbrev pub refuse : ℕ → String → ℕ → String → ℕ → Then v
  refuse s reason code text now w =
      close s code text (emit s (auth_failed reason) now (record_auth_failure w))

  -- The keys that the user is known by. One who lacks either is registered with those of the answer.
  abbrev pub known_or_registered :
      Option String
      → Option String
      → AuthResponse
      → World v.client.State
      → (World v.client.State × StoredKeys)
  known_or_registered (some encryption) (some signing) d w =
      (w, record { encryption = encryption; signing = signing })
  known_or_registered none signing d w = (
    on_redis
        (register_user_keys v.client v.settings d.user_id d.encryption_public_key
          d.signing_public_key)
        w,
    record { encryption = d.encryption_public_key; signing = d.signing_public_key },
  )
  known_or_registered (some encryption) none d w = (
    on_redis
        (register_user_keys v.client v.settings d.user_id d.encryption_public_key
          d.signing_public_key)
        w,
    record { encryption = d.encryption_public_key; signing = d.signing_public_key },
  )

  unfoldable pub stored_keys :
      AuthResponse → World v.client.State → (World v.client.State × StoredKeys)
  stored_keys d w =
      known_or_registered (present (get_public_key v.client v.settings d.user_id w.redis))
        (present (get_signing_public_key v.client v.settings d.user_id w.redis)) d w

  unfoldable pub deliver_queued : ℕ → String → ℕ → Then v
  deliver_queued s user now w =
      let messages = get_queued_messages v.client v.settings user w.redis in
      if ltb 0 (length messages)
      then emit s (queued_messages (parse_queued_messages v.client.parse messages)) now w
      else w

  unfoldable pub open_session : ℕ → String → String → ℕ → Then v
  open_session s user key now w =
      let quiet = clear_disconnect_grace_timer v user w in
      let added = add_session user s key now (quiet.manager, quiet.network) in
      on_redis (set_user_online v.client v.settings user)
        (record quiet { manager = added.0; network = added.1 })

  unfoldable pub welcome : ℕ → String → ℕ → Then v
  welcome s user now w = send_queued_receipts v s user now (
      deliver_queued s user now
        (tell_others (peer_online user) user now (emit s (auth_success user) now w)))

  unfoldable pub authenticate : ℕ → AuthResponse → Connection → ℕ → World v.client.State → Stepped
  authenticate s d k now w =
      let keys = stored_keys d w in
      if v.verify k.auth.nonce d.signature keys.1.signing
      then (
        record k {
          auth = record k.auth { authenticated = true; user_id = some d.user_id };
          timeout_pending = false;
        },
        welcome s d.user_id now (open_session s d.user_id keys.1.encryption now keys.0),
      )
      else (k, refuse s "Invalid signature" 4003 "Authentication failed" now keys.0)

  unfoldable pub handle_auth_response :
      ℕ → AuthResponse → Connection → ℕ → World v.client.State → Stepped
  handle_auth_response s d k now w =
      if missing_data d
      then (k, refuse s "Missing authentication data" 4004 "Invalid authentication payload" now w)
      else if ltb v.auth_timeout (now - k.auth.timestamp)
      then (k, refuse s "Challenge expired" 4002 "Challenge expired" now w)
      else authenticate s d k now w
