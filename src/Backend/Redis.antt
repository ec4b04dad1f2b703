-- ===== src/Backend/Redis.antt =====
-- backend/src/services/redis.ts: what the server keeps in Redis. The client (ioredis) is a parameter:
-- a record of the commands that the code gives, on a state that only the commands know.
pub mod Keys
use private_communication.Common.{
  ℕ, ◌+◌, ◌-◌, ◌*◌, String, Bool, true, false, not, ◌&&◌, ◌||◌, Option, none, some, List, [], ◌∷◌,
  length, map, ◌==◌, str_eq, ltb, leb, if◌then◌else◌,
}
use private_communication.Pcbk.Value.{
  Value, str, num, nat, obj, end, field, undefined, is_string, is_non_empty_string, is_cbor_record,
  Fields, get,
}
use private_communication.Backend.Redis.Keys.{
  user_encryption_public_key, user_signing_public_key, user_online, message_queue, receipt_queue,
  receipt_queue_index, pending_incoming_call, active_call_session, online_users,
}
use private_communication.Backend.Events.{
  CallType, audio, video, DeliveryReceiptStatus, delivered, read, queued,
}

-- The commands, named as in ioredis; a range is the whole list (0 to -1) where no bounds are given.
-- `stringify` is JSON.stringify and `parse` is JSON.parse, `none` where that throws.
pub record Client : Type 1 where
  pub State : Type 0
  pub get : String → State → Option String
  pub set : String → String → State → State
  pub set_ex : String → String → ℕ → State → State
  pub exists : String → State → ℕ
  pub del : String → State → State
  pub expire : String → ℕ → State → State
  pub pipeline_exists : List String → State → Option (List (Option ℕ))
  pub sadd : String → String → State → State
  pub srem : String → List String → State → State
  pub smembers : String → State → List String
  pub rpush : String → String → State → State
  pub lrange : String → State → List String
  pub lset : String → ℕ → String → State → State
  pub lrem : String → ℕ → String → State → State
  pub hget : String → String → State → Option String
  pub hmget : String → List String → State → List (Option String)
  pub hset : String → String → String → State → State
  pub hdel : String → List String → State → State
  pub zadd : String → ℕ → String → State → State
  pub zrem : String → List String → State → State
  pub zcard : String → State → ℕ
  pub zrange : String → State → List String
  pub zrange_first : String → ℕ → State → List String
  pub stringify : Value → String
  pub parse : String → Option Value

-- What the environment sets when the server starts.
pub record Settings : Type 0 where
  pub message_ttl : ℕ
  pub receipt_queue_limit : ℕ
  pub incoming_call_ttl_seconds : ℕ
  pub active_call_session_ttl_seconds : ℕ
  pub online_user_ttl_seconds : ℕ

abbrev pub call_type_name : CallType → String
call_type_name audio = "audio"
call_type_name video = "video"

pub record Offer : Type 0 where
  pub kind : String
  pub sdp : Option String

abbrev pub sdp_fields : Option String → Fields
sdp_fields none = end
sdp_fields (some s) = field "sdp" (str s) end

abbrev pub pending_call_value : String → Offer → CallType → (created expires : ℕ) → Value
pending_call_value sender offer call_type created expires = obj (
    field "senderId" (str sender) (
      field "offer" (obj (field "type" (str offer.kind) (sdp_fields offer.sdp))) (
        field "callType" (str (call_type_name call_type))
          (field "createdAt" (num (nat created)) (field "expiresAt" (num (nat expires)) end)))))

abbrev pub active_session_value : (user peer : String) → CallType → (created expires : ℕ) → Value
active_session_value user peer call_type created expires = obj (
    field "userId" (str user) (
      field "peerId" (str peer) (
        field "callType" (str (call_type_name call_type))
          (field "createdAt" (num (nat created)) (field "expiresAt" (num (nat expires)) end)))))

-- The online users whose key is still there, and those whose key is not: the results of the pipeline
-- stand in the order of the users, and a user without one counts as stale.
abbrev pub is_one : Option ℕ → Bool
is_one none = false
is_one (some n) = n == 1

unfoldable pub split_active : List String → List (Option ℕ) → (List String × List String)
split_active [] results = ([], [])
split_active (user ∷ users) [] = let rest = split_active users [] in (rest.0, user ∷ rest.1)
split_active (user ∷ users) (result ∷ results) =
    let rest = split_active users results in
    if is_one result then (user ∷ rest.0, rest.1) else (rest.0, user ∷ rest.1)

module _ (c : Client) (settings : Settings) where
  unfoldable pub register_user_keys : String → String → String → c.State → c.State
  register_user_keys user encryption signing r =
      c.set (user_signing_public_key user) signing
        (c.set (user_encryption_public_key user) encryption r)

  unfoldable pub get_public_key : String → c.State → Option String
  get_public_key user r = c.get (user_encryption_public_key user) r

  unfoldable pub get_signing_public_key : String → c.State → Option String
  get_signing_public_key user r = c.get (user_signing_public_key user) r

  unfoldable pub set_user_online : String → c.State → c.State
  set_user_online user r =
      c.set_ex (user_online user) "1" settings.online_user_ttl_seconds (c.sadd online_users user r)

  unfoldable pub set_user_offline : String → c.State → c.State
  set_user_offline user r = c.del (user_online user) (c.srem online_users (user ∷ []) r)

  unfoldable pub is_user_online : String → c.State → (c.State × Bool)
  is_user_online user r =
      if c.exists (user_online user) r == 1
      then (r, true)
      else (c.srem online_users (user ∷ []) r, false)

  -- cleanupStaleOnlineUsers, on what the pipeline returned.
  abbrev pub drop_stale : List String → Option (List (Option ℕ)) → c.State → (c.State × List String)
  drop_stale users none r = (r, [])
  drop_stale users (some results) r =
      let split = split_active users results in
      (if ltb 0 (length split.1) then c.srem online_users split.1 r else r, split.0)

  unfoldable pub cleanup_stale_online_users : List String → c.State → (c.State × List String)
  cleanup_stale_online_users users r =
      if length users == 0
      then (r, [])
      else drop_stale users (c.pipeline_exists (map user_online users) r) r

  unfoldable pub get_online_users : c.State → (c.State × List String)
  get_online_users r = cleanup_stale_online_users (c.smembers online_users r) r

  unfoldable pub set_pending_incoming_call :
      String → String → Offer → CallType → ℕ → c.State → c.State
  set_pending_incoming_call user sender offer call_type now r =
      c.set_ex (pending_incoming_call user sender)
        (c.stringify (
          pending_call_value sender offer call_type now
            (now + settings.incoming_call_ttl_seconds * 1000)))
        settings.incoming_call_ttl_seconds r

  unfoldable pub clear_pending_incoming_call : String → String → c.State → c.State
  clear_pending_incoming_call user sender r = c.del (pending_incoming_call user sender) r

  unfoldable pub set_active_call_session : String → String → CallType → ℕ → c.State → c.State
  set_active_call_session user peer call_type now r =
      c.set_ex (active_call_session user)
        (c.stringify (
          active_session_value user peer call_type now
            (now + settings.active_call_session_ttl_seconds * 1000)))
        settings.active_call_session_ttl_seconds r

  unfoldable pub clear_active_call_session : String → c.State → c.State
  clear_active_call_session user r = c.del (active_call_session user) r
