-- ===== src/Backend/Messages.antt =====
-- The handlers of messages, receipts, keys and peers in
-- backend/src/websocket/connection-handler.ts.
pub mod Delivery
pub mod Outcome
use private_communication.Common.{
  ℕ, String, Bool, true, false, not, ◌&&◌, ◌||◌, Option, none, some, List, [], ◌∷◌, str_eq, present,
  if◌then◌else◌,
}
use private_communication.Pcbk.Value.{
  Value, str, num, nat, Number, obj, arr, nil, null, bool, undefined, end, field, Fields, get,
  is_undefined, neg, real,
}
use private_communication.Backend.Events.{
  ServerEvent, error, key_registered, incoming_message, delivery_receipt, peers_list,
  queued_messages, DeliveryReceiptStatus, delivered, read, queued,
}
use private_communication.Backend.Redis.{
  Client, register_user_keys, is_user_online, get_online_users,
}
use private_communication.Backend.Queue.{
  QueuedMessage, Receipt, queue_message, get_queued_messages, queue_receipt, get_queued_receipts,
  remove_queued_receipt, remove_queued_message,
}
use private_communication.Backend.World.{
  Server, World, AuthState, RegisterKeyData, SendMessageData, SenderKeys, MessageAckData,
  MessageReadData, ReceiptAckData, new_message, emit, send_user, tell, on_redis, send_push,
  signed_in,
}

-- isObject: an object that is no array. The values that JSON.parse returns have no other kinds.
unfoldable pub is_object : Value → Option Fields
is_object (obj fs) = some fs
is_object undefined = none
is_object null = none
is_object (bool b) = none
is_object (num n) = none
is_object (str s) = none
is_object _ = none

unfoldable pub is_text_value : Value → Bool
is_text_value (str s) = true
is_text_value _ = false

unfoldable pub is_number_value : Value → Bool
is_number_value (num n) = true
is_number_value _ = false

-- The keys of a queued message, where it has any.
abbrev pub keys_fields_queued : Option Fields → Bool
keys_fields_queued none = false
keys_fields_queued (some fs) =
    is_text_value (get "encryptionPublicKey" fs)
    && is_text_value (get "signingPublicKey" fs)
    && (is_undefined (get "fingerprint" fs) || is_text_value (get "fingerprint" fs))

unfoldable pub sender_keys_queued : Value → Bool
sender_keys_queued v = is_undefined v || keys_fields_queued (is_object v)

abbrev pub fields_queued : Option Fields → Bool
fields_queued none = false
fields_queued (some fs) =
    sender_keys_queued (get "senderKeys" fs)
    && is_text_value (get "id" fs)
    && is_text_value (get "senderId" fs)
    && is_text_value (get "recipientId" fs)
    && is_number_value (get "timestamp" fs)
    && not (is_undefined (get "payload" fs))
    && is_text_value (get "signature" fs)

unfoldable pub is_queued_encrypted_message : Value → Bool
is_queued_encrypted_message v = fields_queued (is_object v)

abbrev pub keep_queued : Option Value → List Value → List Value
keep_queued none rest = rest
keep_queued (some v) rest = if is_queued_encrypted_message v then v ∷ rest else rest

unfoldable pub parse_queued_messages : (String → Option Value) → List String → List Value
parse_queued_messages parse [] = []
parse_queued_messages parse (message ∷ messages) =
    keep_queued (parse message) (parse_queued_messages parse messages)

-- The message that handleSendMessage builds. A property that is undefined is left out, as
-- JSON.stringify leaves it out.
abbrev pub fingerprint_fields : Option String → Fields
fingerprint_fields none = end
fingerprint_fields (some s) = field "fingerprint" (str s) end

abbrev pub sender_keys_fields : Option SenderKeys → Fields
sender_keys_fields none = end
sender_keys_fields (some k) =
    field "senderKeys"
      (obj (
        field "encryptionPublicKey" (str k.encryption_public_key)
          (field "signingPublicKey" (str k.signing_public_key) (fingerprint_fields k.fingerprint))))
      end

abbrev pub or_else {ℓ} : {A : Type ℓ} → Option A → A → A
or_else none a = a
or_else (some b) a = b

unfoldable pub message_value : String → String → ℕ → SendMessageData → Value
message_value sender fresh now d = obj (
    field "id" (str (or_else d.id fresh)) (
      field "senderId" (str sender) (
        field "recipientId" (str d.recipient_id) (
          field "timestamp" (num (or_else d.timestamp (nat now))) (
            field "payload" d.payload
              (field "signature" (str d.signature) (sender_keys_fields d.sender_keys)))))))

module _ (v : Server) where
  abbrev pub Then : Type 0
  Then = World v.client.State → World v.client.State

  -- A handler that answers 'Not authenticated' to a socket that is not signed in.
  abbrev pub when_signed_in : Option String → ℕ → ℕ → (String → Then) → Then
  when_signed_in none s now act w = emit s (error "Not authenticated") now w
  when_signed_in (some user) s now act w = act user w

  -- One that does nothing then.
  abbrev pub only_signed_in : Option String → (String → Then) → Then
  only_signed_in none act w = w
  only_signed_in (some user) act w = act user w

  abbrev pub register_both : Option String → Option String → String → ℕ → ℕ → Then
  register_both (some encryption) (some signing) user s now w =
      emit s (key_registered true) now
        (on_redis (register_user_keys v.client v.settings user encryption signing) w)
  register_both none signing user s now w = emit s (error "Missing public key data") now w
  register_both (some encryption) none user s now w = emit s (error "Missing public key data") now w

  unfoldable pub handle_register_key : ℕ → AuthState → RegisterKeyData → ℕ → Then
  handle_register_key s auth d now = when_signed_in (signed_in auth) s now λ user.
      register_both (present d.encryption_public_key) (present d.signing_public_key) user s now

  -- The message waits in the recipient's queue, and the sender is told so.
  unfoldable pub queue_for_later : ℕ → String → String → ℕ → SendMessageData → Then
  queue_for_later s sender fresh now d w =
      emit s (delivery_receipt (or_else d.id fresh) queued) now (
        send_push d.recipient_id (new_message sender) (
          on_redis
            (queue_message v.client v.settings d.recipient_id
              (v.client.stringify (message_value sender fresh now d)))
            w))

  unfoldable pub try_directly : ℕ → String → String → ℕ → SendMessageData → Then
  try_directly s sender fresh now d w =
      let sent =
        send_user d.recipient_id (incoming_message (message_value sender fresh now d)) now w in
      if sent.1 then sent.0 else queue_for_later s sender fresh now d sent.0

  unfoldable pub deliver : ℕ → String → String → ℕ → SendMessageData → Then
  deliver s sender fresh now d w =
      let online = is_user_online v.client v.settings d.recipient_id w.redis in
      let asked = record w { redis = online.0 } in
      if online.1
      then try_directly s sender fresh now d asked
      else queue_for_later s sender fresh now d asked

  -- `fresh` is what uuidv4 returns, if it is asked.
  unfoldable pub handle_send_message : ℕ → AuthState → SendMessageData → String → ℕ → Then
  handle_send_message s auth d fresh now = when_signed_in (signed_in auth) s now λ sender w.
      if is_undefined d.payload
      then emit s (error "Missing payload") now w
      else deliver s sender fresh now d w

  abbrev pub without : String → List String → List String
  without user [] = []
  without user (u ∷ us) = if str_eq u user then without user us else u ∷ without user us

  unfoldable pub handle_get_peers : ℕ → AuthState → ℕ → Then
  handle_get_peers s auth now = when_signed_in (signed_in auth) s now λ user w.
      let online = get_online_users v.client v.settings w.redis in
      emit s (peers_list (without user online.1)) now (record w { redis = online.0 })

  abbrev pub ack_sender : Option String → Option QueuedMessage → Option String
  ack_sender (some sender) removed = some sender
  ack_sender none none = none
  ack_sender none (some m) = present m.sender_id

  abbrev pub confirm : Option String → String → DeliveryReceiptStatus → ℕ → Then
  confirm none id status now w = w
  confirm (some sender) id status now w =
      tell sender (delivery_receipt id status) now
        (on_redis (queue_receipt v.client v.settings sender id status now) w)

  unfoldable pub acknowledge : Option String → MessageAckData → String → ℕ → Then
  acknowledge none d user now w = w
  acknowledge (some id) d user now w =
      let removed = remove_queued_message v.client v.schemas.queued_message user id w.redis in
      confirm (ack_sender (present d.sender_id) removed.1) id delivered now
        (record w { redis = removed.0 })

  unfoldable pub handle_message_ack : AuthState → MessageAckData → ℕ → Then
  handle_message_ack auth d now =
      only_signed_in (signed_in auth) λ user. acknowledge (present (some d.message_id)) d user now

  abbrev pub confirm_read : Option String → Option String → ℕ → Then
  confirm_read none sender now w = w
  confirm_read (some id) none now w = w
  confirm_read (some id) (some sender) now w =
      on_redis (queue_receipt v.client v.settings sender id read now)
        (tell sender (delivery_receipt id read) now w)

  unfoldable pub handle_message_read : AuthState → MessageReadData → ℕ → Then
  handle_message_read auth d now =
      only_signed_in (signed_in auth)
        λ user. confirm_read (present (some d.message_id)) (present (some d.sender_id)) now

  unfoldable pub send_receipts : ℕ → List Receipt → ℕ → Then
  send_receipts s [] now w = w
  send_receipts s (r ∷ rs) now w =
      send_receipts s rs now (emit s (delivery_receipt r.message_id r.status) now w)

  unfoldable pub send_queued_receipts : ℕ → String → ℕ → Then
  send_queued_receipts s user now w =
      send_receipts s (get_queued_receipts v.client v.settings user w.redis) now w

  unfoldable pub handle_get_receipts : ℕ → AuthState → ℕ → Then
  handle_get_receipts s auth now =
      only_signed_in (signed_in auth) λ user. send_queued_receipts s user now

  abbrev pub acknowledged_status : Option DeliveryReceiptStatus → Option DeliveryReceiptStatus
  acknowledged_status none = none
  acknowledged_status (some delivered) = some delivered
  acknowledged_status (some read) = some read
  acknowledged_status (some queued) = none

  abbrev pub drop_acknowledged : Option String → Option DeliveryReceiptStatus → String → Then
  drop_acknowledged none status user w = w
  drop_acknowledged (some id) none user w = w
  drop_acknowledged (some id) (some status) user w =
      on_redis (remove_queued_receipt v.client v.settings user id status) w

  unfoldable pub handle_receipt_ack : AuthState → ReceiptAckData → Then
  handle_receipt_ack auth d =
      only_signed_in (signed_in auth)
        λ user. drop_acknowledged (present (some d.message_id)) (acknowledged_status d.status) user
