-- ===== src/Backend/Messages/Delivery.antt =====
-- A message that waits in the queue of its recipient, and how it is delivered.
use private_communication.Common.{
  ℕ, ◌<◌, ◌≡◌, refl, inl, inr, ap, ◌∙◌, String, true, false, Option, none, some, List, [], ◌∷◌,
  ◌++◌, map, arith, All, Option-cases, ltb, length, string_key, length-append,
}
use private_communication.Pcbk.Value.{Value, is_undefined, get, checks}
use private_communication.Backend.Events.{queued_messages}
use private_communication.Backend.Redis.{Client, is_user_online}
use private_communication.Backend.Redis.Keys.{message_queue}
use private_communication.Backend.Queue.{queue_message, get_queued_messages}
use private_communication.Backend.Sessions.{Sent}
use private_communication.Backend.World.{
  Server, World, AuthState, SendMessageData, SenderKeys, signed_in,
}
use private_communication.Backend.Messages.{
  message_value, deliver, queue_for_later, handle_send_message, is_queued_encrypted_message,
  sender_keys_queued, is_object, is_text_value, is_number_value, parse_queued_messages, keep_queued,
  sender_keys_fields,
}
use private_communication.Backend.Auth.{deliver_queued}

keys_accepted :
    (k : Option SenderKeys) → sender_keys_queued (get "senderKeys" (sender_keys_fields k)) ≡ true
unfolding is_object get sender_keys_queued is_text_value checks
keys_accepted none = refl
keys_accepted (some k) = elim (Option-cases k.fingerprint) [
  | inl e ↦ rw e refl
  | inr (f, e) ↦ rw e refl
]

message_accepted :
    (sender fresh : String) (now : ℕ) (d : SendMessageData)
    → is_undefined d.payload ≡ false
    → is_queued_encrypted_message (message_value sender fresh now d) ≡ true
unfolding is_queued_encrypted_message message_value is_object get is_text_value is_number_value
    checks
message_accepted sender fresh now d p = rw (keys_accepted d.sender_keys, p) refl

-- A message as it is sent.
pub record Posted : Type 0 where
  pub sender : String
  pub fresh : String
  pub now : ℕ
  pub message : SendMessageData

abbrev pub posted_value : Posted → Value
posted_value p = message_value p.sender p.fresh p.now p.message

-- JSON.parse reads back what JSON.stringify wrote for the message, which has a payload.
abbrev pub IsReadable : Client → Posted → Type 0
IsReadable c p =
    (is_undefined p.message.payload ≡ false)
    × (c.parse (c.stringify (posted_value p)) ≡ some (posted_value p))

-- The queue of a user keeps each message as it was sent: parseQueuedMessages gives back all the
-- messages that handleSendMessage stored, in their order and unchanged.
pub parse_queued_messages-stringify :
    (c : Client) (posts : List Posted)
    → All (IsReadable c) posts
    → parse_queued_messages c.parse (map (λ p. c.stringify (posted_value p)) posts)
      ≡ map posted_value posts
unfolding parse_queued_messages
parse_queued_messages-stringify c [] h = refl
parse_queued_messages-stringify c (p ∷ posts) h = rw (h.0.1) (
    rw (message_accepted p.sender p.fresh p.now p.message h.0.0)
      (ap (◌∷◌ (posted_value p)) (parse_queued_messages-stringify c posts h.1)))

keep_queued-append :
    (o : Option Value) (xs ys : List Value) → keep_queued o (xs ++ ys) ≡ keep_queued o xs ++ ys
keep_queued-append none xs ys = refl
keep_queued-append (some x) xs ys = ground arith

pub parse_queued_messages-append :
    (parse : String → Option Value) (xs ys : List String)
    → parse_queued_messages parse (xs ++ ys)
      ≡ parse_queued_messages parse xs ++ parse_queued_messages parse ys
unfolding parse_queued_messages
parse_queued_messages-append parse [] ys = refl
parse_queued_messages-append parse (x ∷ xs) ys =
    rw (parse_queued_messages-append parse xs ys) (
      keep_queued-append (parse x) (parse_queued_messages parse xs)
        (parse_queued_messages parse ys))

-- RPUSH appends to the list, and EXPIRE with a time that is not over leaves it.
abbrev pub IsAppending : Client → Type 0
IsAppending c =
    (key message : String) (ttl : ℕ) (r : c.State)
    → 0 < ttl
    → c.lrange key (c.expire key ttl (c.rpush key message r)) ≡ c.lrange key r ++ (message ∷ [])

deliver_queued_some :
    (v : Server) (t : ℕ) (user : String) (later : ℕ) (u : World v.client.State)
    → (old : List String) (message : String)
    → get_queued_messages v.client v.settings user u.redis ≡ old ++ (message ∷ [])
    → u.network.is_open t ≡ true
    → (deliver_queued v t user later u).network.outbox
      ≡ record {
        socket = t;
        event = queued_messages (parse_queued_messages v.client.parse (old ++ (message ∷ [])));
        timestamp = later;
      }
        ∷ u.network.outbox
unfolding deliver_queued
deliver_queued_some v t user later u old message e o =
    let long : ltb 0 (length (old ++ (message ∷ []))) ≡ true =
      ground (arith, length-append old (message ∷ [])) in
    rw e (rw (long, o) refl)

abbrev pub sent_queue : ℕ → List Value → ℕ → Sent
sent_queue t messages later = record {
  socket = t;
  event = queued_messages messages;
  timestamp = later;
}

offline_redis :
    (v : Server) (s : ℕ) (auth : AuthState) (sender fresh : String) (now : ℕ) (d : SendMessageData)
    → (w : World v.client.State) → signed_in auth ≡ some sender
    → is_undefined d.payload ≡ false
    → (is_user_online v.client v.settings d.recipient_id w.redis).1 ≡ false
    → (handle_send_message v s auth d fresh now w).redis
      ≡ queue_message v.client v.settings d.recipient_id
          (v.client.stringify (message_value sender fresh now d))
          (is_user_online v.client v.settings d.recipient_id w.redis).0
unfolding handle_send_message deliver queue_for_later
offline_redis v s auth sender fresh now d w signed p offline = rw signed (rw p (rw offline refl))

-- A message for a user who is offline reaches that user: when a socket of that user is served and the
-- queue is still as the handler left it, the queued messages are sent to the socket in one event; the
-- message that was sent is the last of them, unchanged, and those that waited before it come first.
pub queued_message_delivered :
    (v : Server) (s t : ℕ) (auth : AuthState) (sender fresh : String) (now later : ℕ)
    → (d : SendMessageData) (w u : World v.client.State) → IsAppending v.client
    → 0 < v.settings.message_ttl
    → signed_in auth ≡ some sender
    → IsReadable v.client (record { sender = sender; fresh = fresh; now = now; message = d })
    → (is_user_online v.client v.settings d.recipient_id w.redis).1 ≡ false
    → get_queued_messages v.client v.settings d.recipient_id u.redis
      ≡ get_queued_messages v.client v.settings d.recipient_id
          (handle_send_message v s auth d fresh now w).redis
    → u.network.is_open t ≡ true
    → (deliver_queued v t d.recipient_id later u).network.outbox
      ≡ record {
        socket = t;
        event = queued_messages (
            parse_queued_messages v.client.parse (
              get_queued_messages v.client v.settings d.recipient_id
                (is_user_online v.client v.settings d.recipient_id w.redis).0)
            ++ (message_value sender fresh now d ∷ []));
        timestamp = later;
      }
        ∷ u.network.outbox
unfolding queue_message get_queued_messages
queued_message_delivered v s t auth sender fresh now later d w u law ttl signed ok offline same
      open_socket =
    let online = is_user_online v.client v.settings d.recipient_id w.redis in
    let waiting = get_queued_messages v.client v.settings d.recipient_id online.0 in
    let message = v.client.stringify (message_value sender fresh now d) in
    let filled : get_queued_messages v.client v.settings d.recipient_id u.redis
        ≡ waiting ++ (message ∷ []) =
      same
      ∙ ap (get_queued_messages v.client v.settings d.recipient_id)
          (offline_redis v s auth sender fresh now d w signed ok.0 offline)
      ∙ law (message_queue d.recipient_id) message v.settings.message_ttl online.0 ttl in
    deliver_queued_some v t d.recipient_id later u waiting message filled open_socket
    ∙ ap (λ messages. sent_queue t messages later ∷ u.network.outbox)
        (parse_queued_messages-append v.client.parse waiting (message ∷ [])
          ∙ ap (◌++◌ (parse_queued_messages v.client.parse waiting)) (
              parse_queued_messages-stringify v.client
                (record { sender = sender; fresh = fresh; now = now; message = d } ∷ []) (ok, tt)))
