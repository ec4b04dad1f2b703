-- ===== src/Backend/Messages/Outcome.antt =====
-- What handleSendMessage does with a message: it is written, or it waits.
use private_communication.Common.{
  ℕ, ◌<◌, ◌≡◌, ◌⊎◌, refl, inl, inr, ap, ◌∙◌, String, true, false, some, [], ◌∷◌, ◌++◌, Bool-cases,
  Option-cases, lookup, string_key,
}
use private_communication.Backend.Events.{incoming_message, delivery_receipt, queued}
use private_communication.Backend.Redis.{is_user_online}
use private_communication.Backend.Redis.Keys.{message_queue}
use private_communication.Backend.Queue.{queue_message, get_queued_messages}
use private_communication.Backend.Sessions.{UserSession, send_message, send_to_user, is_connected}
use private_communication.Backend.World.{
  Server, World, AuthState, SendMessageData, new_message, signed_in, emit, send_push,
}
use private_communication.Backend.Messages.{
  or_else, message_value, deliver, try_directly, queue_for_later, handle_send_message,
  parse_queued_messages,
}
use private_communication.Backend.Messages.Delivery.{
  IsReadable, IsAppending, parse_queued_messages-stringify, parse_queued_messages-append,
}

module _ (v : Server) (s : ℕ) (sender fresh : String) (now : ℕ) (d : SendMessageData) where
  -- The message was written to the open socket of the recipient's session, and nothing else was done.
  record IsWritten (w next : World v.client.State) : Type 0 where
    session : UserSession
    found : lookup d.recipient_id w.manager.sessions ≡ some session
    is_open : w.network.is_open session.socket ≡ true
    written : next ≡ record w {
      network =
          send_message session.socket
            (incoming_message (message_value sender fresh now d))
            now
            w.network;
      redis = (is_user_online v.client v.settings d.recipient_id w.redis).0;
    }

  -- The recipient is not online, or has no open socket here. The message was put into the recipient's
  -- queue, the recipient was notified by push and the sender was told.
  record IsStored (w next : World v.client.State) : Type 0 where
    pub unreachable :
        ((is_user_online v.client v.settings d.recipient_id w.redis).1 ≡ false)
        ⊎ (is_connected d.recipient_id w.manager w.network ≡ false)
    pub stored :
        next
        ≡ emit s (delivery_receipt (or_else d.id fresh) queued) now (
            send_push d.recipient_id (new_message sender) (record w {
              redis =
                  queue_message v.client v.settings d.recipient_id
                    (v.client.stringify (message_value sender fresh now d))
                    (is_user_online v.client v.settings d.recipient_id w.redis).0;
            }))

  deliver_outcome :
      (w : World v.client.State)
      → IsWritten w (deliver v s sender fresh now d w)
        ⊎ IsStored w (deliver v s sender fresh now d w)
  unfolding deliver try_directly queue_for_later send_to_user is_connected
  deliver_outcome w =
      elim (Bool-cases (is_user_online v.client v.settings d.recipient_id w.redis).1) [
        | inl online ↦ elim (Option-cases (lookup d.recipient_id w.manager.sessions)) [
          | inl e ↦ inr (record { unreachable = inr (rw e refl); stored = rw (online, e) refl })
          | inr (x, e) ↦ elim (Bool-cases (w.network.is_open x.socket)) [
            | inl o ↦
                inl
                  (record { session = x; found = e; is_open = o; written = rw (online, e, o) refl })
            | inr c ↦
                inr (record { unreachable = inr (rw (e, c) refl); stored = rw (online, e, c) refl })
          ]
        ]
        | inr offline ↦ inr (record { unreachable = inl offline; stored = rw offline refl })
      ]

-- The message is the next event on the open socket of the recipient's session.
pub record IsDelivered (v : Server) (sender fresh : String) (now : ℕ) (d : SendMessageData)
    (w next : World v.client.State) : Type 0 where
  pub session : UserSession
  pub found : lookup d.recipient_id w.manager.sessions ≡ some session
  pub is_open : w.network.is_open session.socket ≡ true
  pub sent :
      next.network.outbox
      ≡ record {
        socket = session.socket;
        event = incoming_message (message_value sender fresh now d);
        timestamp = now;
      }
        ∷ w.network.outbox
  pub no_push : next.pushes ≡ w.pushes

-- The message is the last of the recipient's queue, as the queue is read when it is served.
pub record IsQueued (v : Server) (s : ℕ) (sender fresh : String) (now : ℕ) (d : SendMessageData)
    (w next : World v.client.State) : Type 0 where
  pub unreachable :
      ((is_user_online v.client v.settings d.recipient_id w.redis).1 ≡ false)
      ⊎ (is_connected d.recipient_id w.manager w.network ≡ false)
  pub waits :
      parse_queued_messages v.client.parse
        (get_queued_messages v.client v.settings d.recipient_id next.redis)
      ≡ parse_queued_messages v.client.parse (
          get_queued_messages v.client v.settings d.recipient_id
            (is_user_online v.client v.settings d.recipient_id w.redis).0)
        ++ (message_value sender fresh now d ∷ [])
  pub pushed :
      next.pushes ≡ record { user = d.recipient_id; payload = new_message sender } ∷ w.pushes
  pub told :
      next.network.outbox
      ≡ record { socket = s; event = delivery_receipt (or_else d.id fresh) queued; timestamp = now }
        ∷ w.network.outbox

module _ (v : Server) (s : ℕ) (sender fresh : String) (now : ℕ) (d : SendMessageData)
    (w next : World v.client.State) where
  written-IsDelivered :
      IsWritten v s sender fresh now d w next → IsDelivered v sender fresh now d w next
  written-IsDelivered h = record {
    session = h.session;
    found = h.found;
    is_open = h.is_open;
    sent = ap (λ x. x.network.outbox) h.written;
    no_push = ap (λ x. x.pushes) h.written;
  }

  stored-IsQueued :
      IsAppending v.client
      → 0 < v.settings.message_ttl
      → IsReadable v.client (record { sender = sender; fresh = fresh; now = now; message = d })
      → w.network.is_open s ≡ true
      → IsStored v s sender fresh now d w next
      → IsQueued v s sender fresh now d w next
  unfolding queue_message get_queued_messages
  stored-IsQueued law ttl ok o h =
      let online = is_user_online v.client v.settings d.recipient_id w.redis in
      let message = v.client.stringify (message_value sender fresh now d) in
      let waiting = get_queued_messages v.client v.settings d.recipient_id online.0 in
      record {
        unreachable = h.unreachable;
        waits =
            ap
              (λ x.
                parse_queued_messages v.client.parse
                  (get_queued_messages v.client v.settings d.recipient_id x.redis))
              h.stored
            ∙ ap (parse_queued_messages v.client.parse)
                (law (message_queue d.recipient_id) message v.settings.message_ttl online.0 ttl)
            ∙ parse_queued_messages-append v.client.parse waiting (message ∷ [])
            ∙ ap (◌++◌ (parse_queued_messages v.client.parse waiting)) (
                parse_queued_messages-stringify v.client
                  (record { sender = sender; fresh = fresh; now = now; message = d } ∷ [])
                  (ok, tt));
        pushed = ap (λ x. x.pushes) h.stored;
        told = ap (λ x. x.network.outbox) h.stored ∙ rw o refl;
      }

-- Every message with a payload from a signed-in open socket comes to its recipient or into the
-- recipient's queue, with a Redis whose RPUSH appends: either the message is the next event that is
-- written to the open socket of the recipient's session; or the recipient is offline or without an open
-- socket, and then the queue, read as it is served later, is what it was with this message unchanged at
-- its end, one push notification goes to the recipient, and the sender is told that it was queued.
pub handle_send_message_outcome :
    (v : Server) (s : ℕ) (auth : AuthState) (sender fresh : String) (now : ℕ) (d : SendMessageData)
    → (w : World v.client.State) → IsAppending v.client
    → 0 < v.settings.message_ttl
    → signed_in auth ≡ some sender
    → IsReadable v.client (record { sender = sender; fresh = fresh; now = now; message = d })
    → w.network.is_open s ≡ true
    → IsDelivered v sender fresh now d w (handle_send_message v s auth d fresh now w)
      ⊎ IsQueued v s sender fresh now d w (handle_send_message v s auth d fresh now w)
unfolding handle_send_message
handle_send_message_outcome v s auth sender fresh now d w law ttl e ok o = rw e (
    rw ok.0 (elim (deliver_outcome v s sender fresh now d w) [
      | inl written ↦ inl (written-IsDelivered v s sender fresh now d w _ written)
      | inr stored ↦ inr (stored-IsQueued v s sender fresh now d w _ law ttl ok o stored)
    ]))
