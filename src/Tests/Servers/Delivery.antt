-- ===== src/Tests/Servers/Delivery.antt =====
-- A message that waits for its recipient.
use private_communication.Common.{
  ◌≡◌, ◌⊎◌, refl, ap, true, false, some, [], ◌∷◌, ◌++◌, arith, set, lookup, string_key, number_key,
  present, lookup-insert_self,
}
use private_communication.Pcbk.Value.{is_undefined, checks}
use private_communication.Backend.Redis.{is_user_online}
use private_communication.Backend.Redis.Keys.{message_queue}
use private_communication.Backend.Queue.{parsed_message, get_queued_messages, remove_queued_message}
use private_communication.Backend.Queue.Removal.{
  IsIndexed, IsOther, remove_first, remove_queued_message_first,
}
use private_communication.Backend.World.{signed_in}
use private_communication.Backend.Events.{queued_messages}
use private_communication.Backend.Messages.{
  handle_send_message, message_value, deliver, queue_for_later, parse_queued_messages,
}
use private_communication.Backend.Messages.Delivery.{IsAppending, queued_message_delivered}
use private_communication.Backend.Messages.Outcome.{
  IsDelivered, IsQueued, handle_send_message_outcome,
}
use private_communication.Backend.Auth.{deliver_queued}
use private_communication.Tests.Servers.{
  Store, items, list_of, sample, memory, schema_id, server, both, world, as_alice,
}

memory-IsAppending : IsAppending memory
memory-IsAppending key message ttl r h =
    ap items (lookup-insert_self key (list_of key r ++ (message ∷ [])) r)

memory-IsIndexed : IsIndexed memory
memory-IsIndexed = record {
  sets = λ key value i r. ap items (lookup-insert_self key (set (list_of key r) i value) r);
  removes = λ key value r. ap items (lookup-insert_self key (remove_first value (list_of key r)) r);
}

alice_signed_in : signed_in as_alice ≡ some "alice"
unfolding signed_in present
alice_signed_in = refl

has_payload : is_undefined sample.payload ≡ false
unfolding checks
has_payload = refl

sample_read :
    memory.parse (memory.stringify (message_value "alice" "f" 7 sample))
    ≡ some (message_value "alice" "f" 7 sample)
unfolding message_value
sample_read = refl

bob_offline : (is_user_online memory server.settings "bob" (world both []).redis).1 ≡ false
unfolding is_user_online
bob_offline = refl

bob_open :
    (handle_send_message server 1 as_alice sample "f" 7 (world both [])).network.is_open 2 ≡ true
unfolding handle_send_message deliver queue_for_later is_user_online signed_in present checks
bob_open = refl

handle_send_message_outcome_example :
    IsDelivered server "alice" "f" 7 sample
      (world both [])
      (handle_send_message server 1 as_alice sample "f" 7 (world both []))
    ⊎ IsQueued server 1 "alice" "f" 7 sample
        (world both [])
        (handle_send_message server 1 as_alice sample "f" 7 (world both []))
handle_send_message_outcome_example =
    handle_send_message_outcome server 1 as_alice "alice" "f" 7 sample (world both [])
      memory-IsAppending (omega arith) alice_signed_in (has_payload, sample_read) refl

queued_message_delivered_example :
    (deliver_queued server 2 "bob" 9
      (handle_send_message server 1 as_alice sample "f" 7 (world both []))).network.outbox
    ≡ record {
      socket = 2;
      event = queued_messages (
          parse_queued_messages memory.parse (
            get_queued_messages memory server.settings "bob"
              (is_user_online memory server.settings "bob" []).0)
          ++ (message_value "alice" "f" 7 sample ∷ []));
      timestamp = 9;
    }
      ∷ (handle_send_message server 1 as_alice sample "f" 7 (world both [])).network.outbox
queued_message_delivered_example =
    queued_message_delivered server 1 2 as_alice "alice" "f" 7 9 sample (world both [])
      (handle_send_message server 1 as_alice sample "f" 7 (world both [])) memory-IsAppending
      (omega arith) alice_signed_in (has_payload, sample_read) bob_offline refl bob_open

abbrev waiting : Store
waiting = (message_queue "bob", "junk" ∷ "m1" ∷ "m1" ∷ []) ∷ []

waiting_queue : memory.lrange (message_queue "bob") waiting ≡ "junk" ∷ "m1" ∷ "m1" ∷ []
unfolding lookup
waiting_queue = refl

junk-IsOther : IsOther memory schema_id "m1" "junk"
unfolding parsed_message
junk-IsOther = refl

m1_parsed :
    parsed_message memory schema_id "m1" ≡ some (record { id = "m1"; sender_id = some "alice" })
unfolding parsed_message
m1_parsed = refl

remove_queued_message_first_example :
    (memory.lrange
        (message_queue "bob")
        (remove_queued_message memory schema_id "bob" "m1" waiting).0
      ≡ "junk" ∷ "m1" ∷ [])
    × ((remove_queued_message memory schema_id "bob" "m1" waiting).1
        ≡ some (record { id = "m1"; sender_id = some "alice" }))
remove_queued_message_first_example =
    remove_queued_message_first memory schema_id "bob" "m1" ("junk" ∷ []) ("m1" ∷ []) "m1"
      (record { id = "m1"; sender_id = some "alice" }) waiting memory-IsIndexed waiting_queue
      ((λ e. cc (e)), tt) (junk-IsOther, tt) m1_parsed refl
