-- ===== src/Backend/Queue.antt =====
-- backend/src/services/redis.ts: the queues of messages and of receipts that wait for a user.
pub mod Removal
use private_communication.Common.{
  ℕ, ◌+◌, ◌-◌, ◌*◌, String, Bool, true, false, not, ◌&&◌, ◌||◌, Option, none, some, List, [], ◌∷◌,
  length, map, ◌==◌, present, str_eq, ltb, leb, if◌then◌else◌,
}
use private_communication.Pcbk.Value.{Value}
use private_communication.Backend.Events.{DeliveryReceiptStatus, delivered, read, queued}
use private_communication.Backend.Redis.{Client, Settings}
use private_communication.Backend.Redis.Keys.{message_queue, receipt_queue, receipt_queue_index}

pub record QueuedMessage : Type 0 where
  pub id : String
  pub sender_id : Option String

pub record Receipt : Type 0 where
  pub message_id : String
  pub status : DeliveryReceiptStatus

abbrev pub status_name : DeliveryReceiptStatus → String
status_name delivered = "delivered"
status_name read = "read"
status_name queued = "queued"

-- The loop of getQueuedReceipts over the identifiers and their statuses.
abbrev pub receipt_status : Option String → Option DeliveryReceiptStatus
receipt_status none = none
receipt_status (some s) =
    if str_eq s "delivered" then some delivered else if str_eq s "read" then some read else none

abbrev pub add_receipt : String → Option DeliveryReceiptStatus → List Receipt → List Receipt
add_receipt id none rest = rest
add_receipt id (some status) rest = record { message_id = id; status = status } ∷ rest

unfoldable pub receipts_of : List String → List (Option String) → List Receipt
receipts_of [] statuses = []
receipts_of (id ∷ ids) [] = []
receipts_of (id ∷ ids) (status ∷ statuses) =
    add_receipt id (receipt_status status) (receipts_of ids statuses)

module _ (c : Client) (settings : Settings) where
  unfoldable pub queue_message : String → String → c.State → c.State
  queue_message recipient message r =
      c.expire (message_queue recipient) settings.message_ttl
        (c.rpush (message_queue recipient) message r)

  unfoldable pub get_queued_messages : String → c.State → List String
  get_queued_messages user r = c.lrange (message_queue user) r

  unfoldable pub clear_message_queue : String → c.State → c.State
  clear_message_queue user r = c.del (message_queue user) r

  abbrev pub drop_oldest : String → List String → c.State → c.State
  drop_oldest user oldest r =
      if ltb 0 (length oldest)
      then c.hdel (receipt_queue user) oldest (c.zrem (receipt_queue_index user) oldest r)
      else r

  -- Where the index holds more than the limit, the oldest receipts go.
  unfoldable pub trim_receipts : String → c.State → c.State
  trim_receipts user r =
      let size = c.zcard (receipt_queue_index user) r in
      if ltb settings.receipt_queue_limit size
      then drop_oldest user
          (c.zrange_first (receipt_queue_index user) (size - settings.receipt_queue_limit) r) r
      else r

  abbrev pub is_text : Option String → String → Bool
  is_text none s = false
  is_text (some t) s = str_eq t s

  abbrev pub is_delivered : DeliveryReceiptStatus → Bool
  is_delivered delivered = true
  is_delivered read = false
  is_delivered queued = false

  unfoldable pub queue_receipt : String → String → DeliveryReceiptStatus → ℕ → c.State → c.State
  queue_receipt user id status now r =
      let existing = c.hget (receipt_queue user) id r in
      if is_text existing "read" || (is_text existing "delivered" && is_delivered status)
      then r
      else trim_receipts user (
          c.expire (receipt_queue_index user) settings.message_ttl (
            c.expire (receipt_queue user) settings.message_ttl (
              c.zadd (receipt_queue_index user) now id
                (c.hset (receipt_queue user) id (status_name status) r))))

  unfoldable pub get_queued_receipts : String → c.State → List Receipt
  get_queued_receipts user r =
      let ids = c.zrange (receipt_queue_index user) r in
      if length ids == 0 then [] else receipts_of ids (c.hmget (receipt_queue user) ids r)

  abbrev pub drop_receipt :
      Option String → String → String → DeliveryReceiptStatus → c.State → c.State
  drop_receipt none user id status r = r
  drop_receipt (some existing) user id status r =
      if str_eq existing "read" && is_delivered status
      then r
      else c.zrem (receipt_queue_index user) (id ∷ []) (c.hdel (receipt_queue user) (id ∷ []) r)

  unfoldable pub remove_queued_receipt : String → String → DeliveryReceiptStatus → c.State → c.State
  remove_queued_receipt user id status r =
      drop_receipt (present (c.hget (receipt_queue user) id r)) user id status r

module _ (c : Client) (schema : Value → Option QueuedMessage) where
  abbrev pub schema_of : Option Value → Option QueuedMessage
  schema_of none = none
  schema_of (some v) = schema v

  -- `queuedMessageSchema.safeParse(JSON.parse(message))`
  unfoldable pub parsed_message : String → Option QueuedMessage
  parsed_message message = schema_of (c.parse message)

  -- The first message of the queue with the identifier, and its place.
  abbrev pub has_id : Option QueuedMessage → String → Option QueuedMessage
  has_id none id = none
  has_id (some m) id = if str_eq m.id id then some m else none

  abbrev pub first_found :
      Option QueuedMessage → ℕ → Option (ℕ × QueuedMessage) → Option (ℕ × QueuedMessage)
  first_found none index rest = rest
  first_found (some m) index rest = some (index, m)

  unfoldable pub find_message : List String → String → ℕ → Option (ℕ × QueuedMessage)
  find_message [] id index = none
  find_message (message ∷ messages) id index =
      first_found (has_id (parsed_message message) id) index (find_message messages id (index + 1))

  abbrev pub remove_found :
      Option (ℕ × QueuedMessage) → String → c.State → (c.State × Option QueuedMessage)
  remove_found none user r = (r, none)
  remove_found (some (index, m)) user r = (
    c.lrem (message_queue user) 1 "__DELETED__" (c.lset (message_queue user) index "__DELETED__" r),
    some m,
  )

  unfoldable pub remove_queued_message :
      String → String → c.State → (c.State × Option QueuedMessage)
  remove_queued_message user id r =
      remove_found (find_message (c.lrange (message_queue user) r) id 0) user r
