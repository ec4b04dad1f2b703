-- ===== src/Backend/Queue/Removal.antt =====
-- Which message an acknowledgement takes out of a queue.
use private_communication.Common.{
  ℕ, ◌+◌, ◌≡◌, ◌≢◌, refl, ap, ◌∙◌, String, Option, none, some, List, [], ◌∷◌, ◌++◌, arith, All,
  length, set, str_eq, str_eq_iff, if◌then◌else◌,
}
use private_communication.Pcbk.Value.{Value}
use private_communication.Backend.Redis.{Client}
use private_communication.Backend.Redis.Keys.{message_queue}
use private_communication.Backend.Queue.{
  QueuedMessage, parsed_message, has_id, find_message, remove_queued_message,
}

-- What LREM does with a count of 1: the first element that is equal goes.
abbrev pub remove_first : String → List String → List String
remove_first x [] = []
remove_first x (y ∷ ys) = if str_eq y x then ys else y ∷ remove_first x ys

-- LSET and LREM act on the list that LRANGE shows.
pub record IsIndexed (c : Client) : Type 0 where
  pub sets :
      (key value : String) (i : ℕ) (r : c.State)
      → c.lrange key (c.lset key i value r) ≡ set (c.lrange key r) i value
  pub removes :
      (key value : String) (r : c.State)
      → c.lrange key (c.lrem key 1 value r) ≡ remove_first value (c.lrange key r)

set-append :
    (xs ys : List String) (y z : String) → set (xs ++ (y ∷ ys)) (length xs) z ≡ xs ++ (z ∷ ys)
set-append [] ys y z = refl
set-append (x ∷ xs) ys y z = ap (◌∷◌ x) (set-append xs ys y z)

remove_first-append :
    (xs ys : List String) (z : String)
    → All (λ x. x ≢ z) xs
    → remove_first z (xs ++ (z ∷ ys)) ≡ xs ++ ys
remove_first-append [] ys z h = rw ((str_eq_iff z z).1 refl) refl
remove_first-append (x ∷ xs) ys z h =
    ground (arith, str_eq_iff x z, remove_first-append xs ys z h.1)

module _ (c : Client) (schema : Value → Option QueuedMessage) (id : String) where
  -- The text is no message with the identifier: it is no JSON, or the schema refuses it, or it is
  -- another message.
  abbrev pub IsOther : String → Type 0
  IsOther text = has_id c schema (parsed_message c schema text) id ≡ none

  find_message_first :
      (before after : List String) (text : String) (m : QueuedMessage) (start : ℕ)
      → All IsOther before
      → parsed_message c schema text ≡ some m
      → m.id ≡ id
      → find_message c schema (before ++ (text ∷ after)) id start ≡ some (start + length before, m)
  unfolding find_message
  find_message_first [] after text m start h e same =
      rw e (rw ((str_eq_iff m.id id).1 same) (ap (λ i. some (i, m)) (omega arith)))
  find_message_first (x ∷ before) after text m start h e same = rw h.0 (
      find_message_first before after text m (start + 1) h.1 e same
      ∙ ap (λ i. some (i, m)) (omega arith))

-- removeQueuedMessage takes out the first message of the user's queue that has the identifier, and no
-- other: the messages before it and behind it stay, in their order, also those that are no JSON or no
-- messages, and the message is what it returns. No text before it is the marker with which the code
-- overwrites the message.
pub remove_queued_message_first :
    (c : Client) (schema : Value → Option QueuedMessage) (user id : String)
    → (before after : List String) (text : String) (m : QueuedMessage) (r : c.State) → IsIndexed c
    → c.lrange (message_queue user) r ≡ before ++ (text ∷ after)
    → All (λ x. x ≢ "__DELETED__") before
    → All (IsOther c schema id) before
    → parsed_message c schema text ≡ some m
    → m.id ≡ id
    → (c.lrange (message_queue user) (remove_queued_message c schema user id r).0 ≡ before ++ after)
      × ((remove_queued_message c schema user id r).1 ≡ some m)
unfolding remove_queued_message
remove_queued_message_first c schema user id before after text m r law queue plain others e same =
    let found : find_message c schema (c.lrange (message_queue user) r) id 0
        ≡ some (length before, m) =
      rw queue (
        find_message_first c schema id before after text m 0 others e same
        ∙ ap (λ i. some (i, m)) (omega arith)) in
    rw found (
      law.removes (message_queue user) "__DELETED__"
            (c.lset (message_queue user) (length before) "__DELETED__" r)
          ∙ ap (remove_first "__DELETED__") (
              law.sets (message_queue user) "__DELETED__" (length before) r
              ∙ ap (λ xs. set xs (length before) "__DELETED__") queue
              ∙ set-append before after text "__DELETED__")
          ∙ remove_first-append before after "__DELETED__" plain,
      refl,
    )
