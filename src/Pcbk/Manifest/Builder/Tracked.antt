-- ===== src/Pcbk/Manifest/Builder/Tracked.antt =====
-- What the builder has counted after a run of calls, against the list of the calls.
use mathlib.Core.List.{append_assoc, append-nil}
use private_communication.Common.{
  ℕ, ◌+◌, ◌≡◌, refl, ap, ◌∙◌, Bool, List, [], ◌∷◌, ◌++◌, length, ok, err, Result, String, some,
  ◌==◌, if◌then◌else◌, arith, Option-cases, Result-cases, inl, inr,
}
use private_communication.Pcbk.Value.{Number, nat, num, is_non_negative_safe_integer, checks}
use private_communication.Pcbk.RecordHeader.{
  RecordType, identity, peer_keys_batch, messages_batch, link_previews_batch, outbox_batch,
  attachment_meta, attachment_chunk, transfer_queue_meta, transfer_queue_chunk, remote_media_meta,
  remote_media_chunk, manifest,
}
use private_communication.Pcbk.Manifest.{ObjectEntry}
use private_communication.Pcbk.Manifest.Builder.{
  Builder, TrackInput, create_object_entry, track_type, track_record, track_all,
}

abbrev rank : RecordType → ℕ
rank identity = 0
rank peer_keys_batch = 1
rank messages_batch = 2
rank link_previews_batch = 3
rank outbox_batch = 4
rank attachment_meta = 5
rank attachment_chunk = 6
rank transfer_queue_meta = 7
rank transfer_queue_chunk = 8
rank remote_media_meta = 9
rank remote_media_chunk = 10
rank manifest = 11

abbrev pub is_of : RecordType → TrackInput → Bool
is_of t i = rank t == rank i.type

abbrev pub item_number : Number → ℕ
item_number (nat n) = n
item_number _ = 0

-- The items of the calls of one type, and the number of those calls.
abbrev pub items : RecordType → List TrackInput → ℕ
items t [] = 0
items t (i ∷ is) = (if is_of t i then item_number i.item_count else 0) + items t is

abbrev pub calls : RecordType → List TrackInput → ℕ
calls t [] = 0
calls t (i ∷ is) = (if is_of t i then 1 else 0) + calls t is

-- The entries that the calls of one type describe.
abbrev entry_list : Result String ObjectEntry → List ObjectEntry
entry_list (ok e) = e ∷ []
entry_list (err m) = []

abbrev pub entries : RecordType → List TrackInput → List ObjectEntry
entries t [] = []
entries t (i ∷ is) = (if is_of t i then entry_list (create_object_entry i) else []) ++ entries t is

-- The builder `c` is `b` after the calls.
pub record Tracked (b : Builder) (is : List TrackInput) (c : Builder) : Type 0 where
  pub peer_keys : c.counts.peer_keys ≡ b.counts.peer_keys + items peer_keys_batch is
  pub messages : c.counts.messages ≡ b.counts.messages + items messages_batch is
  pub link_previews : c.counts.link_previews ≡ b.counts.link_previews + items link_previews_batch is
  pub outbox : c.counts.outbox ≡ b.counts.outbox + items outbox_batch is
  pub attachments : c.counts.attachments ≡ b.counts.attachments + calls attachment_meta is
  pub attachment_chunks :
      c.counts.attachment_chunks ≡ b.counts.attachment_chunks + calls attachment_chunk is
  pub transfer_queue :
      c.counts.transfer_queue ≡ b.counts.transfer_queue + calls transfer_queue_meta is
  pub transfer_queue_chunks :
      c.counts.transfer_queue_chunks
      ≡ b.counts.transfer_queue_chunks + calls transfer_queue_chunk is
  pub remote_media : c.counts.remote_media ≡ b.counts.remote_media + calls remote_media_meta is
  pub remote_media_chunks :
      c.counts.remote_media_chunks ≡ b.counts.remote_media_chunks + calls remote_media_chunk is
  pub attachment_entries : c.attachments ≡ b.attachments ++ entries attachment_meta is
  pub transfer_queue_entries : c.transfer_queue ≡ b.transfer_queue ++ entries transfer_queue_meta is
  pub remote_media_entries : c.remote_media ≡ b.remote_media ++ entries remote_media_meta is
  pub records : c.tracked_record_count ≡ b.tracked_record_count + length is

item_number-safe :
    (n : Number) {k : ℕ} → is_non_negative_safe_integer (num n) ≡ some k → item_number n ≡ k
unfolding checks
item_number-safe (nat n) e = ground arith
item_number-safe _ e = cc

type-Tracked :
    (b c : Builder) (t : RecordType) (i : TrackInput)
    → i.type ≡ t
    → track_type t
        (item_number i.item_count)
        (create_object_entry i)
        (record b { tracked_record_count = b.tracked_record_count + 1 })
      ≡ (c, ok tt)
    → Tracked b (i ∷ []) c
unfolding track_type
type-Tracked b c identity i e h =
    ground (arith, append-nil b.attachments, append-nil b.transfer_queue, append-nil b.remote_media)
type-Tracked b c _ i e h =
    ground (arith, append-nil b.attachments, append-nil b.transfer_queue, append-nil b.remote_media)

record-Tracked :
    (b c : Builder) (i : TrackInput) → track_record b i ≡ (c, ok tt) → Tracked b (i ∷ []) c
unfolding track_record
record-Tracked b c i e = elim (Option-cases (is_non_negative_safe_integer (num i.item_count))) [
  | inl h ↦ cc (rw (h, track_record) at e)
  | inr (n, h) ↦
      type-Tracked b c i.type i refl
        (rw (item_number-safe i.item_count h) (rw (h, track_record) at e))
]

join :
    (b : List ObjectEntry) {c d : List ObjectEntry} (w r : List ObjectEntry)
    → c ≡ b ++ (w ++ [])
    → d ≡ c ++ r
    → d ≡ b ++ (w ++ r)
join b w r p q = q ∙ ap (λ l. l ++ r) (p ∙ ap (◌++◌ b) (append-nil w)) ∙ append_assoc b w r

-- Calls one after the other.
then-Tracked :
    (b c d : Builder) (i : TrackInput) (is : List TrackInput)
    → Tracked b (i ∷ []) c
    → Tracked c is d
    → Tracked b (i ∷ is) d
then-Tracked b c d i is s t = record {
  peer_keys = omega (arith, s.peer_keys, t.peer_keys);
  messages = omega (arith, s.messages, t.messages);
  link_previews = omega (arith, s.link_previews, t.link_previews);
  outbox = omega (arith, s.outbox, t.outbox);
  attachments = omega (arith, s.attachments, t.attachments);
  attachment_chunks = omega (arith, s.attachment_chunks, t.attachment_chunks);
  transfer_queue = omega (arith, s.transfer_queue, t.transfer_queue);
  transfer_queue_chunks = omega (arith, s.transfer_queue_chunks, t.transfer_queue_chunks);
  remote_media = omega (arith, s.remote_media, t.remote_media);
  remote_media_chunks = omega (arith, s.remote_media_chunks, t.remote_media_chunks);
  attachment_entries = join _ _ _ s.attachment_entries t.attachment_entries;
  transfer_queue_entries = join _ _ _ s.transfer_queue_entries t.transfer_queue_entries;
  remote_media_entries = join _ _ _ s.remote_media_entries t.remote_media_entries;
  records = omega (arith, s.records, t.records);
}

-- The builder after any run of calls that all return: each count of a batch type has grown by the
-- items of its calls, each other count by the number of its calls, each object list by the entries of
-- its calls in their order, and the number of records by the number of calls.
pub track_all-Tracked :
    (b c : Builder) (is : List TrackInput) → track_all b is ≡ (c, ok tt) → Tracked b is c
unfolding track_all
track_all-Tracked b c [] e =
    ground (arith, append-nil b.attachments, append-nil b.transfer_queue, append-nil b.remote_media)
track_all-Tracked b c (i ∷ is) e = elim (Result-cases (track_record b i).1) [
  | inl (_, h) ↦
      then-Tracked b (track_record b i).0 c i is
        (record-Tracked b (track_record b i).0 i (λ j. ((track_record b i).0, h j)))
        (track_all-Tracked (track_record b i).0 c is (rw (h, track_all) at e))
  | inr (m, h) ↦ cc (rw (h, track_all) at e)
]
