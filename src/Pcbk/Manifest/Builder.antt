-- ===== src/Pcbk/Manifest/Builder.antt =====
-- createManifestBuilder of packages/pcbk-core/src/manifest.ts: the writer's count of its records. A
-- call returns the new state beside its outcome, since a call that throws has counted already.
pub mod Tracked
pub mod Consistent
use private_communication.Common.{
  ℕ, suc, ◌+◌, String, Bool, true, false, Option, none, some, List, [], ◌∷◌, ◌++◌, str_eq,
  if◌then◌else◌, Result, ok, err, ◌>>=◌, ◌>>◌, guard, expect,
}
use private_communication.Pcbk.Value.{
  Number, nat, Value, num, is_non_negative_safe_integer, is_positive_safe_integer,
}
use private_communication.Pcbk.RecordHeader.{
  RecordType, identity, peer_keys_batch, messages_batch, link_previews_batch, outbox_batch,
  attachment_meta, attachment_chunk, transfer_queue_meta, transfer_queue_chunk, remote_media_meta,
  remote_media_chunk, manifest,
}
use private_communication.Pcbk.Manifest.{
  ObjectEntry, ManifestCounts, ManifestObjects, ManifestSummary, ManifestPayload,
}

pub record Builder : Type 0 where
  pub counts : ManifestCounts
  pub attachments : List ObjectEntry
  pub transfer_queue : List ObjectEntry
  pub remote_media : List ObjectEntry
  pub tracked_record_count : ℕ

-- createEmptyCounts
abbrev pub empty_counts : ManifestCounts
empty_counts = record {
  peer_keys = 0;
  messages = 0;
  link_previews = 0;
  outbox = 0;
  attachments = 0;
  attachment_chunks = 0;
  transfer_queue = 0;
  transfer_queue_chunks = 0;
  remote_media = 0;
  remote_media_chunks = 0;
}

abbrev pub create_manifest_builder : Builder
create_manifest_builder = record {
  counts = empty_counts;
  attachments = [];
  transfer_queue = [];
  remote_media = [];
  tracked_record_count = 0;
}

-- The argument of trackRecord; its type is never `manifest`, and `itemCount` is 0 where it is absent.
pub record TrackInput : Type 0 where
  pub type : RecordType
  pub item_count : Number
  pub object_id : Option String
  pub chunk_count : Option Number
  pub size : Option Number

abbrev of_number : Option Number → (Value → Option ℕ) → Option ℕ
of_number none p = none
of_number (some n) p = p (num n)

abbrev non_empty : Option String → Option String
non_empty none = none
non_empty (some s) = if str_eq s "" then none else some s

-- createObjectEntry
unfoldable pub create_object_entry : TrackInput → Result String ObjectEntry
create_object_entry i = do
  object_id ← expect (non_empty i.object_id) "the record type requires objectId"
  chunk_count ←
      expect (of_number i.chunk_count is_positive_safe_integer)
        "the record type requires a positive safe chunkCount"
  size ←
      expect (of_number i.size is_non_negative_safe_integer)
        "the record type requires a non-negative safe size"
  ok (record { object_id = object_id; chunk_count = chunk_count; size = size })

-- `list.push(createObjectEntry(…))`, where the entry may throw.
abbrev push :
    Builder
    → (ObjectEntry → Builder)
    → Result String ObjectEntry
    → Builder × Result String (Unit {0})
push b add (ok e) = (add e, ok tt)
push b add (err m) = (b, err m)

-- The `switch` of trackRecord.
pub track_type :
    RecordType → ℕ → Result String ObjectEntry → Builder → Builder × Result String (Unit {0})
track_type identity n e b = (b, ok tt)
track_type peer_keys_batch n e b =
    (record b { counts = record (b.counts) { peer_keys = b.counts.peer_keys + n } }, ok tt)
track_type messages_batch n e b =
    (record b { counts = record (b.counts) { messages = b.counts.messages + n } }, ok tt)
track_type link_previews_batch n e b =
    (record b { counts = record (b.counts) { link_previews = b.counts.link_previews + n } }, ok tt)
track_type outbox_batch n e b =
    (record b { counts = record (b.counts) { outbox = b.counts.outbox + n } }, ok tt)
track_type attachment_meta n e b =
    let c = record b { counts = record (b.counts) { attachments = b.counts.attachments + 1 } } in
    push c (λ x. record c { attachments = c.attachments ++ x ∷ [] }) e
track_type attachment_chunk n e b = (
  record b { counts = record (b.counts) { attachment_chunks = b.counts.attachment_chunks + 1 } },
  ok tt,
)
track_type transfer_queue_meta n e b =
    let c = record b {
      counts = record (b.counts) { transfer_queue = b.counts.transfer_queue + 1 };
    } in
    push c (λ x. record c { transfer_queue = c.transfer_queue ++ x ∷ [] }) e
track_type transfer_queue_chunk n e b = (
  record b {
    counts = record (b.counts) { transfer_queue_chunks = b.counts.transfer_queue_chunks + 1 };
  },
  ok tt,
)
track_type remote_media_meta n e b =
    let c = record b { counts = record (b.counts) { remote_media = b.counts.remote_media + 1 } } in
    push c (λ x. record c { remote_media = c.remote_media ++ x ∷ [] }) e
track_type remote_media_chunk n e b = (
  record b {
    counts = record (b.counts) { remote_media_chunks = b.counts.remote_media_chunks + 1 };
  },
  ok tt,
)
track_type manifest n e b = (b, ok tt)

-- trackRecord
unfoldable pub track_record : Builder → TrackInput → Builder × Result String (Unit {0})
unfolding track_type create_object_entry
track_record b i = elim (is_non_negative_safe_integer (num i.item_count)) [
  | none ↦ (b, err "itemCount must be a non-negative safe integer")
  | some n ↦
      track_type i.type n (create_object_entry i)
        (record b { tracked_record_count = b.tracked_record_count + 1 })
]

-- A run of calls that ends with the first one that throws.
unfoldable pub track_all : Builder → List TrackInput → Builder × Result String (Unit {0})
track_all b [] = (b, ok tt)
track_all b (i ∷ is) =
    let (c, outcome) = track_record b i in
    elim outcome [ ok _ ↦ track_all c is | err m ↦ (c, err m) ]

-- build
abbrev pub build : ManifestSummary → Builder → ManifestPayload
build summary b = record {
  summary = record summary { total_record_count = b.tracked_record_count + 1 };
  counts = b.counts;
  objects = record {
    attachments = b.attachments;
    transfer_queue = b.transfer_queue;
    remote_media = b.remote_media;
  };
}
