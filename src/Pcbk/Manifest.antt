-- ===== src/Pcbk/Manifest.antt =====
-- The manifest, the last record of a backup: the validator and the comparison of
-- packages/pcbk-core/src/manifest.ts. The builder is in the child `Builder`. Counts are sums of safe
-- integers that stay exact, as they do below 2^53.
pub mod Compare
pub mod Validated
pub mod Matched
pub mod Builder
use private_communication.Common.{
  ℕ, ◌+◌, String, Bool, true, false, ◌&&◌, Option, none, some, List, [], ◌∷◌, ◌++◌, length, ◌==◌,
  str_eq, if◌then◌else◌, ℤ, sub_ℕ, is_negative, Result, ok, err, ◌>>=◌, ◌>>◌, guard, expect,
  traverse,
}
use private_communication.Pcbk.Constants.{backup_id_bytes}
use private_communication.Pcbk.Value.{
  Value, is_cbor_record, is_array, is_non_empty_string, is_non_negative_safe_integer,
  is_positive_safe_integer,
}
use private_communication.Pcbk.Preamble.{bytes_eq}
use private_communication.Pcbk.ClearHeader.{
  Mode, identity_only, full, validate_mode, bytes_of_length,
}

-- ManifestObjectEntry
pub record ObjectEntry : Type 0 where
  pub object_id : String
  pub chunk_count : ℕ
  pub size : ℕ

pub record ManifestCounts : Type 0 where
  pub peer_keys : ℕ
  pub messages : ℕ
  pub link_previews : ℕ
  pub outbox : ℕ
  pub attachments : ℕ
  pub attachment_chunks : ℕ
  pub transfer_queue : ℕ
  pub transfer_queue_chunks : ℕ
  pub remote_media : ℕ
  pub remote_media_chunks : ℕ

pub record ManifestObjects : Type 0 where
  pub attachments : List ObjectEntry
  pub transfer_queue : List ObjectEntry
  pub remote_media : List ObjectEntry

pub record ManifestSummary : Type 0 where
  pub backup_id : List ℕ
  pub mode : Mode
  pub created_at : ℕ
  pub total_record_count : ℕ

pub record ManifestPayload : Type 0 where
  pub summary : ManifestSummary
  pub open summary use *
  pub counts : ManifestCounts
  pub objects : ManifestObjects

-- validateManifestObjectEntry. The messages leave out the name of the list.
unfoldable pub validate_object_entry : Value → Result String ObjectEntry
validate_object_entry v = do
  value ← expect (is_cbor_record v) "entry must be an object"
  object_id ← expect (is_non_empty_string (value "objectId")) "objectId must be a non-empty string"
  size ←
      expect (is_non_negative_safe_integer (value "size"))
        "size must be a non-negative safe integer"
  chunk_count ←
      expect (is_positive_safe_integer (value "chunkCount"))
        "chunkCount must be a positive safe integer"
  ok (record { object_id = object_id; chunk_count = chunk_count; size = size })

-- validateManifestObjectList
unfoldable pub validate_object_list : Value → Result String (List ObjectEntry)
validate_object_list v = do
  entries ← expect (is_array v) "object list must be an array"
  traverse validate_object_entry entries

abbrev count_of : (String → Value) → String → Result String ℕ
count_of value key =
    expect (is_non_negative_safe_integer (value key)) "counts must be non-negative safe integers"

-- validateManifestCounts
unfoldable pub validate_counts : Value → Result String ManifestCounts
validate_counts v = do
  value ← expect (is_cbor_record v) "counts must be an object"
  peer_keys ← count_of value "peerKeys"
  messages ← count_of value "messages"
  link_previews ← count_of value "linkPreviews"
  outbox ← count_of value "outbox"
  attachments ← count_of value "attachments"
  attachment_chunks ← count_of value "attachmentChunks"
  transfer_queue ← count_of value "transferQueue"
  transfer_queue_chunks ← count_of value "transferQueueChunks"
  remote_media ← count_of value "remoteMedia"
  remote_media_chunks ← count_of value "remoteMediaChunks"
  ok (record {
    peer_keys = peer_keys;
    messages = messages;
    link_previews = link_previews;
    outbox = outbox;
    attachments = attachments;
    attachment_chunks = attachment_chunks;
    transfer_queue = transfer_queue;
    transfer_queue_chunks = transfer_queue_chunks;
    remote_media = remote_media;
    remote_media_chunks = remote_media_chunks;
  })

-- `manifest.mode === expected.mode`
abbrev pub mode_eq : Mode → Mode → Bool
mode_eq identity_only identity_only = true
mode_eq full full = true
mode_eq _ _ = false

-- `objects.reduce((sum, entry) => sum + entry.chunkCount, 0)`
abbrev pub chunk_total : List ObjectEntry → ℕ
chunk_total [] = 0
chunk_total (e ∷ es) = e.chunk_count + chunk_total es

-- The last part of validateManifestPayload: what was read against the summary and against itself.
pub check_payload : ManifestPayload → ManifestSummary → Result String ManifestPayload
check_payload p summary = do
  guard (bytes_eq p.backup_id summary.backup_id) "manifest.backupId must match the clear header"
  guard (mode_eq p.mode summary.mode) "manifest.mode must match the clear header"
  guard (p.created_at == summary.created_at) "manifest.createdAt must match the clear header"
  guard (p.total_record_count == summary.total_record_count)
      "manifest.totalRecordCount must match the observed record count"
  guard (p.counts.attachments == length p.objects.attachments)
      "manifest attachment count must match attachment objects length"
  guard (p.counts.transfer_queue == length p.objects.transfer_queue)
      "manifest transferQueue count must match transferQueue objects length"
  guard (p.counts.remote_media == length p.objects.remote_media)
      "manifest remoteMedia count must match remoteMedia objects length"
  guard (p.counts.attachment_chunks == chunk_total p.objects.attachments)
      "manifest attachmentChunks must match attachment object chunk totals"
  guard (p.counts.transfer_queue_chunks == chunk_total p.objects.transfer_queue)
      "manifest transferQueueChunks must match transferQueue object chunk totals"
  guard (p.counts.remote_media_chunks == chunk_total p.objects.remote_media)
      "manifest remoteMediaChunks must match remoteMedia object chunk totals"
  ok p

pub read_objects : Value → Result String ManifestObjects
read_objects v = do
  objects ← expect (is_cbor_record v) "objects must be an object"
  attachments ← validate_object_list (objects "attachments")
  transfer_queue ← validate_object_list (objects "transferQueue")
  remote_media ← validate_object_list (objects "remoteMedia")
  ok (record {
    attachments = attachments;
    transfer_queue = transfer_queue;
    remote_media = remote_media;
  })

-- The first part: what the payload holds.
pub read_payload : Value → Result String ManifestPayload
unfolding read_objects
read_payload v = do
  value ← expect (is_cbor_record v) "manifest payload must be an object"
  mode ← expect (validate_mode (value "mode")) "manifest.mode must be \"identity-only\" or \"full\""
  total ←
      expect (is_positive_safe_integer (value "totalRecordCount"))
        "manifest.totalRecordCount must be a positive safe integer"
  created_at ←
      expect (is_positive_safe_integer (value "createdAt"))
        "manifest.createdAt must be a positive safe integer"
  backup_id ←
      bytes_of_length (value "backupId") backup_id_bytes "manifest.backupId must be bytes"
        "manifest.backupId must be 16 bytes"
  counts ← validate_counts (value "counts")
  objects ← read_objects (value "objects")
  ok (record {
    summary = record {
      backup_id = backup_id;
      mode = mode;
      created_at = created_at;
      total_record_count = total;
    };
    counts = counts;
    objects = objects;
  })

-- validateManifestPayload
unfoldable pub validate_manifest_payload : Value → ManifestSummary → Result String ManifestPayload
unfolding read_payload check_payload
validate_manifest_payload v summary = do p ← read_payload v; check_payload p summary

-- The comparison function of compareManifestObjectEntries, over `String.prototype.localeCompare`.
unfoldable pub compare_entry : (String → String → ℤ) → ObjectEntry → ObjectEntry → ℤ
compare_entry locale_compare first second =
    if str_eq first.object_id second.object_id
    then if first.chunk_count == second.chunk_count
      then sub_ℕ first.size second.size
      else sub_ℕ first.chunk_count second.chunk_count
    else locale_compare first.object_id second.object_id

-- `[...entries].sort(compare)`: the stable sort.
module _ (locale_compare : String → String → ℤ) where
  pub insert_entry : ObjectEntry → List ObjectEntry → List ObjectEntry
  insert_entry e [] = e ∷ []
  insert_entry e (f ∷ fs) =
      if is_negative (compare_entry locale_compare f e) then f ∷ insert_entry e fs else e ∷ f ∷ fs

  unfoldable pub sort_entries : List ObjectEntry → List ObjectEntry
  unfolding insert_entry
  sort_entries [] = []
  sort_entries (e ∷ es) = insert_entry e (sort_entries es)

abbrev pub entry_eq : ObjectEntry → ObjectEntry → Bool
entry_eq e f = str_eq e.object_id f.object_id && e.chunk_count == f.chunk_count && e.size == f.size

-- The loop over both sorted lists.
abbrev pub entries_eq : List ObjectEntry → List ObjectEntry → Bool
entries_eq [] right = true
entries_eq (e ∷ left) [] = false
entries_eq (e ∷ left) (f ∷ right) = entry_eq e f && entries_eq left right

-- compareManifestObjectEntries
unfoldable pub compare_object_entries :
    (String → String → ℤ) → List ObjectEntry → List ObjectEntry → Bool
compare_object_entries locale_compare left right =
    if length left == length right
    then entries_eq (sort_entries locale_compare left) (sort_entries locale_compare right)
    else false

-- assertManifestCountsMatchExpected
abbrev pub counts_eq : ManifestCounts → ManifestCounts → Bool
counts_eq m e =
    m.peer_keys == e.peer_keys
    && m.messages == e.messages
    && m.link_previews == e.link_previews
    && m.outbox == e.outbox
    && m.attachments == e.attachments
    && m.attachment_chunks == e.attachment_chunks
    && m.transfer_queue == e.transfer_queue
    && m.transfer_queue_chunks == e.transfer_queue_chunks
    && m.remote_media == e.remote_media
    && m.remote_media_chunks == e.remote_media_chunks

-- assertManifestMatchesExpected
unfoldable pub assert_manifest_matches_expected :
    (String → String → ℤ) → ManifestPayload → ManifestPayload → Result String ManifestPayload
assert_manifest_matches_expected locale_compare manifest expected = do
  guard (bytes_eq manifest.backup_id expected.backup_id)
      "manifest.backupId does not match expected backupId"
  guard (mode_eq manifest.mode expected.mode) "manifest.mode does not match expected mode"
  guard (manifest.created_at == expected.created_at)
      "manifest.createdAt does not match expected createdAt"
  guard (manifest.total_record_count == expected.total_record_count)
      "manifest.totalRecordCount does not match expected totalRecordCount"
  guard (counts_eq manifest.counts expected.counts) "manifest.counts does not match expected value"
  guard
      (compare_object_entries locale_compare manifest.objects.attachments
        expected.objects.attachments)
      "manifest.objects.attachments do not match expected objects"
  guard
      (compare_object_entries locale_compare manifest.objects.transfer_queue
        expected.objects.transfer_queue)
      "manifest.objects.transferQueue do not match expected objects"
  guard
      (compare_object_entries locale_compare manifest.objects.remote_media
        expected.objects.remote_media)
      "manifest.objects.remoteMedia do not match expected objects"
  ok manifest
