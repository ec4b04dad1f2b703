-- ===== src/Tests/Manifests.antt =====
-- A manifest of one attachment in two chunks, written, checked and compared.
use mathlib.Core.List.{Perm}
use private_communication.Common.{ℕ, ◌≡◌, ◌↔◌, refl, true, none, some, List, [], ◌∷◌, replicate, ok}
use private_communication.Pcbk.Value.{
  nat, num, str, bytes, arr, obj, Value, cons, nil, Fields, field, end, checks, get,
}
use private_communication.Pcbk.RecordHeader.{
  RecordType, identity, messages_batch, attachment_meta, attachment_chunk,
}
use private_communication.Pcbk.ClearHeader.{full, validate_mode}
use private_communication.Pcbk.Manifest.{
  ObjectEntry, ManifestSummary, ManifestPayload, validate_manifest_payload, check_payload,
  compare_object_entries, assert_manifest_matches_expected, compare_entry, sort_entries,
  validate_object_entry, validate_object_list, validate_counts,
}
use private_communication.Pcbk.Manifest.Matched.{IsMatch, assert_manifest_matches_expected-IsMatch}
use private_communication.Pcbk.Manifest.Compare.{
  compare_object_entries-perm, compare_object_entries_iff,
}
use private_communication.Pcbk.Manifest.Validated.{
  IsConsistent, validate_manifest_payload-IsConsistent,
}
use private_communication.Pcbk.Manifest.Builder.{
  Builder, TrackInput, empty_counts, create_manifest_builder, create_object_entry, track_record,
  track_all, build,
}
use private_communication.Pcbk.Manifest.Builder.Tracked.{Tracked, track_all-Tracked}
use private_communication.Pcbk.Manifest.Builder.Consistent.{IsChunked, check_payload-build_iff}
use private_communication.Tests.Doubles.{by_code, by_code-IsCollation}

open_manifests : Unit {0}
unfolding checks get validate_mode validate_object_entry validate_object_list validate_counts
    validate_manifest_payload compare_object_entries compare_entry sort_entries
    assert_manifest_matches_expected track_record track_all create_object_entry
open_manifests = tt

abbrev photo : ObjectEntry
photo = record { object_id = "photo"; chunk_count = 2; size = 300 }

abbrev track : RecordType → TrackInput
track t = record { type = t; item_count = nat 0; object_id = none; chunk_count = none; size = none }

abbrev calls : List TrackInput
calls =
    track identity
    ∷ record (track messages_batch) { item_count = nat 5 }
    ∷ record (track attachment_meta) {
      object_id = some "photo";
      chunk_count = some (nat 2);
      size = some (nat 300);
    }
    ∷ track attachment_chunk
    ∷ track attachment_chunk
    ∷ []

abbrev built : Builder
built = record create_manifest_builder {
  counts = record (create_manifest_builder.counts) {
    messages = 5;
    attachments = 1;
    attachment_chunks = 2;
  };
  attachments = photo ∷ [];
  tracked_record_count = 5;
}

calls_run : track_all create_manifest_builder calls ≡ (built, ok tt)
unfolding open_manifests
calls_run = refl

track_all-Tracked_example : Tracked create_manifest_builder calls built
track_all-Tracked_example = track_all-Tracked create_manifest_builder built calls calls_run

abbrev summary : ManifestSummary
summary = record {
  backup_id = replicate 16 1;
  mode = full;
  created_at = 1700000000;
  total_record_count = 6;
}

check_payload-build_iff_example :
    (check_payload (build summary built) (record summary { total_record_count = 6 })
      ≡ ok (build summary built))
    ↔ IsChunked calls
check_payload-build_iff_example = check_payload-build_iff summary built calls calls_run

calls-IsChunked : IsChunked calls
unfolding open_manifests
calls-IsChunked = record { attachments = refl; transfer_queue = refl; remote_media = refl }

abbrev natural : ℕ → Value
natural n = num (nat n)

abbrev counts : Fields
counts = field "peerKeys" (natural 0) (
    field "messages" (natural 5) (
      field "linkPreviews" (natural 0) (
        field "outbox" (natural 0) (
          field "attachments" (natural 1) (
            field "attachmentChunks" (natural 2) (
              field "transferQueue" (natural 0) (
                field "transferQueueChunks" (natural 0) (
                  field "remoteMedia" (natural 0)
                    (field "remoteMediaChunks" (natural 0) end)))))))))

abbrev objects : Fields
objects =
    field "attachments"
      (arr (
        cons
          (obj (
            field "objectId" (str "photo")
              (field "size" (natural 300) (field "chunkCount" (natural 2) end))))
          nil))
      (field "transferQueue" (arr nil) (field "remoteMedia" (arr nil) end))

-- The manifest as it is decoded.
abbrev payload : Value
payload = obj (
    field "mode" (str "full") (
      field "totalRecordCount" (natural 6) (
        field "createdAt" (natural 1700000000) (
          field "backupId" (bytes (replicate 16 1))
            (field "counts" (obj counts) (field "objects" (obj objects) end))))))

validate_manifest_payload-IsConsistent_example : IsConsistent (build summary built) summary
unfolding open_manifests
validate_manifest_payload-IsConsistent_example =
    validate_manifest_payload-IsConsistent payload summary (build summary built) refl

abbrev note : ObjectEntry
note = record { object_id = "note"; chunk_count = 1; size = 7 }

compare_object_entries-perm_example : Perm (photo ∷ note ∷ []) (note ∷ photo ∷ [])
unfolding open_manifests
compare_object_entries-perm_example =
    compare_object_entries-perm by_code (photo ∷ note ∷ []) (note ∷ photo ∷ []) refl

compare_object_entries_iff_example :
    (compare_object_entries by_code (photo ∷ note ∷ []) (note ∷ photo ∷ []) ≡ true)
    ↔ Perm (photo ∷ note ∷ []) (note ∷ photo ∷ [])
compare_object_entries_iff_example =
    compare_object_entries_iff (λ s. Unit) by_code by_code-IsCollation (photo ∷ note ∷ [])
      (note ∷ photo ∷ []) (tt, (tt, tt))

abbrev manifest_of : List ObjectEntry → ManifestPayload
manifest_of entries = record {
  summary = summary;
  counts = record empty_counts { attachments = 2; attachment_chunks = 3 };
  objects = record { attachments = entries; transfer_queue = []; remote_media = [] };
}

assert_manifest_matches_expected-IsMatch_example :
    (manifest_of (photo ∷ note ∷ []) ≡ manifest_of (photo ∷ note ∷ []))
    × IsMatch (manifest_of (photo ∷ note ∷ [])) (manifest_of (note ∷ photo ∷ []))
unfolding open_manifests
assert_manifest_matches_expected-IsMatch_example =
    assert_manifest_matches_expected-IsMatch by_code (manifest_of (photo ∷ note ∷ []))
      (manifest_of (note ∷ photo ∷ [])) (manifest_of (photo ∷ note ∷ [])) refl
