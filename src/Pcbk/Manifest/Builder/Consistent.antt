-- ===== src/Pcbk/Manifest/Builder/Consistent.antt =====
-- When the manifest that the builder returns is one that the validator accepts.
use private_communication.Common.{
  ℕ, ◌+◌, ◌≡◌, refl, ◌↔◌, List, [], ◌∷◌, length, length-append, ok, err, Result, String, arith,
  Result-cases, inl, inr, Option-cases,
}
use private_communication.Pcbk.Value.{num, is_non_negative_safe_integer}
use private_communication.Pcbk.RecordHeader.{
  RecordType, attachment_meta, attachment_chunk, transfer_queue_meta, transfer_queue_chunk,
  remote_media_meta, remote_media_chunk,
}
use private_communication.Pcbk.Manifest.{ObjectEntry, ManifestSummary, chunk_total, check_payload}
use private_communication.Pcbk.Manifest.Validated.{
  consistent-check_payload, check_payload-IsConsistent,
}
use private_communication.Pcbk.Manifest.Builder.{
  Builder, TrackInput, create_manifest_builder, create_object_entry, track_type, track_record,
  track_all, build,
}
use private_communication.Pcbk.Manifest.Builder.Tracked.{calls, entries, track_all-Tracked}

-- The three counts of objects are the lengths of the lists.
record IsCounted (b : Builder) : Type 0 where
  attachments : b.counts.attachments ≡ length b.attachments
  transfer_queue : b.counts.transfer_queue ≡ length b.transfer_queue
  remote_media : b.counts.remote_media ≡ length b.remote_media

type-IsCounted :
    (b c : Builder) (t : RecordType) (n : ℕ) (e : Result String ObjectEntry)
    → IsCounted b
    → track_type t n e b ≡ (c, ok tt)
    → IsCounted c
unfolding track_type
type-IsCounted b c t n (err m) v h = ground arith
type-IsCounted b c t n (ok e) v h = ground (
  arith,
  length-append b.attachments (e ∷ []),
  length-append b.transfer_queue (e ∷ []),
  length-append b.remote_media (e ∷ []),
)

record-IsCounted :
    (b c : Builder) (i : TrackInput) → IsCounted b → track_record b i ≡ (c, ok tt) → IsCounted c
unfolding track_record
record-IsCounted b c i v e = elim (Option-cases (is_non_negative_safe_integer (num i.item_count))) [
  | inl h ↦ cc (rw (h, track_record) at e)
  | inr (n, h) ↦
      type-IsCounted _ c i.type n (create_object_entry i)
        (record {
          attachments = v.attachments;
          transfer_queue = v.transfer_queue;
          remote_media = v.remote_media;
        })
        (rw (h, track_record) at e)
]

all-IsCounted :
    (b c : Builder) (is : List TrackInput) → IsCounted b → track_all b is ≡ (c, ok tt) → IsCounted c
unfolding track_all
all-IsCounted b c [] v e = ground arith
all-IsCounted b c (i ∷ is) v e = elim (Result-cases (track_record b i).1) [
  | inl (_, h) ↦
      all-IsCounted (track_record b i).0 c is
        (record-IsCounted b (track_record b i).0 i v (λ j. ((track_record b i).0, h j)))
        (rw (h, track_all) at e)
  | inr (m, h) ↦ cc (rw (h, track_all) at e)
]

-- Every object that was announced has as many chunk records as it said.
pub record IsChunked (is : List TrackInput) : Type 0 where
  pub attachments : calls attachment_chunk is ≡ chunk_total (entries attachment_meta is)
  pub transfer_queue : calls transfer_queue_chunk is ≡ chunk_total (entries transfer_queue_meta is)
  pub remote_media : calls remote_media_chunk is ≡ chunk_total (entries remote_media_meta is)

-- After a run of calls that all return, the validator's checks accept the built manifest against the
-- summary that it was built with, taken with one more record than there were calls, exactly when the
-- chunk records of each kind are as many as the objects of that kind announced.
pub check_payload-build_iff :
    (s : ManifestSummary) (c : Builder) (is : List TrackInput)
    → track_all create_manifest_builder is ≡ (c, ok tt)
    → (check_payload (build s c) (record s { total_record_count = length is + 1 }) ≡ ok (build s c))
      ↔ IsChunked is
check_payload-build_iff s c is e =
    let t = track_all-Tracked create_manifest_builder c is e in
    let v =
      all-IsCounted create_manifest_builder c is
        (record { attachments = refl; transfer_queue = refl; remote_media = refl }) e in
    (
      λ h.
          let k = (check_payload-IsConsistent _ _ _ h).1 in
          record {
            attachments = ground (arith, t, k);
            transfer_queue = ground (arith, t, k);
            remote_media = ground (arith, t, k);
          },
      λ k. consistent-check_payload _ _ (record {
        summary = ground (arith, t.records);
        attachments = v.attachments;
        transfer_queue = v.transfer_queue;
        remote_media = v.remote_media;
        attachment_chunks =
            ground (arith, t.attachment_chunks, t.attachment_entries, k.attachments);
        transfer_queue_chunks =
            ground (arith, t.transfer_queue_chunks, t.transfer_queue_entries, k.transfer_queue);
        remote_media_chunks =
            ground (arith, t.remote_media_chunks, t.remote_media_entries, k.remote_media);
      }),
    )
