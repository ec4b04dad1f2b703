-- ===== src/Pcbk/Manifest/Validated.antt =====
-- What the validator of manifests guarantees.
use private_communication.Common.{◌≡◌, subst, true, length, ok, arith, >>=-eq-ok}
use private_communication.Pcbk.Value.{Value}
use private_communication.Pcbk.Preamble.Words.{bytes_eq→eq, bytes_eq_refl}
use private_communication.Pcbk.ClearHeader.{Mode}
use private_communication.Pcbk.Manifest.{
  ManifestPayload, ManifestSummary, chunk_total, mode_eq, check_payload, read_payload,
  validate_manifest_payload,
}

-- A payload that agrees with the summary of the file and with itself.
pub record IsConsistent (p : ManifestPayload) (s : ManifestSummary) : Type 0 where
  pub summary : p.summary ≡ s
  pub attachments : p.counts.attachments ≡ length p.objects.attachments
  pub transfer_queue : p.counts.transfer_queue ≡ length p.objects.transfer_queue
  pub remote_media : p.counts.remote_media ≡ length p.objects.remote_media
  pub attachment_chunks : p.counts.attachment_chunks ≡ chunk_total p.objects.attachments
  pub transfer_queue_chunks : p.counts.transfer_queue_chunks ≡ chunk_total p.objects.transfer_queue
  pub remote_media_chunks : p.counts.remote_media_chunks ≡ chunk_total p.objects.remote_media

pub mode_eq→eq : (m n : Mode) → mode_eq m n ≡ true → m ≡ n
mode_eq→eq m n h = ground arith

mode_eq_refl : (m : Mode) → mode_eq m m ≡ true
mode_eq_refl m = ground arith

pub check_payload-IsConsistent :
    (p q : ManifestPayload) (s : ManifestSummary)
    → check_payload p s ≡ ok q
    → (p ≡ q) × IsConsistent p s
unfolding check_payload
check_payload-IsConsistent p q s e =
    (ground arith, ground (arith, bytes_eq→eq p.backup_id s.backup_id, mode_eq→eq p.mode s.mode))

pub consistent-check_payload :
    (p : ManifestPayload) (s : ManifestSummary) → IsConsistent p s → check_payload p s ≡ ok p
unfolding check_payload
consistent-check_payload p s c = ground (arith, bytes_eq_refl s.backup_id, mode_eq_refl s.mode)

-- Every manifest that is accepted carries the identifier, mode, time and record count of the file
-- that it stands in, and its counts are those of its own object lists.
pub validate_manifest_payload-IsConsistent :
    (v : Value) (s : ManifestSummary) (p : ManifestPayload)
    → validate_manifest_payload v s ≡ ok p
    → IsConsistent p s
unfolding validate_manifest_payload
validate_manifest_payload-IsConsistent v s p e =
    let (q, _, checked) = >>=-eq-ok (read_payload v) _ e in
    let (same, consistent) = check_payload-IsConsistent q p s checked in
    subst (λ r. IsConsistent r s) same consistent
