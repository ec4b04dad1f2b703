-- ===== src/Pcbk/Manifest/Matched.antt =====
-- What a manifest that matches the expected one says.
use mathlib.Core.List.{Perm}
use private_communication.Common.{◌≡◌, String, true, ◌==◌, ℤ, ok, arith, guard-eq-ok, ok-injective}
use private_communication.Pcbk.Preamble.{bytes_eq}
use private_communication.Pcbk.Preamble.Words.{bytes_eq→eq}
use private_communication.Pcbk.Manifest.{
  ManifestCounts, ManifestPayload, counts_eq, mode_eq, compare_object_entries,
  assert_manifest_matches_expected,
}
use private_communication.Pcbk.Manifest.Compare.{compare_object_entries-perm}
use private_communication.Pcbk.Manifest.Validated.{mode_eq→eq}

-- The same summary and counts, and the same objects in some order.
pub record IsMatch (m e : ManifestPayload) : Type 0 where
  pub summary : m.summary ≡ e.summary
  pub counts : m.counts ≡ e.counts
  pub attachments : Perm m.objects.attachments e.objects.attachments
  pub transfer_queue : Perm m.objects.transfer_queue e.objects.transfer_queue
  pub remote_media : Perm m.objects.remote_media e.objects.remote_media

counts_eq→eq : (m e : ManifestCounts) → counts_eq m e ≡ true → m ≡ e
counts_eq→eq m e h = ground arith

-- A manifest that the comparison with the expected one lets through is returned as it is. Its summary
-- and its counts are the expected ones, and each of its object lists is a permutation of the expected
-- one, whatever the comparison of texts is.
pub assert_manifest_matches_expected-IsMatch :
    (lc : String → String → ℤ) (m e r : ManifestPayload)
    → assert_manifest_matches_expected lc m e ≡ ok r
    → (m ≡ r) × IsMatch m e
unfolding assert_manifest_matches_expected
assert_manifest_matches_expected-IsMatch lc m e r h =
    let (a, h1) = guard-eq-ok (bytes_eq m.backup_id e.backup_id) _ _ h in
    let (b, h2) = guard-eq-ok (mode_eq m.mode e.mode) _ _ h1 in
    let (c, h3) = guard-eq-ok (m.created_at == e.created_at) _ _ h2 in
    let (d, h4) = guard-eq-ok (m.total_record_count == e.total_record_count) _ _ h3 in
    let (f, h5) = guard-eq-ok (counts_eq m.counts e.counts) _ _ h4 in
    let (x, h6) =
      guard-eq-ok (compare_object_entries lc m.objects.attachments e.objects.attachments) _ _ h5 in
    let (y, h7) =
      guard-eq-ok (compare_object_entries lc m.objects.transfer_queue e.objects.transfer_queue) _ _
        h6 in
    let (z, h8) =
      guard-eq-ok (compare_object_entries lc m.objects.remote_media e.objects.remote_media) _ _
        h7 in
    (
      ok-injective h8,
      record {
        summary = ground (arith, bytes_eq→eq m.backup_id e.backup_id, mode_eq→eq m.mode e.mode);
        counts = counts_eq→eq m.counts e.counts f;
        attachments = compare_object_entries-perm lc _ _ x;
        transfer_queue = compare_object_entries-perm lc _ _ y;
        remote_media = compare_object_entries-perm lc _ _ z;
      },
    )
