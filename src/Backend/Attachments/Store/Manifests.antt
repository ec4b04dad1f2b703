-- ===== src/Backend/Attachments/Store/Manifests.antt =====
-- The manifests of attachments in backend/src/services/attachments.ts.
use private_communication.Common.{
  ℕ, String, not, ◌&&◌, Option, none, some, str_eq, leb, if◌then◌else◌, present,
}
use private_communication.Backend.Attachments.Store.{
  is_uuid_v4, upload_attachment_index, attachment_manifest_key, to_positive_ttl_seconds,
  UploadSession, AttachmentManifest, Depot, State, on_redis, delete_key,
  get_attachment_id_by_upload_id, remove_attachment_artifacts, remove_artifacts_if_lease_missing,
  set_indexes,
}
use private_communication.Backend.Attachments.Store.Sessions.{get_attachment_upload_session}

module _ (v : Depot) where
  unfoldable pub set_attachment_manifest : AttachmentManifest → ℕ → State v → State v
  set_attachment_manifest manifest now w =
      let ttl = to_positive_ttl_seconds manifest.expires_at now in
      on_redis v
        (λ r. set_indexes v manifest.upload_id manifest.attachment_id ttl (
          v.client.set_ex (attachment_manifest_key manifest.attachment_id)
            (v.manifest_text manifest) ttl r))
        w

  abbrev pub checked_manifest :
      Option AttachmentManifest → String → ℕ → State v → (State v × Option AttachmentManifest)
  checked_manifest none id now w =
      (remove_artifacts_if_lease_missing v id (delete_key v (attachment_manifest_key id) w), none)
  checked_manifest (some m) id now w =
      if not (is_uuid_v4 m.attachment_id && is_uuid_v4 m.upload_id && str_eq m.attachment_id id)
      then (
        remove_artifacts_if_lease_missing v id (delete_key v (attachment_manifest_key id) w),
        none,
      )
      else if leb m.expires_at now
      then (
        remove_attachment_artifacts v m.attachment_id (delete_key v (attachment_manifest_key id) w),
        none,
      )
      else (w, some m)

  abbrev pub parsed_manifest :
      Option String → String → ℕ → State v → (State v × Option AttachmentManifest)
  parsed_manifest none id now w = (remove_artifacts_if_lease_missing v id w, none)
  parsed_manifest (some raw) id now w = checked_manifest (v.read_manifest raw) id now w

  unfoldable pub get_attachment_manifest :
      String → ℕ → State v → (State v × Option AttachmentManifest)
  get_attachment_manifest id now w =
      if is_uuid_v4 id
      then parsed_manifest (present (v.client.get (attachment_manifest_key id) w.redis)) id now w
      else (w, none)

  abbrev pub manifest_or_index :
      (State v × Option AttachmentManifest) → String → (State v × Option AttachmentManifest)
  manifest_or_index (w, some m) upload = (w, some m)
  manifest_or_index (w, none) upload = (delete_key v (upload_attachment_index upload) w, none)

  abbrev pub manifest_of_upload :
      Option String → String → ℕ → State v → (State v × Option AttachmentManifest)
  manifest_of_upload none upload now w = (w, none)
  manifest_of_upload (some id) upload now w =
      manifest_or_index (get_attachment_manifest id now w) upload

  unfoldable pub get_attachment_manifest_by_upload_id :
      String → ℕ → State v → (State v × Option AttachmentManifest)
  get_attachment_manifest_by_upload_id upload now w =
      manifest_of_upload (present (get_attachment_id_by_upload_id v upload w)) upload now w

  abbrev pub clear_by_session : (State v × Option UploadSession) → (State v × Option String)
  clear_by_session (w, none) = (w, none)
  clear_by_session (w, some session) =
      (remove_attachment_artifacts v session.attachment_id w, some session.attachment_id)

  abbrev pub clear_found : Option String → String → ℕ → State v → (State v × Option String)
  clear_found (some id) upload now w = (remove_attachment_artifacts v id w, some id)
  clear_found none upload now w = clear_by_session (get_attachment_upload_session v upload now w)

  unfoldable pub clear_attachment_artifacts_by_upload_id :
      String → ℕ → State v → (State v × Option String)
  clear_attachment_artifacts_by_upload_id upload now w =
      clear_found (present (get_attachment_id_by_upload_id v upload w)) upload now w
