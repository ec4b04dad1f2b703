-- ===== src/Backend/Attachments/Routes/Completing.antt =====
-- The route of backend/src/routes/attachments.ts that completes an upload.
use private_communication.Common.{
  ℕ, String, Bool, false, not, Option, none, some, length, str_eq, ltb, if◌then◌else◌, present,
}
use private_communication.Backend.Attachments.Policy.{
  invalid_file_metadata, unauthorized, recipient_not_allowed, upload_not_found, upload_incomplete,
}
use private_communication.Backend.Attachments.Store.{
  is_uuid_v4, UploadSession, AttachmentManifest, State,
}
use private_communication.Backend.Attachments.Store.Sessions.{
  get_attachment_upload_session, clear_attachment_upload_session,
}
use private_communication.Backend.Attachments.Store.Manifests.{set_attachment_manifest}
use private_communication.Backend.Attachments.Routes.{
  CompleteUpload, refused, completed, Service, Answer,
}

module _ (v : Service) where
  abbrev pub either_hash : Option String → Option String → Option String
  either_hash none known = known
  either_hash (some given) known = some given

  abbrev pub hashes_differ : Option String → Option String → Bool
  hashes_differ none known = false
  hashes_differ (some given) none = false
  hashes_differ (some given) (some known) = not (str_eq given known)

  unfoldable pub manifest_of : UploadSession → CompleteUpload → AttachmentManifest
  manifest_of session d = record {
    attachment_id = session.attachment_id;
    upload_id = session.upload_id;
    sender_id = session.sender_id;
    recipient_id = session.recipient_id;
    file_name = session.file_name;
    mime_type = session.mime_type;
    kind = session.kind;
    total_size = session.total_size;
    chunk_size = session.chunk_size;
    chunk_count = session.chunk_count;
    created_at = session.created_at;
    expires_at = session.expires_at;
    hash_sha256 = either_hash d.hash_sha256 session.hash_sha256;
    signature = some d.manifest_signature;
  }

  unfoldable pub complete_checked :
      UploadSession → String → String → String → CompleteUpload → ℕ → State v.depot → Answer v
  complete_checked session sender key upload d now w =
      if not (str_eq session.sender_id sender)
      then (w, refused 403 recipient_not_allowed)
      else if ltb (length session.received_chunks) session.chunk_count
      then (w, refused 409 upload_incomplete)
      else if hashes_differ (present d.hash_sha256) (present session.hash_sha256)
      then (w, refused 400 invalid_file_metadata)
      else if v.verify (v.manifest_payload (manifest_of session d)) d.manifest_signature key
      then (
        clear_attachment_upload_session v.depot upload
            (set_attachment_manifest v.depot (manifest_of session d) now w),
        completed (manifest_of session d),
      )
      else (w, refused 401 unauthorized)

  abbrev pub complete_found :
      (State v.depot × Option UploadSession)
      → String
      → String
      → String
      → CompleteUpload
      → ℕ
      → Answer v
  complete_found (w, none) sender key upload d now = (w, refused 404 upload_not_found)
  complete_found (w, some session) sender key upload d now =
      complete_checked session sender key upload d now w

  abbrev pub complete_as :
      Option String → Option String → String → Option CompleteUpload → ℕ → State v.depot → Answer v
  complete_as none key upload body now w = (w, refused 401 unauthorized)
  complete_as (some sender) none upload body now w = (w, refused 401 unauthorized)
  complete_as (some sender) (some key) upload none now w = (w, refused 400 invalid_file_metadata)
  complete_as (some sender) (some key) upload (some d) now w =
      if is_uuid_v4 upload
      then complete_found (get_attachment_upload_session v.depot upload now w) sender key upload d
          now
      else (w, refused 400 invalid_file_metadata)

  -- POST /:uploadId/complete
  unfoldable pub complete_upload :
      Option String → Option String → String → Option CompleteUpload → ℕ → State v.depot → Answer v
  complete_upload user key upload body now w =
      complete_as (present user) (present key) upload body now w
