-- ===== src/Backend/Attachments/Downloads.antt =====
-- The routes of backend/src/routes/attachments.ts that read: the status of an upload, a manifest, a
-- chunk, and the acknowledgement that ends an attachment.
use Prim.Native.String.{◌++◌ as str_append}
use private_communication.Common.{
  ℕ, String, Bool, not, ◌||◌, Option, none, some, List, length, str_eq, leb, ◌==◌, if◌then◌else◌,
  present, Result, ok, err,
}
use private_communication.Backend.Attachments.Policy.{
  invalid_file_metadata, unauthorized, recipient_not_allowed, upload_not_found,
  attachment_not_found, chunk_not_found, upload_storage_error,
}
use private_communication.Backend.Attachments.Store.{
  is_uuid_v4, UploadSession, AttachmentManifest, State,
}
use private_communication.Backend.Attachments.Store.Sessions.{get_attachment_upload_session}
use private_communication.Backend.Attachments.Store.Manifests.{
  get_attachment_manifest, get_attachment_manifest_by_upload_id,
  clear_attachment_artifacts_by_upload_id,
}
use private_communication.Backend.Attachments.Routes.{
  Ack, Response, refused, acknowledged, manifest_found, chunk_found, status_found, Service, Answer,
}

unfoldable pub build_attachment_ack_payload : String → String → String
build_attachment_ack_payload upload attachment =
    str_append "attachment-ack." (str_append upload (str_append "." attachment))

-- The sender and the recipient of an attachment.
unfoldable pub may_read : AttachmentManifest → String → Bool
may_read m user = str_eq m.sender_id user || str_eq m.recipient_id user

abbrev pub read_answer : Result String (Option (List ℕ)) → ℕ → ℕ → Response
read_answer (err e) index count = refused 500 upload_storage_error
read_answer (ok none) index count = refused 404 chunk_not_found
read_answer (ok (some chunk)) index count = chunk_found index count chunk

module _ (v : Service) where
  abbrev pub status_answer : (State v.depot × Option UploadSession) → String → Answer v
  status_answer (w, none) sender = (w, refused 404 upload_not_found)
  status_answer (w, some session) sender = (
    w,
    if str_eq session.sender_id sender
        then status_found session.received_chunks session.chunk_count
            (length session.received_chunks == session.chunk_count)
        else refused 403 recipient_not_allowed,
  )

  abbrev pub status_as : Option String → String → ℕ → State v.depot → Answer v
  status_as none upload now w = (w, refused 401 unauthorized)
  status_as (some sender) upload now w =
      if is_uuid_v4 upload
      then status_answer (get_attachment_upload_session v.depot upload now w) sender
      else (w, refused 400 invalid_file_metadata)

  -- GET /status/:uploadId
  unfoldable pub upload_status : Option String → String → ℕ → State v.depot → Answer v
  upload_status user upload now w = status_as (present user) upload now w

  abbrev pub manifest_answer : (State v.depot × Option AttachmentManifest) → String → Answer v
  manifest_answer (w, none) user = (w, refused 404 attachment_not_found)
  manifest_answer (w, some m) user =
      (w, if may_read m user then manifest_found m else refused 403 recipient_not_allowed)

  abbrev pub manifest_as : Option String → String → ℕ → State v.depot → Answer v
  manifest_as none attachment now w = (w, refused 401 unauthorized)
  manifest_as (some user) attachment now w =
      if is_uuid_v4 attachment
      then manifest_answer (get_attachment_manifest v.depot attachment now w) user
      else (w, refused 400 invalid_file_metadata)

  -- GET /:attachmentId/manifest
  unfoldable pub read_manifest_route : Option String → String → ℕ → State v.depot → Answer v
  read_manifest_route user attachment now w = manifest_as (present user) attachment now w

  abbrev pub chunk_answer :
      (State v.depot × Option AttachmentManifest) → String → String → ℕ → Answer v
  chunk_answer (w, none) user attachment index = (w, refused 404 attachment_not_found)
  chunk_answer (w, some m) user attachment index = (
    w,
    if may_read m user
        then (if leb m.chunk_count index
            then refused 400 invalid_file_metadata
            else read_answer (v.depot.read_chunk attachment index w.disk) index m.chunk_count)
        else refused 403 recipient_not_allowed,
  )

  abbrev pub chunk_as : Option String → String → ℕ → ℕ → State v.depot → Answer v
  chunk_as none attachment index now w = (w, refused 401 unauthorized)
  chunk_as (some user) attachment index now w =
      if is_uuid_v4 attachment
      then chunk_answer (get_attachment_manifest v.depot attachment now w) user attachment index
      else (w, refused 400 invalid_file_metadata)

  -- GET /:attachmentId/chunks/:chunkIndex, where the index has its form
  unfoldable pub read_chunk_route : Option String → String → ℕ → ℕ → State v.depot → Answer v
  read_chunk_route user attachment index now w = chunk_as (present user) attachment index now w

  abbrev pub cleaned_answer : (State v.depot × Option String) → Answer v
  cleaned_answer (w, none) = (w, refused 404 upload_not_found)
  cleaned_answer (w, some id) = (w, acknowledged id)

  abbrev pub ack_answer :
      (State v.depot × Option AttachmentManifest) → String → String → Ack → ℕ → Answer v
  ack_answer (w, none) user key d now = (w, refused 404 upload_not_found)
  ack_answer (w, some m) user key d now =
      if not (str_eq m.recipient_id user)
      then (w, refused 403 recipient_not_allowed)
      else if v.verify (build_attachment_ack_payload m.upload_id m.attachment_id) d.signature key
      then cleaned_answer (clear_attachment_artifacts_by_upload_id v.depot d.upload_id now w)
      else (w, refused 401 unauthorized)

  abbrev pub ack_as : Option String → Option String → Option Ack → ℕ → State v.depot → Answer v
  ack_as none key body now w = (w, refused 401 unauthorized)
  ack_as (some user) none body now w = (w, refused 401 unauthorized)
  ack_as (some user) (some key) none now w = (w, refused 400 invalid_file_metadata)
  ack_as (some user) (some key) (some d) now w =
      ack_answer (get_attachment_manifest_by_upload_id v.depot d.upload_id now w) user key d now

  -- POST /ack
  unfoldable pub acknowledge_attachment :
      Option String → Option String → Option Ack → ℕ → State v.depot → Answer v
  acknowledge_attachment user key body now w = ack_as (present user) (present key) body now w
