-- ===== src/Backend/Attachments/Routes/Sending.antt =====
-- The routes of backend/src/routes/attachments.ts that begin an upload and take its chunks.
use Prim.Native.Char.{code}
use Prim.Native.String.{◌++◌ as str_append}
use private_communication.Common.{
  ℕ, ◌+◌, ◌-◌, ◌*◌, String, Bool, true, not, ◌||◌, Option, none, some, List, [], length, str_eq,
  ltb, leb, ◌==◌, if◌then◌else◌, utf8, present, Result, ok, err,
}
use private_communication.Backend.Attachments.Policy.{
  AttachmentErrorCode, attachments_disabled, invalid_file_metadata, unauthorized,
  recipient_not_allowed, upload_not_found, file_type_not_allowed, chunk_hash_mismatch,
  upload_storage_error, is_mime_type_allowed, get_attachment_kind_from_mime_type,
  get_attachment_size_error,
}
use private_communication.Backend.Attachments.Chunks.{
  get_expected_chunk_count, get_expected_encrypted_chunk_size,
}
use private_communication.Backend.Attachments.Store.{
  is_uuid_v4, UploadSession, State, code_tests, matches,
}
use private_communication.Backend.Attachments.Store.Sessions.{
  set_attachment_upload_session, get_attachment_upload_session, mark_upload_chunk_received,
}
use private_communication.Backend.Attachments.Routes.{
  InitUpload, Response, refused, created, chunk_accepted, Service, Answer,
}

-- The characters \ / : * ? " < > | and the control characters.
unfoldable pub is_unsafe_code : ℕ → Bool
is_unsafe_code c =
    ltb c 32
    || c == 92
    || c == 47
    || c == 58
    || c == 42
    || c == 63
    || c == 34
    || c == 60
    || c == 62
    || c == 124

unfoldable pub replace_unsafe : String → String
replace_unsafe String.[] = ""
replace_unsafe (String.◌∷◌ c s) =
    if is_unsafe_code (code c)
    then str_append "_" (replace_unsafe s)
    else String.◌∷◌ c (replace_unsafe s)

-- The first `n` units of a text: a character above 0xffff takes two, and is left out where only one is
-- left.
unfoldable pub first_units : ℕ → String → String
first_units n String.[] = ""
first_units n (String.◌∷◌ c s) =
    let units = if ltb (code c) 0x10000 then 1 else 2 in
    let rest = first_units (n - units) s in if leb units n then String.◌∷◌ c rest else ""

unfoldable pub to_safe_file_name : String → String
to_safe_file_name value = first_units 255 (replace_unsafe value)

abbrev pub is_sha256_hex : Option String → Bool
is_sha256_hex none = true
is_sha256_hex (some value) = matches (code_tests 64 []) (utf8 value)

module _ (v : Service) where
  abbrev pub trimmed : Option String → Option String
  trimmed none = none
  trimmed (some s) = some (v.lower (v.trim s))

  -- The session of an upload that is accepted.
  unfoldable pub new_upload_session : String → InitUpload → String → String → ℕ → UploadSession
  new_upload_session sender d upload attachment now = record {
    upload_id = upload;
    attachment_id = attachment;
    sender_id = sender;
    recipient_id = d.recipient_id;
    file_name = to_safe_file_name (v.trim d.file_name);
    mime_type = v.lower (v.trim d.mime_type);
    kind = get_attachment_kind_from_mime_type v.limits (v.lower (v.trim d.mime_type));
    total_size = d.total_size;
    chunk_size = d.chunk_size;
    chunk_count = d.chunk_count;
    hash_sha256 = trimmed d.hash_sha256;
    received_chunks = [];
    created_at = now;
    expires_at = now + v.depot.ttl_seconds * 1000;
  }

  -- Why an upload is refused, if it is.
  abbrev pub size_refusal : Option AttachmentErrorCode → InitUpload → Option Response
  size_refusal (some problem) d = some (refused 413 problem)
  size_refusal none d =
      if ltb v.max_chunk_bytes d.chunk_size
      then some (refused 400 invalid_file_metadata)
      else if ltb d.total_size d.chunk_size
          || not (d.chunk_count == get_expected_chunk_count d.total_size d.chunk_size)
      then some (refused 400 invalid_file_metadata)
      else none

  unfoldable pub init_refusal : InitUpload → Option Response
  init_refusal d =
      let mime_type = v.lower (v.trim d.mime_type) in
      if str_eq (v.trim (to_safe_file_name (v.trim d.file_name))) ""
        || not (is_sha256_hex (trimmed d.hash_sha256))
      then some (refused 400 invalid_file_metadata)
      else if is_mime_type_allowed v.limits mime_type
      then size_refusal
          (get_attachment_size_error v.limits
            (get_attachment_kind_from_mime_type v.limits mime_type) d.total_size)
          d
      else some (refused 415 file_type_not_allowed)

  abbrev pub init_unless : Option Response → UploadSession → ℕ → State v.depot → Answer v
  init_unless (some r) session now w = (w, r)
  init_unless none session now w =
      (set_attachment_upload_session v.depot session now w, created session)

  abbrev pub init_as :
      Option String → Option InitUpload → String → String → ℕ → State v.depot → Answer v
  init_as none d upload attachment now w = (w, refused 401 unauthorized)
  init_as (some sender) none upload attachment now w = (w, refused 400 invalid_file_metadata)
  init_as (some sender) (some d) upload attachment now w =
      init_unless (init_refusal d) (new_upload_session sender d upload attachment now) now w

  -- POST /init-upload
  unfoldable pub init_upload :
      Option String → Option InitUpload → String → String → ℕ → State v.depot → Answer v
  init_upload user body upload attachment now w =
      if v.enabled
      then init_as (present user) body upload attachment now w
      else (w, refused 503 attachments_disabled)

  abbrev pub marked_answer : (State v.depot × Option UploadSession) → Answer v
  marked_answer (w, none) = (w, refused 404 upload_not_found)
  marked_answer (w, some session) =
      (w, chunk_accepted (length session.received_chunks) session.chunk_count)

  abbrev pub written_answer : Result String v.depot.Disk → String → ℕ → ℕ → State v.depot → Answer v
  written_answer (err e) upload index now w = (w, refused 500 upload_storage_error)
  written_answer (ok disk) upload index now w =
      marked_answer (mark_upload_chunk_received v.depot upload index now (record w { disk = disk }))

  abbrev pub hash_checked :
      Option String → UploadSession → String → ℕ → List ℕ → ℕ → State v.depot → Answer v
  hash_checked none session upload index payload now w = (w, refused 400 invalid_file_metadata)
  hash_checked (some declared) session upload index payload now w =
      if str_eq (v.sha256 payload) declared
      then written_answer (v.depot.write_chunk session.attachment_id index payload w.disk) upload
          index now w
      else (w, refused 409 chunk_hash_mismatch)

  -- What is asked of a chunk, once its upload is found.
  unfoldable pub chunk_checked :
      UploadSession → String → String → ℕ → List ℕ → Option String → ℕ → State v.depot → Answer v
  chunk_checked session sender upload index payload declared now w =
      if not (str_eq session.sender_id sender)
      then (w, refused 403 recipient_not_allowed)
      else if leb session.chunk_count index
      then (w, refused 400 invalid_file_metadata)
      else if length payload == 0
      then (w, refused 400 invalid_file_metadata)
      else if length payload
          == get_expected_encrypted_chunk_size session.total_size session.chunk_size index
      then hash_checked declared session upload index payload now w
      else (w, refused 400 invalid_file_metadata)

  abbrev pub chunk_of :
      (State v.depot × Option UploadSession)
      → String
      → String
      → ℕ
      → List ℕ
      → Option String
      → ℕ
      → Answer v
  chunk_of (w, none) sender upload index payload declared now = (w, refused 404 upload_not_found)
  chunk_of (w, some session) sender upload index payload declared now =
      chunk_checked session sender upload index payload declared now w

  abbrev pub upload_as :
      Option String → String → ℕ → List ℕ → Option String → ℕ → State v.depot → Answer v
  upload_as none upload index payload declared now w = (w, refused 401 unauthorized)
  upload_as (some sender) upload index payload declared now w =
      if is_uuid_v4 upload
      then chunk_of (get_attachment_upload_session v.depot upload now w) sender upload index payload
          declared now
      else (w, refused 400 invalid_file_metadata)

  -- PUT /:uploadId/chunks/:chunkIndex, where the index has its form; `declared` is the hash of the
  -- header, if it has the form of one.
  unfoldable pub upload_chunk :
      Option String → String → ℕ → List ℕ → Option String → ℕ → State v.depot → Answer v
  upload_chunk user upload index payload declared now w =
      upload_as (present user) upload index payload declared now w
