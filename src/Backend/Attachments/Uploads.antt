-- ===== src/Backend/Attachments/Uploads.antt =====
-- What is true of an upload that was accepted.
use private_communication.Common.{
  ℕ, ◌≤◌, ◌<◌, ◌≡◌, ◌≢◌, ◌⊎◌, refl, inl, inr, subst, ap, ◌∙◌, String, Bool, true, false, not, ◌||◌,
  Option, none, some, str_eq, if◌then◌else◌, present, arith, Bool-cases,
}
use private_communication.Backend.Attachments.Policy.{
  get_attachment_size_error, get_attachment_kind_from_mime_type, get_max_bytes_for_attachment_kind,
  AttachmentErrorCode, attachments_disabled, is_mime_type_allowed,
}
use private_communication.Backend.Attachments.Chunks.{
  get_expected_chunk_count, total_of_chunks, chunks_add_up,
}
use private_communication.Backend.Attachments.Store.{UploadSession, State}
use private_communication.Backend.Attachments.Routes.{
  InitUpload, Response, refused, created, Service, Answer,
}
use private_communication.Backend.Attachments.Routes.Sending.{
  to_safe_file_name, is_sha256_hex, trimmed, new_upload_session, size_refusal, init_refusal,
  init_unless, init_as, init_upload,
}

-- An upload session that keeps the limits: its kind's size, the server's chunk size, and a number of
-- chunks that are the attachment.
pub record IsWithin (v : Service) (s : UploadSession) : Type 0 where
  pub not_empty : 0 < s.total_size
  pub within_kind : s.total_size ≤ get_max_bytes_for_attachment_kind v.limits s.kind
  pub within_chunk : s.chunk_size ≤ v.max_chunk_bytes
  pub adds_up : total_of_chunks s.total_size s.chunk_size s.chunk_count ≡ s.total_size

module _ (v : Service) (d : InitUpload) where
  size_accepted :
      (e : Option AttachmentErrorCode)
      → size_refusal v e d ≡ none
      → (e ≡ none)
        × (d.chunk_size ≤ v.max_chunk_bytes)
        × (d.chunk_count ≡ get_expected_chunk_count d.total_size d.chunk_size)
  size_accepted (some problem) h = cc (h)
  size_accepted none h = ground arith

  size_error_none :
      (size : ℕ)
      → get_attachment_size_error v.limits
          (get_attachment_kind_from_mime_type v.limits (v.lower (v.trim d.mime_type)))
          size
        ≡ none
      → (0 < size)
        × (size
            ≤ get_max_bytes_for_attachment_kind v.limits
                (get_attachment_kind_from_mime_type v.limits (v.lower (v.trim d.mime_type))))
  unfolding get_attachment_size_error
  size_error_none size h = ground arith

  accepted :
      init_refusal v d ≡ none
      → size_refusal v
          (get_attachment_size_error v.limits
            (get_attachment_kind_from_mime_type v.limits (v.lower (v.trim d.mime_type)))
            d.total_size)
          d
        ≡ none
  unfolding init_refusal
  accepted h =
      let mime_type = v.lower (v.trim d.mime_type) in
      elim (Bool-cases (
        str_eq (v.trim (to_safe_file_name (v.trim d.file_name))) ""
        || not (is_sha256_hex (trimmed v d.hash_sha256)))) [
          | inl t ↦ cc (rw t at h)
          | inr f ↦ elim (Bool-cases (is_mime_type_allowed v.limits mime_type)) [
            | inl allowed ↦ rw (f, allowed) at h
            | inr other ↦ cc (rw (f, other) at h)
          ]
        ]

  size_refuses :
      (e : Option AttachmentErrorCode) (session : UploadSession)
      → size_refusal v e d ≢ some (created session)
  size_refuses (some problem) session h = cc (h)
  size_refuses none session h = absurd (ground arith)

  init_refuses : (session : UploadSession) → init_refusal v d ≢ some (created session)
  unfolding init_refusal
  init_refuses session h =
      let mime_type = v.lower (v.trim d.mime_type) in
      elim (Bool-cases (
        str_eq (v.trim (to_safe_file_name (v.trim d.file_name))) ""
        || not (is_sha256_hex (trimmed v d.hash_sha256)))) [
          | inl t ↦ cc (rw t at h)
          | inr f ↦ elim (Bool-cases (is_mime_type_allowed v.limits mime_type)) [
            | inl allowed ↦
                size_refuses
                  (get_attachment_size_error v.limits
                    (get_attachment_kind_from_mime_type v.limits mime_type) d.total_size)
                  session (rw (f, allowed) at h)
            | inr other ↦ cc (rw (f, other) at h)
          ]
        ]

  -- The session that an upload gets is one that keeps the limits.
  created-IsWithin :
      (sender upload attachment : String) (now : ℕ)
      → 0 < d.chunk_size
      → init_refusal v d ≡ none
      → IsWithin v (new_upload_session v sender d upload attachment now)
  unfolding new_upload_session
  created-IsWithin sender upload attachment now c h =
      let fine =
        size_accepted
          (get_attachment_size_error v.limits
            (get_attachment_kind_from_mime_type v.limits (v.lower (v.trim d.mime_type)))
            d.total_size)
          (accepted h) in
      let size = size_error_none d.total_size fine.0 in
      let sum = (chunks_add_up d.total_size d.chunk_size size.0 c).0 in
      record {
        not_empty = size.0;
        within_kind = size.1;
        within_chunk = fine.1;
        adds_up = ap (total_of_chunks d.total_size d.chunk_size) fine.2 ∙ sum;
      }

created_injective : {a b : UploadSession} → created a ≡ created b → a ≡ b
created_injective e = cc

enabled_created :
    (v : Service) (b : Bool) (session : UploadSession) (w : State v.depot) (a : Answer v)
    → (if b then a else (w, refused 503 attachments_disabled)).1 ≡ created session
    → a.1 ≡ created session
enabled_created v true session w a h = h
enabled_created v false session w a h = cc (h)

unless_created :
    (v : Service) (r : Option Response) (made session : UploadSession) (now : ℕ) (w : State v.depot)
    → (init_unless v r made now w).1 ≡ created session
    → (r ≡ some (created session)) ⊎ ((r ≡ none) × (made ≡ session))
unless_created v (some r) made session now w h = inl (ap some h)
unless_created v none made session now w h = inr (refl, created_injective h)

init_as_created :
    (v : Service) (user : Option String) (d : InitUpload) (upload attachment : String) (now : ℕ)
    → (w : State v.depot) (session : UploadSession)
    → (init_as v user (some d) upload attachment now w).1 ≡ created session
    → (sender : String) × (init_refusal v d ≡ none)
      × (new_upload_session v sender d upload attachment now ≡ session)
init_as_created v none d upload attachment now w session h = cc (h)
init_as_created v (some sender) d upload attachment now w session h =
    elim (unless_created v (init_refusal v d) (new_upload_session v sender d upload attachment now)
      session now w h) [
        | inl bad ↦ absurd (init_refuses v d session bad)
        | inr (fine, same) ↦ (sender, fine, same)
      ]

-- An upload that POST /init-upload accepts keeps the limits: it is not empty and no larger than its
-- kind may be, its chunks are no larger than the server takes, and the sizes that the server will ask
-- of them add up to its size. The schema has taken a chunk size above zero.
pub init_upload-IsWithin :
    (v : Service) (user : Option String) (d : InitUpload) (upload attachment : String) (now : ℕ)
    → (w : State v.depot) (session : UploadSession) → 0 < d.chunk_size
    → (init_upload v user (some d) upload attachment now w).1 ≡ created session
    → IsWithin v session
unfolding init_upload
init_upload-IsWithin v user d upload attachment now w session c h =
    let own =
      enabled_created v v.enabled session w
        (init_as v (present user) (some d) upload attachment now w) h in
    let as_sender = init_as_created v (present user) d upload attachment now w session own in
    subst (IsWithin v) as_sender.2
      (created-IsWithin v d as_sender.0 upload attachment now c as_sender.1)
