-- ===== src/Restore/Payloads/Files/Idempotent.antt =====
-- Validating attachments is idempotent.
use private_communication.Common.{
  ◌≡◌, refl, String, some, ok, arith, expect-eq-ok, ok-injective, >>=-eq-ok, subst,
}
use private_communication.Pcbk.Value.{
  Value, str, get, is_cbor_record, is_string, is_non_negative_safe_integer,
  is_positive_safe_integer,
}
use private_communication.Restore.Payloads.{
  is_boolean, is_nullable_kind, is_nullable_string, natural, nullable_text,
}
use private_communication.Restore.Payloads.Again.{
  is_string_again, is_non_negative_safe_integer_again, is_positive_safe_integer_again,
  is_nullable_string_again, is_nullable_kind_again, fields_of,
}
use private_communication.Restore.Payloads.Files.{
  AttachmentMeta, AttachmentMetaBack, AttachmentMetaFront, attachment_meta_record_payload_object,
  back_of_attachment_meta_record_payload, front_of_attachment_meta_record_payload,
  validate_attachment_meta_record_payload,
}

record AttachmentMetaFrontIsRead (value : String → Value) (p : AttachmentMetaFront) : Type 0 where
  attachment_id : is_string (value "attachmentId") ≡ some p.attachment_id
  peer_id : is_nullable_string (value "peerId") ≡ some p.peer_id
  message_id : is_nullable_string (value "messageId") ≡ some p.message_id
  file_name : is_string (value "fileName") ≡ some p.file_name
  mime_type : is_string (value "mimeType") ≡ some p.mime_type
  size : is_non_negative_safe_integer (value "size") ≡ some p.size
  kind : is_nullable_kind (value "kind") ≡ some p.kind

front_of_attachment_meta_record_payload-AttachmentMetaFrontIsRead :
    (value : String → Value) (p : AttachmentMetaFront)
    → front_of_attachment_meta_record_payload value ≡ ok p
    → AttachmentMetaFrontIsRead value p
unfolding front_of_attachment_meta_record_payload
front_of_attachment_meta_record_payload-AttachmentMetaFrontIsRead value p e = ground arith

AttachmentMetaFrontIsRead-front_of_attachment_meta_record_payload :
    (value again : String → Value) (p : AttachmentMetaFront)
    → AttachmentMetaFrontIsRead value p
    → (again "attachmentId" ≡ str p.attachment_id)
    → (again "peerId" ≡ nullable_text p.peer_id)
    → (again "messageId" ≡ nullable_text p.message_id)
    → (again "fileName" ≡ str p.file_name)
    → (again "mimeType" ≡ str p.mime_type)
    → (again "size" ≡ natural p.size)
    → (again "kind" ≡ nullable_text p.kind)
    → front_of_attachment_meta_record_payload again ≡ ok p
unfolding front_of_attachment_meta_record_payload is_boolean
AttachmentMetaFrontIsRead-front_of_attachment_meta_record_payload value again p r g0 g1 g2 g3 g4 g5
      g6 =
    rw (
      g0,
      g1,
      g2,
      g3,
      g4,
      g5,
      g6,
      is_string_again (value "attachmentId") r.attachment_id,
      is_nullable_string_again (value "peerId") r.peer_id,
      is_nullable_string_again (value "messageId") r.message_id,
      is_string_again (value "fileName") r.file_name,
      is_string_again (value "mimeType") r.mime_type,
      is_non_negative_safe_integer_again (value "size") r.size,
      is_nullable_kind_again (value "kind") r.kind,
    )

record AttachmentMetaBackIsRead (value : String → Value) (p : AttachmentMetaBack) : Type 0 where
  plaintext_hash_sha256 :
      is_nullable_string (value "plaintextHashSha256") ≡ some p.plaintext_hash_sha256
  created_at : is_non_negative_safe_integer (value "createdAt") ≡ some p.created_at
  updated_at : is_non_negative_safe_integer (value "updatedAt") ≡ some p.updated_at
  last_accessed_at : is_non_negative_safe_integer (value "lastAccessedAt") ≡ some p.last_accessed_at
  chunk_size : is_positive_safe_integer (value "chunkSize") ≡ some p.chunk_size
  chunk_count : is_positive_safe_integer (value "chunkCount") ≡ some p.chunk_count

back_of_attachment_meta_record_payload-AttachmentMetaBackIsRead :
    (value : String → Value) (p : AttachmentMetaBack)
    → back_of_attachment_meta_record_payload value ≡ ok p
    → AttachmentMetaBackIsRead value p
unfolding back_of_attachment_meta_record_payload
back_of_attachment_meta_record_payload-AttachmentMetaBackIsRead value p e = ground arith

AttachmentMetaBackIsRead-back_of_attachment_meta_record_payload :
    (value again : String → Value) (p : AttachmentMetaBack)
    → AttachmentMetaBackIsRead value p
    → (again "plaintextHashSha256" ≡ nullable_text p.plaintext_hash_sha256)
    → (again "createdAt" ≡ natural p.created_at)
    → (again "updatedAt" ≡ natural p.updated_at)
    → (again "lastAccessedAt" ≡ natural p.last_accessed_at)
    → (again "chunkSize" ≡ natural p.chunk_size)
    → (again "chunkCount" ≡ natural p.chunk_count)
    → back_of_attachment_meta_record_payload again ≡ ok p
unfolding back_of_attachment_meta_record_payload is_boolean
AttachmentMetaBackIsRead-back_of_attachment_meta_record_payload value again p r g0 g1 g2 g3 g4 g5 =
    rw (
      g0,
      g1,
      g2,
      g3,
      g4,
      g5,
      is_nullable_string_again (value "plaintextHashSha256") r.plaintext_hash_sha256,
      is_non_negative_safe_integer_again (value "createdAt") r.created_at,
      is_non_negative_safe_integer_again (value "updatedAt") r.updated_at,
      is_non_negative_safe_integer_again (value "lastAccessedAt") r.last_accessed_at,
      is_positive_safe_integer_again (value "chunkSize") r.chunk_size,
      is_positive_safe_integer_again (value "chunkCount") r.chunk_count,
    )

abbrev read_of_attachment_meta_record_payload : AttachmentMeta → String → Value
unfolding get
read_of_attachment_meta_record_payload p key =
    get key (fields_of (attachment_meta_record_payload_object p))

front_again_of_attachment_meta_record_payload :
    (value : String → Value) (p : AttachmentMeta)
    → AttachmentMetaFrontIsRead value p.front
    → front_of_attachment_meta_record_payload (read_of_attachment_meta_record_payload p)
      ≡ ok p.front
unfolding get
front_again_of_attachment_meta_record_payload value p r =
    AttachmentMetaFrontIsRead-front_of_attachment_meta_record_payload value
      (read_of_attachment_meta_record_payload p) p.front r refl refl refl refl refl refl refl

back_again_of_attachment_meta_record_payload :
    (value : String → Value) (p : AttachmentMeta)
    → AttachmentMetaBackIsRead value p.back
    → back_of_attachment_meta_record_payload (read_of_attachment_meta_record_payload p) ≡ ok p.back
unfolding get
back_again_of_attachment_meta_record_payload value p r =
    AttachmentMetaBackIsRead-back_of_attachment_meta_record_payload value
      (read_of_attachment_meta_record_payload p) p.back r refl refl refl refl refl refl

-- Every attachment meta that its validator returns is one that it accepts and returns unchanged when it is
-- written as an object again.
pub validate_attachment_meta_record_payload_idempotent :
    (v : Value) (p : AttachmentMeta)
    → validate_attachment_meta_record_payload v ≡ ok p
    → validate_attachment_meta_record_payload (attachment_meta_record_payload_object p) ≡ ok p
unfolding validate_attachment_meta_record_payload get
validate_attachment_meta_record_payload_idempotent v p e =
    let (value, _, e0) = expect-eq-ok (is_cbor_record v) _ _ e in
    let (a, ha, e1) = >>=-eq-ok (front_of_attachment_meta_record_payload value) _ e0 in
    let (b, hb, e2) = >>=-eq-ok (back_of_attachment_meta_record_payload value) _ e1 in
    let m : AttachmentMeta = record { front = a; back = b } in
    let same : m ≡ p = ok-injective e2 in
    let again_a =
      front_again_of_attachment_meta_record_payload value m
        (front_of_attachment_meta_record_payload-AttachmentMetaFrontIsRead value a ha) in
    let again_b =
      back_again_of_attachment_meta_record_payload value m
        (back_of_attachment_meta_record_payload-AttachmentMetaBackIsRead value b hb) in
    subst
      (λ q.
        validate_attachment_meta_record_payload (attachment_meta_record_payload_object q) ≡ ok q)
      same (rw (again_a, again_b))
