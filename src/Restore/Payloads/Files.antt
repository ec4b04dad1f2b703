-- ===== src/Restore/Payloads/Files.antt =====
-- The validator of the metadata of attachments.
pub mod Idempotent
use private_communication.Common.{
  ℕ, String, Bool, true, false, ◌||◌, Option, none, some, List, str_eq, if◌then◌else◌, Result, ok,
  err, ◌>>=◌, expect,
}
use private_communication.Pcbk.Value.{
  nat, Value, undefined, null, bool, num, str, obj, Fields, end, field, is_cbor_record, is_string,
  is_non_negative_safe_integer, is_positive_safe_integer,
}
use private_communication.Restore.Objects.{MetaFormat}
use private_communication.Restore.Payloads.{
  is_attachment_kind, is_boolean, is_kind_name, is_nullable_kind, is_nullable_string,
  is_optional_non_negative_safe_integer, is_optional_string, natural, nullable_text,
  optional_natural, optional_text,
}

pub record AttachmentMetaFront : Type 0 where
  pub attachment_id : String
  pub peer_id : Option String
  pub message_id : Option String
  pub file_name : String
  pub mime_type : String
  pub size : ℕ
  pub kind : Option String

pub record AttachmentMetaBack : Type 0 where
  pub plaintext_hash_sha256 : Option String
  pub created_at : ℕ
  pub updated_at : ℕ
  pub last_accessed_at : ℕ
  pub chunk_size : ℕ
  pub chunk_count : ℕ

pub record AttachmentMeta : Type 0 where
  pub front : AttachmentMetaFront
  pub open front use *
  pub back : AttachmentMetaBack
  pub open back use *

-- The first checks of validateAttachmentMetaRecordPayload.
pub front_of_attachment_meta_record_payload : (String → Value) → Result String AttachmentMetaFront
front_of_attachment_meta_record_payload value = do
  attachment_id ←
      expect (is_string (value "attachmentId")) "Attachment meta attachmentId must be a string"
  peer_id ←
      expect (is_nullable_string (value "peerId")) "Attachment meta peerId must be null or string"
  message_id ←
      expect (is_nullable_string (value "messageId"))
        "Attachment meta messageId must be null or string"
  file_name ← expect (is_string (value "fileName")) "Attachment meta fileName must be a string"
  mime_type ← expect (is_string (value "mimeType")) "Attachment meta mimeType must be a string"
  size ←
      expect (is_non_negative_safe_integer (value "size"))
        "Attachment meta size must be a non-negative safe integer"
  kind ← expect (is_nullable_kind (value "kind")) "Attachment meta kind must be null or valid kind"
  ok (record {
    attachment_id = attachment_id;
    peer_id = peer_id;
    message_id = message_id;
    file_name = file_name;
    mime_type = mime_type;
    size = size;
    kind = kind;
  })

-- The other checks of validateAttachmentMetaRecordPayload.
pub back_of_attachment_meta_record_payload : (String → Value) → Result String AttachmentMetaBack
back_of_attachment_meta_record_payload value = do
  plaintext_hash_sha256 ←
      expect (is_nullable_string (value "plaintextHashSha256"))
        "Attachment meta plaintextHashSha256 must be null or string"
  created_at ←
      expect (is_non_negative_safe_integer (value "createdAt"))
        "Attachment meta createdAt must be a non-negative safe integer"
  updated_at ←
      expect (is_non_negative_safe_integer (value "updatedAt"))
        "Attachment meta updatedAt must be a non-negative safe integer"
  last_accessed_at ←
      expect (is_non_negative_safe_integer (value "lastAccessedAt"))
        "Attachment meta lastAccessedAt must be a non-negative safe integer"
  chunk_size ←
      expect (is_positive_safe_integer (value "chunkSize"))
        "Attachment meta chunkSize must be a positive safe integer"
  chunk_count ←
      expect (is_positive_safe_integer (value "chunkCount"))
        "Attachment meta chunkCount must be a positive safe integer"
  ok (record {
    plaintext_hash_sha256 = plaintext_hash_sha256;
    created_at = created_at;
    updated_at = updated_at;
    last_accessed_at = last_accessed_at;
    chunk_size = chunk_size;
    chunk_count = chunk_count;
  })

-- validateAttachmentMetaRecordPayload
unfoldable pub validate_attachment_meta_record_payload : Value → Result String AttachmentMeta
unfolding front_of_attachment_meta_record_payload back_of_attachment_meta_record_payload
validate_attachment_meta_record_payload v = do
  value ← expect (is_cbor_record v) "Attachment meta must be an object"
  front ← front_of_attachment_meta_record_payload value
  back ← back_of_attachment_meta_record_payload value
  ok (record { front = front; back = back })

abbrev pub attachment_meta_record_payload_object : AttachmentMeta → Value
attachment_meta_record_payload_object p = obj (
    field "attachmentId" (str p.attachment_id) (
      field "peerId" (nullable_text p.peer_id) (
        field "messageId" (nullable_text p.message_id) (
          field "fileName" (str p.file_name) (
            field "mimeType" (str p.mime_type) (
              field "size" (natural p.size) (
                field "kind" (nullable_text p.kind) (
                  field "plaintextHashSha256" (nullable_text p.plaintext_hash_sha256) (
                    field "createdAt" (natural p.created_at) (
                      field "updatedAt" (natural p.updated_at) (
                        field "lastAccessedAt" (natural p.last_accessed_at) (
                          field "chunkSize" (natural p.chunk_size)
                            (field "chunkCount" (natural p.chunk_count) end)))))))))))))

-- How the pipeline takes attachments.
abbrev pub attachment_format : MetaFormat
attachment_format = record {
  Meta = AttachmentMeta;
  validate = validate_attachment_meta_record_payload;
  chunk_count = λ m. m.chunk_count;
}
