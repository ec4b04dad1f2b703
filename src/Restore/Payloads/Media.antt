-- ===== src/Restore/Payloads/Media.antt =====
-- The validator of the metadata of remote media.
pub mod Idempotent
use private_communication.Common.{
  ℕ, String, Bool, true, false, ◌||◌, Option, none, some, List, str_eq, if◌then◌else◌, Result, ok,
  err, ◌>>=◌, expect,
}
use private_communication.Pcbk.Value.{
  nat, Value, undefined, null, bool, num, str, obj, Fields, end, field, is_cbor_record, is_string,
  is_non_negative_safe_integer, is_positive_safe_integer,
}
use private_communication.Restore.Objects.{MetaFormat}
use private_communication.Restore.Payloads.{
  is_attachment_kind, is_boolean, is_kind_name, is_nullable_kind, is_nullable_string,
  is_optional_non_negative_safe_integer, is_optional_string, natural, nullable_text,
  optional_natural, optional_text,
}

pub record RemoteMediaMetaFront : Type 0 where
  pub media_id : String
  pub url : String
  pub mime_type : String
  pub extension : String
  pub is_favorite : Bool
  pub source_host : String
  pub peer_id : Option String

pub record RemoteMediaMetaBack : Type 0 where
  pub message_id : Option String
  pub created_at : ℕ
  pub updated_at : ℕ
  pub last_accessed_at : ℕ
  pub expires_at : ℕ
  pub chunk_size : ℕ
  pub chunk_count : ℕ

pub record RemoteMediaMeta : Type 0 where
  pub front : RemoteMediaMetaFront
  pub open front use *
  pub back : RemoteMediaMetaBack
  pub open back use *

-- The first checks of validateRemoteMediaMetaRecordPayload.
pub front_of_remote_media_meta_record_payload :
    (String → Value) → Result String RemoteMediaMetaFront
front_of_remote_media_meta_record_payload value = do
  media_id ← expect (is_string (value "mediaId")) "Remote media meta mediaId must be a string"
  url ← expect (is_string (value "url")) "Remote media meta url must be a string"
  mime_type ← expect (is_string (value "mimeType")) "Remote media meta mimeType must be a string"
  extension ← expect (is_string (value "extension")) "Remote media meta extension must be a string"
  is_favorite ←
      expect (is_boolean (value "isFavorite")) "Remote media meta isFavorite must be a boolean"
  source_host ←
      expect (is_string (value "sourceHost")) "Remote media meta sourceHost must be a string"
  peer_id ←
      expect (is_nullable_string (value "peerId")) "Remote media meta peerId must be null or string"
  ok (record {
    media_id = media_id;
    url = url;
    mime_type = mime_type;
    extension = extension;
    is_favorite = is_favorite;
    source_host = source_host;
    peer_id = peer_id;
  })

-- The other checks of validateRemoteMediaMetaRecordPayload.
pub back_of_remote_media_meta_record_payload : (String → Value) → Result String RemoteMediaMetaBack
back_of_remote_media_meta_record_payload value = do
  message_id ←
      expect (is_nullable_string (value "messageId"))
        "Remote media meta messageId must be null or string"
  created_at ←
      expect (is_non_negative_safe_integer (value "createdAt"))
        "Remote media meta createdAt must be a non-negative safe integer"
  updated_at ←
      expect (is_non_negative_safe_integer (value "updatedAt"))
        "Remote media meta updatedAt must be a non-negative safe integer"
  last_accessed_at ←
      expect (is_non_negative_safe_integer (value "lastAccessedAt"))
        "Remote media meta lastAccessedAt must be a non-negative safe integer"
  expires_at ←
      expect (is_non_negative_safe_integer (value "expiresAt"))
        "Remote media meta expiresAt must be a non-negative safe integer"
  chunk_size ←
      expect (is_positive_safe_integer (value "chunkSize"))
        "Remote media meta chunkSize must be a positive safe integer"
  chunk_count ←
      expect (is_positive_safe_integer (value "chunkCount"))
        "Remote media meta chunkCount must be a positive safe integer"
  ok (record {
    message_id = message_id;
    created_at = created_at;
    updated_at = updated_at;
    last_accessed_at = last_accessed_at;
    expires_at = expires_at;
    chunk_size = chunk_size;
    chunk_count = chunk_count;
  })

-- validateRemoteMediaMetaRecordPayload
unfoldable pub validate_remote_media_meta_record_payload : Value → Result String RemoteMediaMeta
unfolding front_of_remote_media_meta_record_payload back_of_remote_media_meta_record_payload
validate_remote_media_meta_record_payload v = do
  value ← expect (is_cbor_record v) "Remote media meta must be an object"
  front ← front_of_remote_media_meta_record_payload value
  back ← back_of_remote_media_meta_record_payload value
  ok (record { front = front; back = back })

abbrev pub remote_media_meta_record_payload_object : RemoteMediaMeta → Value
remote_media_meta_record_payload_object p = obj (
    field "mediaId" (str p.media_id) (
      field "url" (str p.url) (
        field "mimeType" (str p.mime_type) (
          field "extension" (str p.extension) (
            field "isFavorite" (bool p.is_favorite) (
              field "sourceHost" (str p.source_host) (
                field "peerId" (nullable_text p.peer_id) (
                  field "messageId" (nullable_text p.message_id) (
                    field "createdAt" (natural p.created_at) (
                      field "updatedAt" (natural p.updated_at) (
                        field "lastAccessedAt" (natural p.last_accessed_at) (
                          field "expiresAt" (natural p.expires_at) (
                            field "chunkSize" (natural p.chunk_size)
                              (field "chunkCount" (natural p.chunk_count) end))))))))))))))

-- How the pipeline takes remote media.
abbrev pub media_format : MetaFormat
media_format = record {
  Meta = RemoteMediaMeta;
  validate = validate_remote_media_meta_record_payload;
  chunk_count = λ m. m.chunk_count;
}
