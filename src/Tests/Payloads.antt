-- ===== src/Tests/Payloads.antt =====
-- Payloads that are validated twice.
use private_communication.Common.{◌≡◌, refl, true, none, some, ok}
use private_communication.Pcbk.Value.{nat, num, str, obj, field, end, Value, checks, get}
use private_communication.Restore.Payloads.{
  is_optional_string, is_optional_non_negative_safe_integer, is_nullable_string, is_nullable_kind,
  is_boolean,
}
use private_communication.Restore.Payloads.Contacts.{
  StoredPeerKey, LinkPreviewRecord, validate_stored_peer_key, validate_link_preview_record,
  stored_peer_key_object, link_preview_record_object,
}
use private_communication.Restore.Payloads.Contacts.Idempotent.{
  validate_stored_peer_key_idempotent, validate_link_preview_record_idempotent,
}
use private_communication.Restore.Payloads.Files.{
  AttachmentMeta, validate_attachment_meta_record_payload, attachment_meta_record_payload_object,
}
use private_communication.Restore.Payloads.Files.Idempotent.{
  validate_attachment_meta_record_payload_idempotent,
}
use private_communication.Restore.Payloads.Media.{
  RemoteMediaMeta, validate_remote_media_meta_record_payload,
  remote_media_meta_record_payload_object,
}
use private_communication.Restore.Payloads.Media.Idempotent.{
  validate_remote_media_meta_record_payload_idempotent,
}

open_payloads : Unit {0}
unfolding checks get is_optional_string is_optional_non_negative_safe_integer is_nullable_string
    is_nullable_kind is_boolean validate_stored_peer_key validate_link_preview_record
    validate_attachment_meta_record_payload validate_remote_media_meta_record_payload
open_payloads = tt

-- A key with a field that no validator reads.
abbrev raw_key : Value
raw_key = obj (
    field "peerId" (str "ann") (
      field "color" (str "red") (
        field "fingerprint" (str "f1")
          (field "addedAt" (num (nat 5)) (field "displayName" (str "Ann") end)))))

abbrev key : StoredPeerKey
key = record {
  peer_id = "ann";
  fingerprint = "f1";
  added_at = 5;
  encryption_public_key = none;
  signing_public_key = none;
  display_name = some "Ann";
  last_verified = none;
}

validate_stored_peer_key_idempotent_example :
    validate_stored_peer_key (stored_peer_key_object key) ≡ ok key
unfolding open_payloads
validate_stored_peer_key_idempotent_example = validate_stored_peer_key_idempotent raw_key key refl

abbrev preview : LinkPreviewRecord
preview = record {
  url = "https://a.example";
  title = some "A";
  description = none;
  image = none;
  site_name = none;
  fetched_at = 9;
}

validate_link_preview_record_idempotent_example :
    validate_link_preview_record (link_preview_record_object preview) ≡ ok preview
unfolding open_payloads
validate_link_preview_record_idempotent_example =
    validate_link_preview_record_idempotent
      (obj (
        field "fetchedAt" (num (nat 9))
          (field "url" (str "https://a.example") (field "title" (str "A") end))))
      preview refl

abbrev pub attachment : AttachmentMeta
attachment = record {
  front = record {
    attachment_id = "photo";
    peer_id = some "ann";
    message_id = none;
    file_name = "photo.png";
    mime_type = "image/png";
    size = 1;
    kind = some "image";
  };
  back = record {
    plaintext_hash_sha256 = none;
    created_at = 1;
    updated_at = 2;
    last_accessed_at = 3;
    chunk_size = 1;
    chunk_count = 1;
  };
}

validate_attachment_meta_record_payload_idempotent_example :
    validate_attachment_meta_record_payload (attachment_meta_record_payload_object attachment)
    ≡ ok attachment
unfolding open_payloads
validate_attachment_meta_record_payload_idempotent_example =
    validate_attachment_meta_record_payload_idempotent
      (attachment_meta_record_payload_object attachment) attachment refl

abbrev gif : RemoteMediaMeta
gif = record {
  front = record {
    media_id = "m1";
    url = "https://b.example/x.gif";
    mime_type = "image/gif";
    extension = "gif";
    is_favorite = true;
    source_host = "b.example";
    peer_id = none;
  };
  back = record {
    message_id = some "t1";
    created_at = 1;
    updated_at = 2;
    last_accessed_at = 3;
    expires_at = 4;
    chunk_size = 512;
    chunk_count = 2;
  };
}

validate_remote_media_meta_record_payload_idempotent_example :
    validate_remote_media_meta_record_payload (remote_media_meta_record_payload_object gif) ≡ ok gif
unfolding open_payloads
validate_remote_media_meta_record_payload_idempotent_example =
    validate_remote_media_meta_record_payload_idempotent
      (remote_media_meta_record_payload_object gif) gif refl
