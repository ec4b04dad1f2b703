-- ===== src/Restore/Payloads/Contacts.antt =====
-- The validators of peer keys and of link previews.
pub mod Idempotent
use private_communication.Common.{
  ℕ, String, Bool, true, false, ◌||◌, Option, none, some, List, str_eq, if◌then◌else◌, Result, ok,
  err, ◌>>=◌, expect,
}
use private_communication.Pcbk.Value.{
  nat, Value, undefined, null, bool, num, str, obj, Fields, end, field, is_cbor_record, is_string,
  is_non_negative_safe_integer, is_positive_safe_integer,
}
use private_communication.Restore.Objects.{MetaFormat}
use private_communication.Restore.Payloads.{
  is_attachment_kind, is_boolean, is_kind_name, is_nullable_kind, is_nullable_string,
  is_optional_non_negative_safe_integer, is_optional_string, natural, nullable_text,
  optional_natural, optional_text,
}

pub record StoredPeerKey : Type 0 where
  pub peer_id : String
  pub fingerprint : String
  pub added_at : ℕ
  pub encryption_public_key : Option String
  pub signing_public_key : Option String
  pub display_name : Option String
  pub last_verified : Option ℕ

-- validateStoredPeerKey
unfoldable pub validate_stored_peer_key : Value → Result String StoredPeerKey
validate_stored_peer_key v = do
  value ← expect (is_cbor_record v) "Peer key must be an object"
  peer_id ← expect (is_string (value "peerId")) "Peer key peerId must be a string"
  fingerprint ← expect (is_string (value "fingerprint")) "Peer key fingerprint must be a string"
  added_at ←
      expect (is_non_negative_safe_integer (value "addedAt"))
        "Peer key addedAt must be a non-negative safe integer"
  encryption_public_key ←
      expect (is_optional_string (value "encryptionPublicKey"))
        "Peer key encryptionPublicKey must be a string when present"
  signing_public_key ←
      expect (is_optional_string (value "signingPublicKey"))
        "Peer key signingPublicKey must be a string when present"
  display_name ←
      expect (is_optional_string (value "displayName"))
        "Peer key displayName must be a string when present"
  last_verified ←
      expect (is_optional_non_negative_safe_integer (value "lastVerified"))
        "Peer key lastVerified must be a non-negative safe integer when present"
  ok (record {
    peer_id = peer_id;
    fingerprint = fingerprint;
    added_at = added_at;
    encryption_public_key = encryption_public_key;
    signing_public_key = signing_public_key;
    display_name = display_name;
    last_verified = last_verified;
  })

abbrev pub stored_peer_key_object : StoredPeerKey → Value
stored_peer_key_object p = obj (
    field "peerId" (str p.peer_id) (
      field "fingerprint" (str p.fingerprint) (
        field "addedAt" (natural p.added_at) (
          field "encryptionPublicKey" (optional_text p.encryption_public_key) (
            field "signingPublicKey" (optional_text p.signing_public_key) (
              field "displayName" (optional_text p.display_name)
                (field "lastVerified" (optional_natural p.last_verified) end)))))))

pub record LinkPreviewRecord : Type 0 where
  pub url : String
  pub title : Option String
  pub description : Option String
  pub image : Option String
  pub site_name : Option String
  pub fetched_at : ℕ

-- validateLinkPreviewRecord
unfoldable pub validate_link_preview_record : Value → Result String LinkPreviewRecord
validate_link_preview_record v = do
  value ← expect (is_cbor_record v) "Link preview must be an object"
  url ← expect (is_string (value "url")) "Link preview url must be a string"
  title ←
      expect (is_optional_string (value "title")) "Link preview title must be a string when present"
  description ←
      expect (is_optional_string (value "description"))
        "Link preview description must be a string when present"
  image ←
      expect (is_optional_string (value "image")) "Link preview image must be a string when present"
  site_name ←
      expect (is_optional_string (value "siteName"))
        "Link preview siteName must be a string when present"
  fetched_at ←
      expect (is_non_negative_safe_integer (value "fetchedAt"))
        "Link preview fetchedAt must be a non-negative safe integer"
  ok (record {
    url = url;
    title = title;
    description = description;
    image = image;
    site_name = site_name;
    fetched_at = fetched_at;
  })

abbrev pub link_preview_record_object : LinkPreviewRecord → Value
link_preview_record_object p = obj (
    field "url" (str p.url) (
      field "title" (optional_text p.title) (
        field "description" (optional_text p.description) (
          field "image" (optional_text p.image) (
            field "siteName" (optional_text p.site_name)
              (field "fetchedAt" (natural p.fetched_at) end))))))
