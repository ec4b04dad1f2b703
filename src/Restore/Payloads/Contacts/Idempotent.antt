-- ===== src/Restore/Payloads/Contacts/Idempotent.antt =====
-- Validating peer keys and link previews is idempotent.
use private_communication.Common.{◌≡◌, String, some, ok, arith, expect-eq-ok}
use private_communication.Pcbk.Value.{
  Value, get, is_cbor_record, is_string, is_non_negative_safe_integer,
}
use private_communication.Restore.Payloads.{
  is_optional_non_negative_safe_integer, is_optional_string,
}
use private_communication.Restore.Payloads.Again.{
  is_string_again, is_optional_string_again, is_non_negative_safe_integer_again,
  is_optional_non_negative_safe_integer_again,
}
use private_communication.Restore.Payloads.Contacts.{
  LinkPreviewRecord, StoredPeerKey, link_preview_record_object, stored_peer_key_object,
  validate_link_preview_record, validate_stored_peer_key,
}

record StoredPeerKeyIsRead (value : String → Value) (p : StoredPeerKey) : Type 0 where
  peer_id : is_string (value "peerId") ≡ some p.peer_id
  fingerprint : is_string (value "fingerprint") ≡ some p.fingerprint
  added_at : is_non_negative_safe_integer (value "addedAt") ≡ some p.added_at
  encryption_public_key :
      is_optional_string (value "encryptionPublicKey") ≡ some p.encryption_public_key
  signing_public_key : is_optional_string (value "signingPublicKey") ≡ some p.signing_public_key
  display_name : is_optional_string (value "displayName") ≡ some p.display_name
  last_verified :
      is_optional_non_negative_safe_integer (value "lastVerified") ≡ some p.last_verified

validate_stored_peer_key-StoredPeerKeyIsRead :
    (v : Value) (p : StoredPeerKey)
    → validate_stored_peer_key v ≡ ok p
    → (value : String → Value) × StoredPeerKeyIsRead value p
unfolding validate_stored_peer_key
validate_stored_peer_key-StoredPeerKeyIsRead v p e =
    let (value, _, e0) = expect-eq-ok (is_cbor_record v) _ _ e in (value, ground arith)

-- Every peer key that its validator returns is one that it accepts and returns unchanged when it is
-- written as an object again.
pub validate_stored_peer_key_idempotent :
    (v : Value) (p : StoredPeerKey)
    → validate_stored_peer_key v ≡ ok p
    → validate_stored_peer_key (stored_peer_key_object p) ≡ ok p
unfolding validate_stored_peer_key get
validate_stored_peer_key_idempotent v p e =
    let (value, r) = validate_stored_peer_key-StoredPeerKeyIsRead v p e in
    rw (
      is_string_again (value "peerId") r.peer_id,
      is_string_again (value "fingerprint") r.fingerprint,
      is_non_negative_safe_integer_again (value "addedAt") r.added_at,
      is_optional_string_again (value "encryptionPublicKey") r.encryption_public_key,
      is_optional_string_again (value "signingPublicKey") r.signing_public_key,
      is_optional_string_again (value "displayName") r.display_name,
      is_optional_non_negative_safe_integer_again (value "lastVerified") r.last_verified,
    )

record LinkPreviewRecordIsRead (value : String → Value) (p : LinkPreviewRecord) : Type 0 where
  url : is_string (value "url") ≡ some p.url
  title : is_optional_string (value "title") ≡ some p.title
  description : is_optional_string (value "description") ≡ some p.description
  image : is_optional_string (value "image") ≡ some p.image
  site_name : is_optional_string (value "siteName") ≡ some p.site_name
  fetched_at : is_non_negative_safe_integer (value "fetchedAt") ≡ some p.fetched_at

validate_link_preview_record-LinkPreviewRecordIsRead :
    (v : Value) (p : LinkPreviewRecord)
    → validate_link_preview_record v ≡ ok p
    → (value : String → Value) × LinkPreviewRecordIsRead value p
unfolding validate_link_preview_record
validate_link_preview_record-LinkPreviewRecordIsRead v p e =
    let (value, _, e0) = expect-eq-ok (is_cbor_record v) _ _ e in (value, ground arith)

-- Every link preview that its validator returns is one that it accepts and returns unchanged when it is
-- written as an object again.
pub validate_link_preview_record_idempotent :
    (v : Value) (p : LinkPreviewRecord)
    → validate_link_preview_record v ≡ ok p
    → validate_link_preview_record (link_preview_record_object p) ≡ ok p
unfolding validate_link_preview_record get
validate_link_preview_record_idempotent v p e =
    let (value, r) = validate_link_preview_record-LinkPreviewRecordIsRead v p e in
    rw (
      is_string_again (value "url") r.url,
      is_optional_string_again (value "title") r.title,
      is_optional_string_again (value "description") r.description,
      is_optional_string_again (value "image") r.image,
      is_optional_string_again (value "siteName") r.site_name,
      is_non_negative_safe_integer_again (value "fetchedAt") r.fetched_at,
    )
