-- ===== src/Restore/Payloads/Media/Idempotent.antt =====
-- Validating remote media is idempotent.
use private_communication.Common.{
  ◌≡◌, refl, String, some, ok, arith, expect-eq-ok, ok-injective, >>=-eq-ok, subst,
}
use private_communication.Pcbk.Value.{
  Value, bool, str, get, is_cbor_record, is_string, is_non_negative_safe_integer,
  is_positive_safe_integer,
}
use private_communication.Restore.Payloads.{is_boolean, is_nullable_string, natural, nullable_text}
use private_communication.Restore.Payloads.Again.{
  is_string_again, is_non_negative_safe_integer_again, is_positive_safe_integer_again,
  is_nullable_string_again, fields_of,
}
use private_communication.Restore.Payloads.Media.{
  RemoteMediaMeta, RemoteMediaMetaBack, RemoteMediaMetaFront,
  back_of_remote_media_meta_record_payload, front_of_remote_media_meta_record_payload,
  remote_media_meta_record_payload_object, validate_remote_media_meta_record_payload,
}

record RemoteMediaMetaFrontIsRead (value : String → Value) (p : RemoteMediaMetaFront) : Type 0 where
  media_id : is_string (value "mediaId") ≡ some p.media_id
  url : is_string (value "url") ≡ some p.url
  mime_type : is_string (value "mimeType") ≡ some p.mime_type
  extension : is_string (value "extension") ≡ some p.extension
  is_favorite : is_boolean (value "isFavorite") ≡ some p.is_favorite
  source_host : is_string (value "sourceHost") ≡ some p.source_host
  peer_id : is_nullable_string (value "peerId") ≡ some p.peer_id

front_of_remote_media_meta_record_payload-RemoteMediaMetaFrontIsRead :
    (value : String → Value) (p : RemoteMediaMetaFront)
    → front_of_remote_media_meta_record_payload value ≡ ok p
    → RemoteMediaMetaFrontIsRead value p
unfolding front_of_remote_media_meta_record_payload
front_of_remote_media_meta_record_payload-RemoteMediaMetaFrontIsRead value p e = ground arith

RemoteMediaMetaFrontIsRead-front_of_remote_media_meta_record_payload :
    (value again : String → Value) (p : RemoteMediaMetaFront)
    → RemoteMediaMetaFrontIsRead value p
    → (again "mediaId" ≡ str p.media_id)
    → (again "url" ≡ str p.url)
    → (again "mimeType" ≡ str p.mime_type)
    → (again "extension" ≡ str p.extension)
    → (again "isFavorite" ≡ bool p.is_favorite)
    → (again "sourceHost" ≡ str p.source_host)
    → (again "peerId" ≡ nullable_text p.peer_id)
    → front_of_remote_media_meta_record_payload again ≡ ok p
unfolding front_of_remote_media_meta_record_payload is_boolean
RemoteMediaMetaFrontIsRead-front_of_remote_media_meta_record_payload value again p r g0 g1 g2 g3 g4
      g5 g6 =
    rw (
      g0,
      g1,
      g2,
      g3,
      g4,
      g5,
      g6,
      is_string_again (value "mediaId") r.media_id,
      is_string_again (value "url") r.url,
      is_string_again (value "mimeType") r.mime_type,
      is_string_again (value "extension") r.extension,
      is_string_again (value "sourceHost") r.source_host,
      is_nullable_string_again (value "peerId") r.peer_id,
    )

record RemoteMediaMetaBackIsRead (value : String → Value) (p : RemoteMediaMetaBack) : Type 0 where
  message_id : is_nullable_string (value "messageId") ≡ some p.message_id
  created_at : is_non_negative_safe_integer (value "createdAt") ≡ some p.created_at
  updated_at : is_non_negative_safe_integer (value "updatedAt") ≡ some p.updated_at
  last_accessed_at : is_non_negative_safe_integer (value "lastAccessedAt") ≡ some p.last_accessed_at
  expires_at : is_non_negative_safe_integer (value "expiresAt") ≡ some p.expires_at
  chunk_size : is_positive_safe_integer (value "chunkSize") ≡ some p.chunk_size
  chunk_count : is_positive_safe_integer (value "chunkCount") ≡ some p.chunk_count

back_of_remote_media_meta_record_payload-RemoteMediaMetaBackIsRead :
    (value : String → Value) (p : RemoteMediaMetaBack)
    → back_of_remote_media_meta_record_payload value ≡ ok p
    → RemoteMediaMetaBackIsRead value p
unfolding back_of_remote_media_meta_record_payload
back_of_remote_media_meta_record_payload-RemoteMediaMetaBackIsRead value p e = ground arith

RemoteMediaMetaBackIsRead-back_of_remote_media_meta_record_payload :
    (value again : String → Value) (p : RemoteMediaMetaBack)
    → RemoteMediaMetaBackIsRead value p
    → (again "messageId" ≡ nullable_text p.message_id)
    → (again "createdAt" ≡ natural p.created_at)
    → (again "updatedAt" ≡ natural p.updated_at)
    → (again "lastAccessedAt" ≡ natural p.last_accessed_at)
    → (again "expiresAt" ≡ natural p.expires_at)
    → (again "chunkSize" ≡ natural p.chunk_size)
    → (again "chunkCount" ≡ natural p.chunk_count)
    → back_of_remote_media_meta_record_payload again ≡ ok p
unfolding back_of_remote_media_meta_record_payload is_boolean
RemoteMediaMetaBackIsRead-back_of_remote_media_meta_record_payload value again p r g0 g1 g2 g3 g4 g5
      g6 =
    rw (
      g0,
      g1,
      g2,
      g3,
      g4,
      g5,
      g6,
      is_nullable_string_again (value "messageId") r.message_id,
      is_non_negative_safe_integer_again (value "createdAt") r.created_at,
      is_non_negative_safe_integer_again (value "updatedAt") r.updated_at,
      is_non_negative_safe_integer_again (value "lastAccessedAt") r.last_accessed_at,
      is_non_negative_safe_integer_again (value "expiresAt") r.expires_at,
      is_positive_safe_integer_again (value "chunkSize") r.chunk_size,
      is_positive_safe_integer_again (value "chunkCount") r.chunk_count,
    )

abbrev read_of_remote_media_meta_record_payload : RemoteMediaMeta → String → Value
unfolding get
read_of_remote_media_meta_record_payload p key =
    get key (fields_of (remote_media_meta_record_payload_object p))

front_again_of_remote_media_meta_record_payload :
    (value : String → Value) (p : RemoteMediaMeta)
    → RemoteMediaMetaFrontIsRead value p.front
    → front_of_remote_media_meta_record_payload (read_of_remote_media_meta_record_payload p)
      ≡ ok p.front
unfolding get
front_again_of_remote_media_meta_record_payload value p r =
    RemoteMediaMetaFrontIsRead-front_of_remote_media_meta_record_payload value
      (read_of_remote_media_meta_record_payload p) p.front r refl refl refl refl refl refl refl

back_again_of_remote_media_meta_record_payload :
    (value : String → Value) (p : RemoteMediaMeta)
    → RemoteMediaMetaBackIsRead value p.back
    → back_of_remote_media_meta_record_payload (read_of_remote_media_meta_record_payload p)
      ≡ ok p.back
unfolding get
back_again_of_remote_media_meta_record_payload value p r =
    RemoteMediaMetaBackIsRead-back_of_remote_media_meta_record_payload value
      (read_of_remote_media_meta_record_payload p) p.back r refl refl refl refl refl refl refl

-- Every remote media meta that its validator returns is one that it accepts and returns unchanged when it is
-- written as an object again.
pub validate_remote_media_meta_record_payload_idempotent :
    (v : Value) (p : RemoteMediaMeta)
    → validate_remote_media_meta_record_payload v ≡ ok p
    → validate_remote_media_meta_record_payload (remote_media_meta_record_payload_object p) ≡ ok p
unfolding validate_remote_media_meta_record_payload get
validate_remote_media_meta_record_payload_idempotent v p e =
    let (value, _, e0) = expect-eq-ok (is_cbor_record v) _ _ e in
    let (a, ha, e1) = >>=-eq-ok (front_of_remote_media_meta_record_payload value) _ e0 in
    let (b, hb, e2) = >>=-eq-ok (back_of_remote_media_meta_record_payload value) _ e1 in
    let m : RemoteMediaMeta = record { front = a; back = b } in
    let same : m ≡ p = ok-injective e2 in
    let again_a =
      front_again_of_remote_media_meta_record_payload value m
        (front_of_remote_media_meta_record_payload-RemoteMediaMetaFrontIsRead value a ha) in
    let again_b =
      back_again_of_remote_media_meta_record_payload value m
        (back_of_remote_media_meta_record_payload-RemoteMediaMetaBackIsRead value b hb) in
    subst
      (λ q.
        validate_remote_media_meta_record_payload (remote_media_meta_record_payload_object q)
        ≡ ok q)
      same (rw (again_a, again_b))
