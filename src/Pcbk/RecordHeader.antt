-- ===== src/Pcbk/RecordHeader.antt =====
-- The header of a record: packages/pcbk-core/src/record-header.ts, with the types of types.ts. An
-- error is its message, without the value that a template puts into it.
pub mod Accepted
pub mod RoundTrip
use private_communication.Common.{
  ℕ, String, Bool, true, false, not, ◌&&◌, ◌||◌, ◌==◌, Option, none, some, List, [], ◌∷◌, ltb,
  str_eq, if◌then◌else◌, Result, ok, err, ◌>>=◌, ◌>>◌, guard, expect,
}
use private_communication.Pcbk.Constants.{record_version}
use private_communication.Pcbk.Value.{
  Number, nat, Value, num, str, obj, Fields, end, field, is_cbor_record, is_nat, is_undefined,
  is_non_negative_safe_integer, is_positive_safe_integer, is_non_empty_string, is_string,
}
use private_communication.Pcbk.Cbor.{Codec, encode_canonical_cbor, decode_cbor}

-- PCBKRecordType
pub data RecordType : Type 0 where
  identity peer_keys_batch messages_batch link_previews_batch outbox_batch : RecordType
  attachment_meta attachment_chunk transfer_queue_meta transfer_queue_chunk : RecordType
  remote_media_meta remote_media_chunk manifest : RecordType

-- PCBKRecordEncoding
pub data Encoding : Type 0 where
  cbor bytes : Encoding

-- The text of a record type.
abbrev pub type_name : RecordType → String
type_name identity = "identity"
type_name peer_keys_batch = "peer-keys-batch"
type_name messages_batch = "messages-batch"
type_name link_previews_batch = "link-previews-batch"
type_name outbox_batch = "outbox-batch"
type_name attachment_meta = "attachment-meta"
type_name attachment_chunk = "attachment-chunk"
type_name transfer_queue_meta = "transfer-queue-meta"
type_name transfer_queue_chunk = "transfer-queue-chunk"
type_name remote_media_meta = "remote-media-meta"
type_name remote_media_chunk = "remote-media-chunk"
type_name manifest = "manifest"

-- RECORD_TYPES
abbrev pub record_types : List RecordType
record_types =
    identity ∷ peer_keys_batch ∷ messages_batch ∷ link_previews_batch ∷ outbox_batch
    ∷ attachment_meta ∷ attachment_chunk ∷ transfer_queue_meta ∷ transfer_queue_chunk
    ∷ remote_media_meta ∷ remote_media_chunk ∷ manifest ∷ []

abbrev find_type : String → List RecordType → Option RecordType
find_type s [] = none
find_type s (t ∷ ts) = if str_eq (type_name t) s then some t else find_type s ts

-- isRecordType
unfoldable pub is_record_type : Value → Option RecordType
is_record_type (str s) = find_type s record_types
is_record_type _ = none

abbrev pub encoding_name : Encoding → String
encoding_name cbor = "cbor"
encoding_name bytes = "bytes"

-- isRecordEncoding
unfoldable pub is_record_encoding : Value → Option Encoding
is_record_encoding (str s) =
    if str_eq "cbor" s then some cbor else if str_eq "bytes" s then some bytes else none
is_record_encoding _ = none

-- CHUNK_RECORD_TYPES.has
abbrev pub is_chunk_type : RecordType → Bool
is_chunk_type attachment_chunk = true
is_chunk_type transfer_queue_chunk = true
is_chunk_type remote_media_chunk = true
is_chunk_type _ = false

-- OBJECT_ID_RECORD_TYPES.has
abbrev pub is_object_id_type : RecordType → Bool
is_object_id_type attachment_meta = true
is_object_id_type transfer_queue_meta = true
is_object_id_type remote_media_meta = true
is_object_id_type t = is_chunk_type t

-- PCBKRecordHeader; `recordVersion` is always 1.
pub record RecordHeader : Type 0 where
  pub type : RecordType
  pub index : ℕ
  pub encoding : Encoding
  pub plain_length : ℕ
  pub cipher_length : ℕ
  pub object_id : Option String
  pub chunk_index : Option ℕ
  pub chunk_count : Option ℕ

abbrev is_some {ℓ} : {A : Type ℓ} → Option A → Bool
is_some none = false
is_some (some a) = true

abbrev same : Bool → Bool → Bool
same true b = b
same false b = not b

-- validateRecordHeader in its three stages: the fields that every header has, the object's name, and
-- the chunk's place.
pub record Scalars : Type 0 where
  pub type : RecordType
  pub index : ℕ
  pub encoding : Encoding
  pub plain_length : ℕ
  pub cipher_length : ℕ

check_scalars : (String → Value) → Result String Scalars
check_scalars value = do
  guard (is_nat record_version (value "recordVersion")) "recordVersion must be 1"
  type ← expect (is_record_type (value "type")) "record type is not supported"
  encoding ←
      expect (is_record_encoding (value "encoding")) "record encoding must be \"cbor\" or \"bytes\""
  index ←
      expect (is_non_negative_safe_integer (value "index"))
        "index must be a non-negative safe integer"
  plain_length ←
      expect (is_non_negative_safe_integer (value "plainLength"))
        "plainLength must be a non-negative safe integer"
  cipher_length ←
      expect (is_non_negative_safe_integer (value "cipherLength"))
        "cipherLength must be a non-negative safe integer"
  ok (record {
    type = type;
    index = index;
    encoding = encoding;
    plain_length = plain_length;
    cipher_length = cipher_length;
  })

check_object_id : RecordType → Value → Result String (Unit {0})
check_object_id type object_id =
    if is_object_id_type type
    then guard (is_some (is_non_empty_string object_id)) "the record type requires objectId"
    else if is_undefined object_id
    then ok tt
    else guard (is_some (is_non_empty_string object_id)) "objectId must be a non-empty string"

-- With the narrowed values of `chunkIndex` and `chunkCount`. A count without an index is refused, so
-- both are absent or both are the numbers that were checked.
check_chunk : RecordType → Value → Value → Value → Result String (Option ℕ × Option ℕ)
check_chunk type object_id chunk_index chunk_count = do
  guard
      (not (is_chunk_type type) || not (is_undefined chunk_index) && not (is_undefined chunk_count))
      "the record type requires chunkIndex and chunkCount"
  guard (same (is_undefined chunk_index) (is_undefined chunk_count))
      "chunkIndex and chunkCount must be provided together"
  if is_undefined chunk_index then ok (none, none) else do
    index ←
        expect (is_non_negative_safe_integer chunk_index)
          "chunkIndex must be a non-negative safe integer"
    count ←
        expect (is_positive_safe_integer chunk_count) "chunkCount must be a positive safe integer"
    guard (ltb index count) "chunkIndex must be lower than chunkCount"
    guard (is_some (is_non_empty_string object_id)) "chunked records require objectId"
    ok (some index, some count)

unfoldable pub validate_fields : (String → Value) → Result String RecordHeader
unfolding check_scalars check_object_id check_chunk
validate_fields value = do
  s ← check_scalars value
  check_object_id s.type (value "objectId")
  chunk ← check_chunk s.type (value "objectId") (value "chunkIndex") (value "chunkCount")
  ok (record {
    type = s.type;
    index = s.index;
    encoding = s.encoding;
    plain_length = s.plain_length;
    cipher_length = s.cipher_length;
    object_id = is_string (value "objectId");
    chunk_index = chunk.0;
    chunk_count = chunk.1;
  })

-- validateRecordHeader
unfoldable pub validate_record_header : Value → Result String RecordHeader
unfolding validate_fields
validate_record_header v = do
  value ← expect (is_cbor_record v) "record header must be an object"
  validate_fields value

-- decodeRecordHeader
unfoldable pub decode_record_header : Codec → List ℕ → Result String RecordHeader
decode_record_header codec [] = err "headerBytes must be a non-empty Uint8Array"
decode_record_header codec (b ∷ bs) = do
  value ← decode_cbor codec (b ∷ bs)
  validate_record_header value

-- BuildRecordHeaderInput. An absent property is `none`.
pub record BuildInput : Type 0 where
  pub version : Number
  pub type : RecordType
  pub index : Number
  pub encoding : Encoding
  pub plain_length : Number
  pub cipher_length : Number
  pub object_id : Option String
  pub chunk_index : Option Number
  pub chunk_count : Option Number

abbrev with_text : String → Option String → Fields → Fields
with_text key none fs = fs
with_text key (some s) fs = if str_eq s "" then fs else field key (str s) fs

abbrev with_number : String → Option Number → Fields → Fields
with_number key none fs = fs
with_number key (some n) fs = field key (num n) fs

-- The object that buildRecordHeader encodes.
abbrev pub header_fields : BuildInput → Fields
header_fields input = field "recordVersion" (num input.version) (
    field "type" (str (type_name input.type)) (
      field "index" (num input.index) (
        field "encoding" (str (encoding_name input.encoding)) (
          field "plainLength" (num input.plain_length) (
            field "cipherLength" (num input.cipher_length) (
              with_text "objectId" input.object_id (
                with_number "chunkIndex" input.chunk_index
                  (with_number "chunkCount" input.chunk_count end))))))))

abbrev optional_check : (Value → Option ℕ) → Option Number → Bool
optional_check p none = true
optional_check p (some n) = is_some (p (num n))

abbrev chunk_in_order : Option Number → Option Number → Bool
chunk_in_order (some (nat i)) (some (nat n)) = ltb i n
chunk_in_order _ _ = true

-- buildRecordHeader. Behind its two checks the numbers compared are natural ones.
unfoldable pub build_record_header : Codec → BuildInput → Result String (List ℕ)
build_record_header codec input = do
  guard (is_nat record_version (num input.version)) "recordVersion must be 1"
  guard (is_some (is_non_negative_safe_integer (num input.index)))
      "index must be a non-negative safe integer"
  guard (is_some (is_non_negative_safe_integer (num input.plain_length)))
      "plainLength must be a non-negative safe integer"
  guard (is_some (is_non_negative_safe_integer (num input.cipher_length)))
      "cipherLength must be a non-negative safe integer"
  guard (same (is_some input.chunk_index) (is_some input.chunk_count))
      "chunkIndex and chunkCount must be provided together"
  guard (optional_check is_non_negative_safe_integer input.chunk_index)
      "chunkIndex must be a non-negative safe integer"
  guard (optional_check is_positive_safe_integer input.chunk_count)
      "chunkCount must be a positive safe integer"
  guard (chunk_in_order input.chunk_index input.chunk_count)
      "chunkIndex must be lower than chunkCount"
  encode_canonical_cbor codec (obj (header_fields input))
