-- ===== src/Tests/Headers.antt =====
-- A backup's front and its headers, at concrete bytes.
use private_communication.Common.{
  ℕ, ◌≡◌, ◌↔◌, refl, String, some, List, [], ◌∷◌, ◌++◌, replicate, ok, arith, All,
}
use private_communication.Pcbk.Constants.{magic}
use private_communication.Pcbk.Value.{
  nat, Value, undefined, num, str, obj, Fields, field, end, get, checks,
}
use private_communication.Pcbk.Cbor.{
  encode_canonical_cbor, canonicalize, canonicalize_entries, sort,
}
use private_communication.Pcbk.Cbor.Reading.{get-canonicalize}
use private_communication.Pcbk.Preamble.{
  parse_prelude, read_uint32_little_endian, encode_uint32_little_endian,
  build_header_authentication_bytes, ParsedPrelude,
}
use private_communication.Pcbk.Preamble.Words.{IsByte}
use private_communication.Pcbk.Preamble.RoundTrip.{
  IsWritten, parse_prelude_sound, parse_prelude-build,
}
use private_communication.Pcbk.RecordHeader.{
  is_record_type, is_record_encoding, attachment_chunk, bytes, BuildInput, header_fields,
  build_record_header, decode_record_header, validate_record_header,
}
use private_communication.Pcbk.RecordHeader.Accepted.{IsAccepted, validate_record_header-IsAccepted}
use private_communication.Pcbk.RecordHeader.RoundTrip.{
  IsComplete, header_of, decode_record_header-build_iff,
}
use private_communication.Pcbk.ClearHeader.{
  full, AadInput, ClearHeader, input_fields, build_clear_header, build_key_wrap_aad_header,
  build_key_wrap_aad_header_from_clear_header, decode_clear_header,
}
use private_communication.Pcbk.ClearHeader.RoundTrip.{
  Describes, decode_clear_header-build, aad_header-agrees,
}
use private_communication.Tests.Doubles.{codec_of, codec_of-RoundTrips}

open_headers : Unit {0}
unfolding checks get read_uint32_little_endian encode_uint32_little_endian is_record_type
    is_record_encoding parse_prelude build_header_authentication_bytes validate_record_header
    canonicalize build_record_header encode_canonical_cbor
open_headers = tt

-- A clear header of three bytes, its tag, and two bytes of records.
abbrev tag : List ℕ
tag = replicate 32 7

abbrev front : List ℕ
front = 80 ∷ 67 ∷ 66 ∷ 75 ∷ 1 ∷ 0 ∷ 3 ∷ 0 ∷ 0 ∷ 0 ∷ 11 ∷ 22 ∷ 33 ∷ []

abbrev file : List ℕ
file = front ++ (tag ++ (44 ∷ 55 ∷ []))

abbrev prelude : ParsedPrelude
prelude = record {
  magic_bytes = magic;
  version = 1;
  flag_bits = 0;
  clear_header_length = 3;
  clear_header_bytes = 11 ∷ 22 ∷ 33 ∷ [];
  header_auth_tag = tag;
  prelude_length = 45;
}

file-IsByte : All IsByte file
file-IsByte = ground arith

parse_prelude_sound_example : IsWritten file prelude
unfolding open_headers
parse_prelude_sound_example = parse_prelude_sound file prelude file-IsByte refl

parse_prelude-build_example : parse_prelude file ≡ ok prelude
unfolding open_headers
parse_prelude-build_example =
    parse_prelude-build (11 ∷ 22 ∷ 33 ∷ []) front tag (44 ∷ 55 ∷ []) refl (ground arith) refl

-- Entries out of order, one of them undefined.
abbrev fields : Fields
fields = field "type" (str "x") (field "objectId" undefined (field "index" (num (nat 4)) end))

get-canonicalize_example :
    ◌≡◌ {A = String → Value}
      (λ key. get key (sort (canonicalize_entries fields)))
      (λ key. canonicalize (get key fields))
get-canonicalize_example = get-canonicalize fields refl

-- The second chunk of three of an attachment.
abbrev chunk : BuildInput
chunk = record {
  version = nat 1;
  type = attachment_chunk;
  index = nat 4;
  encoding = bytes;
  plain_length = nat 100;
  cipher_length = nat 116;
  object_id = some "photo";
  chunk_index = some (nat 1);
  chunk_count = some (nat 3);
}

abbrev chunk_value : Value
chunk_value = canonicalize (obj (header_fields chunk))

chunk-IsComplete : IsComplete chunk
chunk-IsComplete = record { named = λ _. refl; placed = λ _ e. cc; place_named = λ _. refl }

decode_record_header-build_iff_example :
    (decode_record_header (codec_of chunk_value) (0 ∷ []) ≡ ok (header_of chunk)) ↔ IsComplete chunk
unfolding open_headers
decode_record_header-build_iff_example =
    decode_record_header-build_iff (codec_of chunk_value) chunk (0 ∷ [])
      (codec_of-RoundTrips chunk_value) refl

-- Both sides of it hold for that chunk, and neither for one that has no name.
chunk_decoded : decode_record_header (codec_of chunk_value) (0 ∷ []) ≡ ok (header_of chunk)
chunk_decoded = decode_record_header-build_iff_example.1 chunk-IsComplete

validate_record_header-IsAccepted_example : IsAccepted (header_of chunk)
unfolding open_headers
validate_record_header-IsAccepted_example =
    validate_record_header-IsAccepted (obj (header_fields chunk)) (header_of chunk) refl

abbrev pub input : AadInput
input = record {
  mode = full;
  created_at = nat 1700000000;
  backup_id = replicate 16 1;
  kdf_profile = record {
    memory_kib = nat 65536;
    iterations = nat 3;
    parallelism = nat 1;
    hash_length = nat 32;
  };
  salt = replicate 16 2;
  wrap_iv = replicate 12 3;
  nonce_prefix = replicate 4 4;
}

-- A content key and its tag, as the stand-in cipher wraps it.
abbrev pub wrapped : List ℕ
wrapped = replicate 32 5 ++ replicate 16 0

abbrev pub header : ClearHeader
header = record {
  mode = full;
  created_at = 1700000000;
  backup_id = replicate 16 1;
  salt = replicate 16 2;
  memory_kib = 65536;
  iterations = 3;
  parallelism = 1;
  iv = replicate 12 3;
  wrapped_content_key = wrapped;
  nonce_prefix = replicate 4 4;
}

pub header-Describes : Describes input wrapped header
header-Describes = record {
  mode = refl;
  created_at = (refl, ground arith, ground arith);
  backup_id = refl;
  salt = refl;
  memory_kib = (refl, ground arith, ground arith);
  iterations = (refl, ground arith, ground arith);
  parallelism = (refl, ground arith, ground arith);
  hash_length = refl;
  iv = refl;
  wrapped = refl;
  wrapped_length = refl;
  nonce_prefix = refl;
}

abbrev pub header_value : Value
header_value = canonicalize (obj (input_fields input wrapped))

header_built : build_clear_header (codec_of header_value) input wrapped ≡ ok (0 ∷ [])
unfolding build_clear_header encode_canonical_cbor
header_built = refl

pub aad_built : build_key_wrap_aad_header (codec_of header_value) input ≡ ok (0 ∷ [])
unfolding build_key_wrap_aad_header encode_canonical_cbor
aad_built = refl

decode_clear_header-build_example : decode_clear_header (codec_of header_value) (0 ∷ []) ≡ ok header
decode_clear_header-build_example =
    decode_clear_header-build (codec_of header_value) input wrapped (0 ∷ []) header
      (codec_of-RoundTrips header_value) header-Describes header_built

aad_header-agrees_example :
    build_key_wrap_aad_header_from_clear_header (codec_of header_value) header ≡ ok (0 ∷ [])
aad_header-agrees_example =
    aad_header-agrees (codec_of header_value) input wrapped (0 ∷ []) header header-Describes
      aad_built
