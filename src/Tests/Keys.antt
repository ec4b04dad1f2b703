-- ===== src/Tests/Keys.antt =====
-- Keys, tags and one encrypted record, with the stand-in cipher.
use private_communication.Common.{ℕ, ◌≡◌, refl, List, [], ◌∷◌, ◌++◌, replicate, ok, true, arith}
use private_communication.Pcbk.Constants.{magic, format_version, flags}
use private_communication.Pcbk.Preamble.{
  encode_uint32_little_endian, build_header_authentication_bytes,
}
use private_communication.Pcbk.Subtle.{derive_subkey}
use private_communication.Pcbk.Record.{
  build_record_nonce, encrypt_record, decrypt_record, build_record_nonce-injective,
  decrypt_record-encrypt,
}
use private_communication.Pcbk.ClearHeader.{
  authenticate_header, verify_header_authentication, wrap_content_key, unwrap_content_key,
}
use private_communication.Pcbk.ClearHeader.Keys.{verify-authenticate, unwrap-wrap}
use private_communication.Tests.Doubles.{codec_of, subtle, subtle-IsLawful}
use private_communication.Tests.Headers.{
  input, header, header_value, header-Describes, aad_built, wrapped,
}

open_keys : Unit {0}
unfolding derive_subkey encode_uint32_little_endian build_header_authentication_bytes
    authenticate_header wrap_content_key encrypt_record build_record_nonce
open_keys = tt

abbrev root_key : List ℕ
root_key = replicate 32 1

abbrev content_key : List ℕ
content_key = replicate 32 5

verify-authenticate_example :
    verify_header_authentication subtle root_key magic 1 0 (9 ∷ 8 ∷ []) (replicate 32 5) ≡ ok true
unfolding open_keys
verify-authenticate_example =
    verify-authenticate subtle subtle-IsLawful root_key magic 1 0 (9 ∷ 8 ∷ []) (replicate 32 5) refl

unwrap-wrap_example :
    unwrap_content_key subtle (codec_of header_value) root_key header magic format_version flags
    ≡ ok content_key
unfolding open_keys
unwrap-wrap_example =
    unwrap-wrap subtle subtle-IsLawful (codec_of header_value) root_key content_key (0 ∷ []) wrapped
      input header aad_built refl header-Describes

abbrev prefix : List ℕ
prefix = 1 ∷ 2 ∷ 3 ∷ 4 ∷ []

build_record_nonce-injective_example : (prefix ≡ prefix) × ◌≡◌ {A = ℕ} 258 258
unfolding open_keys
build_record_nonce-injective_example =
    build_record_nonce-injective prefix prefix (1 ∷ 2 ∷ 3 ∷ 4 ∷ 0 ∷ 0 ∷ 0 ∷ 0 ∷ 0 ∷ 0 ∷ 1 ∷ 2 ∷ [])
      258 258 (ground arith) (ground arith) refl refl

decrypt_record-encrypt_example :
    decrypt_record subtle content_key (replicate 12 6) (7 ∷ []) ((10 ∷ 20 ∷ []) ++ replicate 16 0)
    ≡ ok (10 ∷ 20 ∷ [])
unfolding open_keys
decrypt_record-encrypt_example =
    decrypt_record-encrypt subtle subtle-IsLawful content_key (replicate 12 6) (7 ∷ [])
      (10 ∷ 20 ∷ []) ((10 ∷ 20 ∷ []) ++ replicate 16 0) refl
