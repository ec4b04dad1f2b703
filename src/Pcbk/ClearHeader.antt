-- ===== src/Pcbk/ClearHeader.antt =====
-- The clear header of a backup: packages/pcbk-core/src/header.ts, with the types of types.ts. An
-- error is its message, without the value that a template puts into it.
pub mod RoundTrip
pub mod Keys
use private_communication.Common.{
  ℕ, ◌+◌, ◌/◌, String, Bool, true, false, Option, none, some, List, [], ◌∷◌, length, ltb, ◌==◌,
  str_eq, if◌then◌else◌, Result, ok, err, ◌>>=◌, ◌>>◌, guard, expect,
}
use private_communication.Pcbk.Constants.{
  magic, format_version, flags, header_version, header_auth_info, key_wrap_info, hkdf_algorithm,
  kdf_algorithm, key_wrap_algorithm, record_cipher_algorithm, salt_bytes, backup_id_bytes,
  root_key_bytes, wrap_iv_bytes, record_nonce_prefix_bytes, header_auth_tag_bytes, aes_gcm_tag_bits,
}
use private_communication.Pcbk.Value.{
  Number, nat, Value, bool, num, str, bytes, obj, Fields, end, field, is_cbor_record, is_nat,
  is_text, is_true, is_bytes, is_positive_safe_integer,
}
use private_communication.Pcbk.Cbor.{Codec, encode_canonical_cbor, decode_cbor}
use private_communication.Pcbk.Preamble.{build_header_authentication_bytes}
use private_communication.Pcbk.Subtle.{Subtle, derive_subkey, import_key, positive_integer}

-- PCBKMode
pub data Mode : Type 0 where
  identity_only full : Mode

abbrev pub mode_name : Mode → String
mode_name identity_only = "identity-only"
mode_name full = "full"

-- validateMode
unfoldable pub validate_mode : Value → Option Mode
validate_mode (str s) =
    if str_eq "identity-only" s
    then some identity_only
    else if str_eq "full" s
    then some full
    else none
validate_mode _ = none

-- Argon2Profile, as far as the header uses it.
pub record Argon2Profile : Type 0 where
  pub memory_kib : Number
  pub iterations : Number
  pub parallelism : Number
  pub hash_length : Number

-- BuildKeyWrapAadInput
pub record AadInput : Type 0 where
  pub mode : Mode
  pub created_at : Number
  pub backup_id : List ℕ
  pub kdf_profile : Argon2Profile
  pub salt : List ℕ
  pub wrap_iv : List ℕ
  pub nonce_prefix : List ℕ

-- PCBKClearHeader. What its type fixes (versions, algorithms, the output length, the tag length and
-- the manifest policy) is not stored.
pub record ClearHeader : Type 0 where
  pub mode : Mode
  pub created_at : ℕ
  pub backup_id : List ℕ
  pub salt : List ℕ
  pub memory_kib : ℕ
  pub iterations : ℕ
  pub parallelism : ℕ
  pub iv : List ℕ
  pub wrapped_content_key : List ℕ
  pub nonce_prefix : List ℕ

-- The one shape of a header object, of the values that vary.
abbrev pub kdf_fields : List ℕ → Value → Value → Value → Value → Fields
kdf_fields salt memory iterations parallelism output = field "algorithm" (str kdf_algorithm) (
    field "version" (num (nat 19)) (
      field "salt" (bytes salt) (
        field "memoryKiB" memory (
          field "iterations" iterations
            (field "parallelism" parallelism (field "outputLength" output end))))))

abbrev pub hkdf_fields : Fields
hkdf_fields = field "algorithm" (str hkdf_algorithm) end

abbrev pub key_wrap_fields : List ℕ → List ℕ → Fields
key_wrap_fields iv wrapped =
    field "algorithm" (str key_wrap_algorithm)
      (field "iv" (bytes iv) (field "wrappedContentKey" (bytes wrapped) end))

abbrev pub record_cipher_fields : List ℕ → Fields
record_cipher_fields nonce_prefix = field "algorithm" (str record_cipher_algorithm) (
    field "noncePrefix" (bytes nonce_prefix)
      (field "tagLengthBits" (num (nat aes_gcm_tag_bits)) end))

abbrev pub manifest_fields : Fields
manifest_fields = field "required" (bool true) (field "mustBeFinalRecord" (bool true) end)

abbrev pub header_object : Mode → Number → List ℕ → Fields → Fields → Fields → Fields
header_object mode created_at backup_id kdf key_wrap record_cipher =
    field "headerVersion" (num (nat header_version)) (
      field "mode" (str (mode_name mode)) (
        field "createdAt" (num created_at) (
          field "backupId" (bytes backup_id) (
            field "kdf" (obj kdf) (
              field "hkdf" (obj hkdf_fields) (
                field "keyWrap" (obj key_wrap) (
                  field "recordCipher" (obj record_cipher)
                    (field "manifest" (obj manifest_fields) end))))))))

-- The object that buildClearHeaderObject returns.
abbrev pub input_fields : AadInput → List ℕ → Fields
input_fields i wrapped =
    header_object i.mode i.created_at i.backup_id
      (kdf_fields i.salt (num i.kdf_profile.memory_kib) (num i.kdf_profile.iterations)
        (num i.kdf_profile.parallelism) (num i.kdf_profile.hash_length))
      (key_wrap_fields i.wrap_iv wrapped) (record_cipher_fields i.nonce_prefix)

-- buildClearHeaderObject
pub build_clear_header_object : AadInput → List ℕ → Result String Fields
build_clear_header_object i wrapped = do
  guard (length i.backup_id == backup_id_bytes) "backupId must be 16 bytes"
  guard (length i.salt == salt_bytes) "salt must be 16 bytes"
  guard (length i.wrap_iv == wrap_iv_bytes) "wrapIv must be 12 bytes"
  guard (length i.nonce_prefix == record_nonce_prefix_bytes) "noncePrefix must be 4 bytes"
  positive_integer i.created_at "createdAt must be a positive integer" >>= λ _.
      ok (input_fields i wrapped)

-- buildClearHeader: an AadInput with the wrapped key is a BuildClearHeaderInput.
unfoldable pub build_clear_header : Codec → AadInput → List ℕ → Result String (List ℕ)
unfolding build_clear_header_object
build_clear_header codec i wrapped = do
  header ← build_clear_header_object i wrapped
  encode_canonical_cbor codec (obj header)

-- buildKeyWrapAadHeader
unfoldable pub build_key_wrap_aad_header : Codec → AadInput → Result String (List ℕ)
unfolding build_clear_header_object
build_key_wrap_aad_header codec i = do
  header ← build_clear_header_object i []
  encode_canonical_cbor codec (obj header)

-- The object that buildKeyWrapAadHeaderFromClearHeader encodes.
abbrev pub aad_fields : ClearHeader → Fields
aad_fields h =
    header_object h.mode (nat h.created_at) h.backup_id
      (kdf_fields h.salt (num (nat h.memory_kib)) (num (nat h.iterations)) (num (nat h.parallelism))
        (num (nat root_key_bytes)))
      (key_wrap_fields h.iv []) (record_cipher_fields h.nonce_prefix)

-- buildKeyWrapAadHeaderFromClearHeader
unfoldable pub build_key_wrap_aad_header_from_clear_header :
    Codec → ClearHeader → Result String (List ℕ)
build_key_wrap_aad_header_from_clear_header codec h =
    encode_canonical_cbor codec (obj (aad_fields h))

-- `assertCondition(v instanceof Uint8Array, …)`, then validateUint8ArrayLength.
abbrev pub bytes_of_length : Value → ℕ → String → String → Result String (List ℕ)
bytes_of_length v n not_bytes wrong_length = do
  b ← expect (is_bytes v) not_bytes
  guard (length b == n) wrong_length
  ok b

-- validateClearHeader, section by section.
pub record Kdf : Type 0 where
  pub salt : List ℕ
  pub memory_kib : ℕ
  pub iterations : ℕ
  pub parallelism : ℕ

validate_kdf : Value → Result String Kdf
validate_kdf v = do
  kdf ← expect (is_cbor_record v) "kdf must be an object"
  guard (is_text kdf_algorithm (kdf "algorithm")) "kdf.algorithm must be argon2id"
  guard (is_nat 19 (kdf "version")) "kdf.version must be 19"
  salt ←
      bytes_of_length (kdf "salt") salt_bytes "kdf.salt must be bytes" "kdf.salt must be 16 bytes"
  memory ←
      expect (is_positive_safe_integer (kdf "memoryKiB"))
        "kdf.memoryKiB must be a positive safe integer"
  iterations ←
      expect (is_positive_safe_integer (kdf "iterations"))
        "kdf.iterations must be a positive safe integer"
  parallelism ←
      expect (is_positive_safe_integer (kdf "parallelism"))
        "kdf.parallelism must be a positive safe integer"
  guard (is_nat root_key_bytes (kdf "outputLength")) "kdf.outputLength must be 32"
  ok (record {
    salt = salt;
    memory_kib = memory;
    iterations = iterations;
    parallelism = parallelism;
  })

validate_hkdf : Value → Result String (Unit {0})
validate_hkdf v = do
  hkdf ← expect (is_cbor_record v) "hkdf must be an object"
  guard (is_text hkdf_algorithm (hkdf "algorithm")) "hkdf.algorithm must be HKDF-SHA-256"

-- The iv and the wrapped key, which carries the tag.
validate_key_wrap : Value → Result String (List ℕ × List ℕ)
validate_key_wrap v = do
  key_wrap ← expect (is_cbor_record v) "keyWrap must be an object"
  guard (is_text key_wrap_algorithm (key_wrap "algorithm")) "keyWrap.algorithm must be AES-GCM-256"
  iv ←
      bytes_of_length (key_wrap "iv") wrap_iv_bytes "keyWrap.iv must be bytes"
        "keyWrap.iv must be 12 bytes"
  wrapped ←
      bytes_of_length (key_wrap "wrappedContentKey") (root_key_bytes + aes_gcm_tag_bits / 8)
        "keyWrap.wrappedContentKey must be bytes" "keyWrap.wrappedContentKey must be 48 bytes"
  ok (iv, wrapped)

validate_record_cipher : Value → Result String (List ℕ)
validate_record_cipher v = do
  cipher ← expect (is_cbor_record v) "recordCipher must be an object"
  guard (is_text record_cipher_algorithm (cipher "algorithm"))
      "recordCipher.algorithm must be AES-GCM-256"
  nonce_prefix ←
      bytes_of_length (cipher "noncePrefix") record_nonce_prefix_bytes
        "recordCipher.noncePrefix must be bytes" "recordCipher.noncePrefix must be 4 bytes"
  guard (is_nat aes_gcm_tag_bits (cipher "tagLengthBits")) "recordCipher.tagLengthBits must be 128"
  ok nonce_prefix

validate_policy : Value → Result String (Unit {0})
validate_policy v = do
  policy ← expect (is_cbor_record v) "manifest must be an object"
  guard (is_true (policy "required")) "manifest.required must be true"
  guard (is_true (policy "mustBeFinalRecord")) "manifest.mustBeFinalRecord must be true"

validate_sections : (String → Value) → Result String ClearHeader
validate_sections value = do
  guard (is_nat header_version (value "headerVersion")) "headerVersion must be 1"
  mode ← expect (validate_mode (value "mode")) "mode must be \"identity-only\" or \"full\""
  created_at ←
      expect (is_positive_safe_integer (value "createdAt"))
        "createdAt must be a positive safe integer"
  backup_id ←
      bytes_of_length (value "backupId") backup_id_bytes "backupId must be bytes"
        "backupId must be 16 bytes"
  kdf ← validate_kdf (value "kdf")
  validate_hkdf (value "hkdf")
  wrap ← validate_key_wrap (value "keyWrap")
  nonce_prefix ← validate_record_cipher (value "recordCipher")
  validate_policy (value "manifest")
  ok (record {
    mode = mode;
    created_at = created_at;
    backup_id = backup_id;
    salt = kdf.salt;
    memory_kib = kdf.memory_kib;
    iterations = kdf.iterations;
    parallelism = kdf.parallelism;
    iv = wrap.0;
    wrapped_content_key = wrap.1;
    nonce_prefix = nonce_prefix;
  })

-- validateClearHeader
unfoldable pub validate_clear_header : Value → Result String ClearHeader
unfolding validate_sections validate_kdf validate_hkdf validate_key_wrap validate_record_cipher
    validate_policy
validate_clear_header v = do
  value ← expect (is_cbor_record v) "clear header must be an object"
  validate_sections value

-- decodeClearHeader
unfoldable pub decode_clear_header : Codec → List ℕ → Result String ClearHeader
decode_clear_header codec [] = err "clearHeaderBytes must be a non-empty Uint8Array"
decode_clear_header codec (b ∷ bs) = do
  value ← decode_cbor codec (b ∷ bs)
  validate_clear_header value

module _ (c : Subtle) where
  -- authenticateHeader
  unfoldable pub authenticate_header :
      (root_key magic_bytes : List ℕ)
      → (version flag_bits : ℕ) → (clear_header : List ℕ) → Result String (List ℕ)
  authenticate_header root_key magic_bytes version flag_bits clear_header = do
    header_auth_key ← derive_subkey c root_key header_auth_info root_key_bytes
    authenticated ← build_header_authentication_bytes magic_bytes version flag_bits clear_header
    key ← import_key header_auth_key
    ok (c.hmac_sign key authenticated)

  -- verifyHeaderAuthentication
  unfoldable pub verify_header_authentication :
      (root_key magic_bytes : List ℕ)
      → (version flag_bits : ℕ) → (clear_header tag : List ℕ) → Result String Bool
  verify_header_authentication root_key magic_bytes version flag_bits clear_header tag = do
    guard (length tag == header_auth_tag_bytes) "headerAuthTag must be 32 bytes"
    header_auth_key ← derive_subkey c root_key header_auth_info root_key_bytes
    authenticated ← build_header_authentication_bytes magic_bytes version flag_bits clear_header
    key ← import_key header_auth_key
    ok (c.hmac_verify key tag authenticated)

  -- wrapContentKey
  unfoldable pub wrap_content_key :
      (root_key content_key aad_header iv : List ℕ) → Result String (List ℕ)
  wrap_content_key root_key content_key aad_header iv = do
    guard (length iv == wrap_iv_bytes) "iv must be 12 bytes"
    guard (length content_key == root_key_bytes) "contentKey must be 32 bytes"
    key_wrap_key ← derive_subkey c root_key key_wrap_info root_key_bytes
    key ← import_key key_wrap_key
    aad ← build_header_authentication_bytes magic format_version flags aad_header
    c.encrypt key iv aad aes_gcm_tag_bits content_key

  -- unwrapContentKey
  unfoldable pub unwrap_content_key :
      Codec
      → (root_key : List ℕ) → ClearHeader
      → (magic_bytes : List ℕ) → (version flag_bits : ℕ) → Result String (List ℕ)
  unwrap_content_key codec root_key h magic_bytes version flag_bits = do
    key_wrap_key ← derive_subkey c root_key key_wrap_info root_key_bytes
    key ← import_key key_wrap_key
    aad_header ← build_key_wrap_aad_header_from_clear_header codec h
    aad ← build_header_authentication_bytes magic_bytes version flag_bits aad_header
    content_key ← c.decrypt key h.iv aad aes_gcm_tag_bits h.wrapped_content_key
    guard (length content_key == root_key_bytes) "contentKey must be 32 bytes"
    ok content_key
