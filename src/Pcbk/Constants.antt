-- ===== src/Pcbk/Constants.antt =====
-- packages/pcbk-core/src/constants.ts. `magic` is the four bytes that `PCBK_MAGIC` encodes to.
use private_communication.Common.{ℕ, String, List, utf8}

abbrev pub magic : List ℕ
magic = utf8 "PCBK"

abbrev pub format_version : ℕ
format_version = 1

abbrev pub header_version : ℕ
header_version = 1

abbrev pub record_version : ℕ
record_version = 1

abbrev pub flags : ℕ
flags = 0

abbrev pub header_auth_info : String
header_auth_info = "PCBK/1/header-auth"

abbrev pub key_wrap_info : String
key_wrap_info = "PCBK/1/key-wrap"

abbrev pub hkdf_algorithm : String
hkdf_algorithm = "HKDF-SHA-256"

abbrev pub kdf_algorithm : String
kdf_algorithm = "argon2id"

abbrev pub key_wrap_algorithm : String
key_wrap_algorithm = "AES-GCM-256"

abbrev pub record_cipher_algorithm : String
record_cipher_algorithm = "AES-GCM-256"

abbrev pub salt_bytes : ℕ
salt_bytes = 16

abbrev pub backup_id_bytes : ℕ
backup_id_bytes = 16

abbrev pub root_key_bytes : ℕ
root_key_bytes = 32

abbrev pub wrap_iv_bytes : ℕ
wrap_iv_bytes = 12

abbrev pub record_nonce_prefix_bytes : ℕ
record_nonce_prefix_bytes = 4

abbrev pub record_nonce_bytes : ℕ
record_nonce_bytes = 12

abbrev pub header_auth_tag_bytes : ℕ
header_auth_tag_bytes = 32

abbrev pub aes_gcm_tag_bits : ℕ
aes_gcm_tag_bits = 128

abbrev pub clear_header_length_bytes : ℕ
clear_header_length_bytes = 4
