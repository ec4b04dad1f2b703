-- ===== src/Pcbk/Subtle.antt =====
-- The cryptography that the format calls: the Web Crypto API and hash-wasm's Argon2id, as a record of
-- operations, and packages/pcbk-core/src/hkdf.ts, argon2.ts and the key imports of header.ts and
-- record-encryption.ts on top. Keys and messages are byte strings; a promise that rejects is an error.
use private_communication.Common.{
  ℕ, ◌*◌, String, Bool, true, List, [], length, ◌==◌, Result, ok, err, ◌>>=◌, ◌>>◌, guard,
  if◌then◌else◌, utf8, ltb, ◌≡◌, ◌/◌, ◌+◌,
}
use private_communication.Pcbk.Constants.{root_key_bytes, salt_bytes}
use private_communication.Pcbk.Value.{Number, nat, neg, real}

-- Parameters in the order of the API: key, then what the algorithm names, then the data.
pub record Subtle : Type 0 where
  pub hkdf : (key salt info : List ℕ) → (bits : ℕ) → Result String (List ℕ)
  pub hmac_sign : (key data_bytes : List ℕ) → List ℕ
  pub hmac_verify : (key signature data_bytes : List ℕ) → Bool
  pub encrypt :
      (key iv additional : List ℕ) → (tag_bits : ℕ) → (plain : List ℕ) → Result String (List ℕ)
  pub decrypt :
      (key iv additional : List ℕ) → (tag_bits : ℕ) → (cipher : List ℕ) → Result String (List ℕ)
  pub argon2id :
      (password salt : List ℕ) → (iterations memory parallelism length : ℕ) → Result String (List ℕ)
  pub normalize_nfkc : String → String

-- The documented behaviour that the format rests on.
pub record IsLawful (c : Subtle) : Type 0 where
  pub derives :
      (key salt info k : List ℕ) (bytes : ℕ)
      → c.hkdf key salt info (bytes * 8) ≡ ok k
      → length k ≡ bytes
  pub signs : (key message : List ℕ) → length (c.hmac_sign key message) ≡ 32
  pub verifies : (key message : List ℕ) → c.hmac_verify key (c.hmac_sign key message) message ≡ true
  pub expands :
      (key iv additional plain cipher : List ℕ) (tag_bits : ℕ)
      → c.encrypt key iv additional tag_bits plain ≡ ok cipher
      → length cipher ≡ length plain + tag_bits / 8
  pub opens :
      (key iv additional plain cipher : List ℕ) (tag_bits : ℕ)
      → c.encrypt key iv additional tag_bits plain ≡ ok cipher
      → c.decrypt key iv additional tag_bits cipher ≡ ok plain

-- `!Number.isInteger(n) || n <= 0` throws.
abbrev pub positive_integer : Number → String → Result String ℕ
positive_integer (nat n) message = if ltb 0 n then ok n else err message
positive_integer (neg n) message = err message
positive_integer (real n) message = err message

module _ (c : Subtle) where
  -- deriveSubkey. No caller gives a salt, so it is empty.
  unfoldable pub derive_subkey :
      (root_key : List ℕ) → (info : String) → (len : ℕ) → Result String (List ℕ)
  derive_subkey root_key info len = do
    guard (ltb 0 (length root_key)) "rootKey must be a non-empty Uint8Array"
    guard (ltb 0 len) "length must be a positive integer"
    c.hkdf root_key [] (utf8 info) (len * 8)

  -- deriveRootKey
  unfoldable pub derive_root_key :
      (passphrase : String)
      → (salt : List ℕ) → (memory iterations parallelism hash_length : Number)
      → Result String (List ℕ)
  derive_root_key passphrase salt memory iterations parallelism hash_length = do
    guard (length salt == salt_bytes) "salt must be 16 bytes"
    m ← positive_integer memory "memoryKiB must be a positive integer"
    i ← positive_integer iterations "iterations must be a positive integer"
    p ← positive_integer parallelism "parallelism must be a positive integer"
    h ← positive_integer hash_length "hashLength must be a positive integer"
    c.argon2id (utf8 (c.normalize_nfkc passphrase)) salt i m p h

-- importHmacKey, importAesGcmKey and importContentKey: the key as it is, if its length is right.
abbrev pub import_key : List ℕ → Result String (List ℕ)
import_key key = guard (length key == root_key_bytes) "key must be 32 bytes" >> ok key
