-- ===== src/Pcbk/Record.antt =====
-- The encryption of one record: packages/pcbk-core/src/record-encryption.ts. A content key is the
-- raw key; a key that was imported before is the same key.
use private_communication.Common.{
  ℕ, ◌+◌, ◌*◌, ◌/◌, ◌%◌, ◌^◌, ◌<◌, String, List, [], ◌∷◌, ◌++◌, length, ◌==◌, ltb, Result, ok, err,
  ◌>>=◌, ◌>>◌, guard, ◌≡◌, ap, sym, arith, take, drop, take-append_length, drop-append_length,
  guard-eq-ok, ok-injective, ◌∙◌,
}
use private_communication.Pcbk.Constants.{
  record_nonce_prefix_bytes, record_nonce_bytes, aes_gcm_tag_bits,
}
use private_communication.Pcbk.Value.{Number, nat}
use private_communication.Pcbk.Subtle.{Subtle, IsLawful, import_key}

-- `setBigUint64(…, false)`: the low 64 bits, the high byte first.
abbrev big_uint64 : ℕ → List ℕ
big_uint64 n =
    n / 2 ^ 56 % 256
    ∷ n / 2 ^ 48 % 256
    ∷ n / 2 ^ 40 % 256
    ∷ n / 2 ^ 32 % 256
    ∷ n / 2 ^ 24 % 256
    ∷ n / 2 ^ 16 % 256
    ∷ n / 2 ^ 8 % 256
    ∷ n % 256
    ∷ []

-- buildRecordNonce
unfoldable pub build_record_nonce : List ℕ → Number → Result String (List ℕ)
build_record_nonce nonce_prefix (nat index) = do
  guard (length nonce_prefix == record_nonce_prefix_bytes) "noncePrefix must be 4 bytes"
  ok (nonce_prefix ++ big_uint64 index)
build_record_nonce nonce_prefix _ = do
  guard (length nonce_prefix == record_nonce_prefix_bytes) "noncePrefix must be 4 bytes"
  err "recordIndex must be a non-negative integer"

module _ (c : Subtle) where
  -- encryptRecord: the ciphertext. The header bytes are returned as they came.
  unfoldable pub encrypt_record :
      (content_key nonce header_bytes payload : List ℕ) → Result String (List ℕ)
  encrypt_record content_key nonce header_bytes payload = do
    guard (length nonce == record_nonce_bytes) "nonce must be 12 bytes"
    key ← import_key content_key
    c.encrypt key nonce header_bytes aes_gcm_tag_bits payload

  -- decryptRecord: the payload.
  unfoldable pub decrypt_record :
      (content_key nonce header_bytes ciphertext : List ℕ) → Result String (List ℕ)
  decrypt_record content_key nonce header_bytes ciphertext = do
    guard (length nonce == record_nonce_bytes) "nonce must be 12 bytes"
    guard (ltb 0 (length ciphertext)) "ciphertext must be a non-empty Uint8Array"
    key ← import_key content_key
    c.decrypt key nonce header_bytes aes_gcm_tag_bits ciphertext

-- The number that bytes stand for, the high byte first.
abbrev read_big : ℕ → List ℕ → ℕ
read_big acc [] = acc
read_big acc (b ∷ bs) = read_big (acc * 256 + b) bs

read-big_uint64 : (n : ℕ) → n < 2 ^ 64 → read_big 0 (big_uint64 n) ≡ n
read-big_uint64 n h = omega arith

big_uint64-injective : (i j : ℕ) → i < 2 ^ 64 → j < 2 ^ 64 → big_uint64 i ≡ big_uint64 j → i ≡ j
big_uint64-injective i j hi hj e =
    sym (read-big_uint64 i hi) ∙ ap (read_big 0) e ∙ read-big_uint64 j hj

-- Two records whose nonces are equal have the same prefix and the same index, for indices below 2^64:
-- under one content key and prefix no nonce comes twice while the indices differ.
pub build_record_nonce-injective :
    (p q n : List ℕ) (i j : ℕ)
    → i < 2 ^ 64
    → j < 2 ^ 64
    → build_record_nonce p (nat i) ≡ ok n
    → build_record_nonce q (nat j) ≡ ok n
    → (p ≡ q) × (i ≡ j)
unfolding build_record_nonce
build_record_nonce-injective p q n i j hi hj a b =
    let (lp, ep) = guard-eq-ok (length p == 4) _ _ a in
    let (lq, eq) = guard-eq-ok (length q == 4) _ _ b in
    let e : p ++ big_uint64 i ≡ q ++ big_uint64 j = ok-injective ep ∙ sym (ok-injective eq) in
    let (four_p, four_q) : (4 ≡ length p) × (4 ≡ length q) = (ground arith, ground arith) in
    (
      sym (take-append_length 4 p _ four_p) ∙ ap (take 4) e ∙ take-append_length 4 q _ four_q,
      big_uint64-injective i j hi hj
          (sym (drop-append_length 4 p _ four_p) ∙ ap (drop 4) e ∙ drop-append_length 4 q _ four_q),
    )

-- With a lawful cipher, a record that was encrypted decrypts to its payload under the same key, nonce
-- and header bytes, an empty payload included.
pub decrypt_record-encrypt :
    (c : Subtle) (law : IsLawful c) (key nonce header payload cipher : List ℕ)
    → encrypt_record c key nonce header payload ≡ ok cipher
    → decrypt_record c key nonce header cipher ≡ ok payload
unfolding encrypt_record decrypt_record
decrypt_record-encrypt c law key nonce header payload cipher e = ground (
  arith,
  law.opens key nonce header payload cipher 128,
  law.expands key nonce header payload cipher 128,
)
