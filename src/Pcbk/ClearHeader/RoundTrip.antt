-- ===== src/Pcbk/ClearHeader/RoundTrip.antt =====
-- A clear header that is written reads back as it was given, and the reader rebuilds the data that
-- the key was wrapped with.
use private_communication.Common.{
  ℕ, ◌≤◌, ◌<◌, ◌≡◌, ◌∙◌, refl, subst, ◌≢◌, >>=-eq-ok, List, [], ◌∷◌, length, ok, some, arith,
}
use private_communication.Pcbk.Value.{
  Number, nat, Value, num, str, obj, Fields, get, max_safe_integer, is_positive_safe_integer,
  checks, is_text, is_nat, is_bytes, is_true,
}
use private_communication.Pcbk.Cbor.{
  Codec, RoundTrips, canonicalize, to_encoded_bytes, encode_canonical_cbor, decode_cbor,
}
use private_communication.Pcbk.Cbor.Reading.{canonical-record, leaves}
use private_communication.Pcbk.ClearHeader.{
  Mode, identity_only, full, mode_name, validate_mode, AadInput, ClearHeader, input_fields,
  aad_fields, kdf_fields, hkdf_fields, key_wrap_fields, record_cipher_fields, manifest_fields,
  build_clear_header_object, build_clear_header, build_key_wrap_aad_header,
  build_key_wrap_aad_header_from_clear_header, validate_kdf, validate_hkdf, validate_key_wrap,
  validate_record_cipher, validate_policy, validate_sections, validate_clear_header,
  decode_clear_header,
}

-- `n` is a positive safe integer.
abbrev IsSafe : Number → ℕ → Type 0
IsSafe n k = (n ≡ nat k) × (0 < k) × (k ≤ max_safe_integer)

-- The header `h` is the input with its numbers read as the validator wants them.
pub record Describes (i : AadInput) (key : List ℕ) (h : ClearHeader) : Type 0 where
  pub mode : h.mode ≡ i.mode
  pub created_at : IsSafe i.created_at h.created_at
  pub backup_id : h.backup_id ≡ i.backup_id
  pub salt : h.salt ≡ i.salt
  pub memory_kib : IsSafe i.kdf_profile.memory_kib h.memory_kib
  pub iterations : IsSafe i.kdf_profile.iterations h.iterations
  pub parallelism : IsSafe i.kdf_profile.parallelism h.parallelism
  pub hash_length : i.kdf_profile.hash_length ≡ nat 32
  pub iv : h.iv ≡ i.wrap_iv
  pub wrapped : h.wrapped_content_key ≡ key
  pub wrapped_length : length key ≡ 48
  pub nonce_prefix : h.nonce_prefix ≡ i.nonce_prefix

safe-read : (n : Number) (k : ℕ) → IsSafe n k → is_positive_safe_integer (num n) ≡ some k
unfolding checks
safe-read (nat n) k h = ground arith
safe-read _ k h = cc

module _ (salt : List ℕ) (m i p : Number) where
  kdf-read :
      (km ki kp : ℕ)
      → IsSafe m km
      → IsSafe i ki
      → IsSafe p kp
      → length salt ≡ 16
      → validate_kdf (canonicalize (obj (kdf_fields salt (num m) (num i) (num p) (num (nat 32)))))
        ≡ ok (record { salt = salt; memory_kib = km; iterations = ki; parallelism = kp })
  unfolding validate_kdf
  kdf-read km ki kp hm hi hp hs =
      rw (canonical-record (kdf_fields salt (num m) (num i) (num p) (num (nat 32))) refl) (
        unfold canonicalize get is_text is_nat is_bytes in
        rw (safe-read m km hm, safe-read i ki hi, safe-read p kp hp, hs))

hkdf-read : validate_hkdf (canonicalize (obj hkdf_fields)) ≡ ok tt
unfolding validate_hkdf
hkdf-read = rw (canonical-record hkdf_fields refl) (unfold canonicalize get is_text in refl)

key_wrap-read :
    (iv key : List ℕ)
    → length iv ≡ 12
    → length key ≡ 48
    → validate_key_wrap (canonicalize (obj (key_wrap_fields iv key))) ≡ ok (iv, key)
unfolding validate_key_wrap
key_wrap-read iv key hi hk =
    rw (canonical-record (key_wrap_fields iv key) refl)
      (unfold canonicalize get is_text is_bytes in rw (hi, hk))

record_cipher-read :
    (nonce_prefix : List ℕ)
    → length nonce_prefix ≡ 4
    → validate_record_cipher (canonicalize (obj (record_cipher_fields nonce_prefix)))
      ≡ ok nonce_prefix
unfolding validate_record_cipher
record_cipher-read nonce_prefix h =
    rw (canonical-record (record_cipher_fields nonce_prefix) refl)
      (unfold canonicalize get is_text is_nat is_bytes in rw h)

policy-read : validate_policy (canonicalize (obj manifest_fields)) ≡ ok tt
unfolding validate_policy
policy-read = rw (canonical-record manifest_fields refl) (unfold canonicalize get is_true in refl)

mode-read : (m : Mode) → validate_mode (str (mode_name m)) ≡ some m
unfolding validate_mode
mode-read identity_only = refl
mode-read full = refl

-- The lengths that the writer checks.
record IsChecked (i : AadInput) : Type 0 where
  backup_id : length i.backup_id ≡ 16
  salt : length i.salt ≡ 16
  iv : length i.wrap_iv ≡ 12
  nonce_prefix : length i.nonce_prefix ≡ 4

object-IsChecked :
    (i : AadInput) (key : List ℕ) {fs : Fields}
    → build_clear_header_object i key ≡ ok fs
    → IsChecked i × (fs ≡ input_fields i key)
unfolding build_clear_header_object
object-IsChecked i key e = ground arith

-- Without the wrapped key, both sides write the same object.
fields-agree :
    (i : AadInput) (key : List ℕ) (h : ClearHeader)
    → Describes i key h
    → input_fields i [] ≡ aad_fields h
fields-agree i key h d = ground arith

nonempty_lem :
    (codec : Codec) (b : List ℕ) (v : Value)
    → b ≢ []
    → codec.decode b ≡ ok v
    → decode_clear_header codec b ≡ validate_clear_header v
unfolding decode_clear_header decode_cbor
nonempty_lem codec [] v n e = absurd (n refl)
nonempty_lem codec (x ∷ b) v n e = rw e

sections-read :
    (i : AadInput) (key : List ℕ) (h : ClearHeader)
    → IsChecked i
    → Describes i key h
    → validate_clear_header (canonicalize (obj (input_fields i key))) ≡ ok h
unfolding validate_clear_header validate_sections
sections-read i key h c d = rw (canonical-record (input_fields i key) refl) (
    unfold get in
    simp
      (
        leaves,
        mode-read,
        d.hash_length,
        safe-read i.created_at h.created_at d.created_at,
        kdf-read i.salt i.kdf_profile.memory_kib i.kdf_profile.iterations i.kdf_profile.parallelism
            h.memory_kib h.iterations h.parallelism d.memory_kib d.iterations d.parallelism c.salt,
        hkdf-read,
        key_wrap-read i.wrap_iv key c.iv d.wrapped_length,
        record_cipher-read i.nonce_prefix c.nonce_prefix,
        policy-read,
      )
      (unfold is_nat is_bytes in
        rw c.backup_id
          (ground (arith, d.mode, d.backup_id, d.salt, d.iv, d.wrapped, d.nonce_prefix))))

-- For a codec that decodes what it encoded for this header: a clear header that was built from an
-- input reads back as the header `h` that the input describes, one whose numbers are positive safe
-- integers, whose hash length is 32 and whose wrapped key has 48 bytes.
pub decode_clear_header-build :
    (codec : Codec) (i : AadInput) (key b : List ℕ) (h : ClearHeader)
    → RoundTrips codec (canonicalize (obj (input_fields i key)))
    → Describes i key h
    → build_clear_header codec i key ≡ ok b
    → decode_clear_header codec b ≡ ok h
unfolding build_clear_header decode_clear_header encode_canonical_cbor decode_cbor
decode_clear_header-build codec i key b h law d e =
    let (fs, built, encoded) = >>=-eq-ok (build_clear_header_object i key) _ e in
    let (checked, shape) = object-IsChecked i key built in
    let (nonempty, decoded) =
      law b (
        subst (λ f. to_encoded_bytes (codec.encode (canonicalize (obj f))) ≡ ok b) shape encoded) in
    nonempty_lem codec b (canonicalize (obj (input_fields i key))) nonempty decoded
    ∙ sections-read i key h checked d

-- The additional data that the content key is wrapped with, built from the writer's input, is what the
-- reader builds from any header that this input describes, for every codec.
pub aad_header-agrees :
    (codec : Codec) (i : AadInput) (key aad : List ℕ) (h : ClearHeader)
    → Describes i key h
    → build_key_wrap_aad_header codec i ≡ ok aad
    → build_key_wrap_aad_header_from_clear_header codec h ≡ ok aad
unfolding build_key_wrap_aad_header build_key_wrap_aad_header_from_clear_header
aad_header-agrees codec i key aad h d e =
    let (fs, built, encoded) = >>=-eq-ok (build_clear_header_object i []) _ e in
    let shape : fs ≡ aad_fields h = (object-IsChecked i [] built).1 ∙ fields-agree i key h d in
    subst (λ f. encode_canonical_cbor codec (obj f) ≡ ok aad) shape encoded
