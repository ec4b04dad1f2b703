-- ===== src/Pcbk/ClearHeader/Keys.antt =====
-- The keys of a backup: what is authenticated verifies, and what is wrapped is unwrapped.
use private_communication.Common.{
  ℕ, ◌≡◌, ap, ◌==◌, true, List, length, ok, arith, >>=-eq-ok, guard-eq-ok,
}
use private_communication.Pcbk.Constants.{magic, format_version, flags}
use private_communication.Pcbk.Cbor.{Codec}
use private_communication.Pcbk.Preamble.{build_header_authentication_bytes}
use private_communication.Pcbk.Subtle.{Subtle, IsLawful, derive_subkey, import_key}
use private_communication.Pcbk.ClearHeader.{
  AadInput, ClearHeader, build_key_wrap_aad_header, authenticate_header,
  verify_header_authentication, wrap_content_key, unwrap_content_key,
}
use private_communication.Pcbk.ClearHeader.RoundTrip.{Describes, aad_header-agrees}

module _ (c : Subtle) (law : IsLawful c) where
  -- With lawful cryptography, the tag that authenticates a clear header verifies for the same root key,
  -- magic, version, flags and header bytes.
  pub verify-authenticate :
      (root_key magic_bytes : List ℕ) (version flag_bits : ℕ) (clear_header tag : List ℕ)
      → authenticate_header c root_key magic_bytes version flag_bits clear_header ≡ ok tag
      → verify_header_authentication c root_key magic_bytes version flag_bits clear_header tag
        ≡ ok true
  unfolding authenticate_header verify_header_authentication
  verify-authenticate root_key magic_bytes version flag_bits clear_header tag e =
      let (k, hk, e1) = >>=-eq-ok (derive_subkey c root_key "PCBK/1/header-auth" 32) _ e in
      let (m, hm, e2) =
        >>=-eq-ok (build_header_authentication_bytes magic_bytes version flag_bits clear_header) _
          e1 in
      ground (arith, law.signs k m, law.verifies k m)

  -- With lawful cryptography and any codec, a content key that was wrapped with the data of an input and
  -- its iv is unwrapped from any header that this input and the wrapped key describe.
  pub unwrap-wrap :
      (codec : Codec) (root_key content_key aad wrapped : List ℕ) (i : AadInput) (h : ClearHeader)
      → build_key_wrap_aad_header codec i ≡ ok aad
      → wrap_content_key c root_key content_key aad i.wrap_iv ≡ ok wrapped
      → Describes i wrapped h
      → unwrap_content_key c codec root_key h magic format_version flags ≡ ok content_key
  unfolding wrap_content_key unwrap_content_key
  unwrap-wrap codec root_key content_key aad wrapped i h built wrap d =
      let agrees = aad_header-agrees codec i wrapped aad h d built in
      let (_, w1) = guard-eq-ok (length i.wrap_iv == 12) _ _ wrap in
      let (_, w2) = guard-eq-ok (length content_key == 32) _ _ w1 in
      let (k, hk, w3) = >>=-eq-ok (derive_subkey c root_key "PCBK/1/key-wrap" 32) _ w2 in
      let (k', hk', w4) = >>=-eq-ok (import_key k) _ w3 in
      let (m, hm, w5) = >>=-eq-ok (build_header_authentication_bytes magic 1 0 aad) _ w4 in
      ground (
        arith,
        law.opens k' i.wrap_iv m content_key wrapped 128 w5,
        ap (λ v. c.decrypt k' v m 128 h.wrapped_content_key) d.iv,
        ap (λ x. c.decrypt k' i.wrap_iv m 128 x) d.wrapped,
      )
