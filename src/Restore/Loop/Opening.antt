-- ===== src/Restore/Loop/Opening.antt =====
-- What holds of a backup that was opened.
use private_communication.Common.{
  ℕ, ◌≡◌, String, not, true, List, ok, subst, >>=-eq-ok, guard-eq-ok, ok-injective,
}
use private_communication.Pcbk.Constants.{root_key_bytes}
use private_communication.Pcbk.Value.{nat}
use private_communication.Pcbk.Preamble.{parse_prelude}
use private_communication.Pcbk.Subtle.{derive_root_key}
use private_communication.Pcbk.ClearHeader.{
  decode_clear_header, verify_header_authentication, unwrap_content_key,
}
use private_communication.Restore.Errors.{lift, lift-eq-ok}
use private_communication.Restore.Loop.{Environment, Opened, open_backup}

-- The prelude and the header stand in the file; a root key that comes from the passphrase verifies the
-- header's tag and opens the content key.
pub record IsOpened (env : Environment) (file : List ℕ) (passphrase : String) (o : Opened)
    : Type 0 where
  pub parsed : parse_prelude file ≡ ok o.prelude
  pub decoded : decode_clear_header env.codec o.prelude.clear_header_bytes ≡ ok o.clear_header
  pub root_key : List ℕ
  pub derived :
      derive_root_key env.cipher passphrase o.clear_header.salt
        (nat o.clear_header.memory_kib)
        (nat o.clear_header.iterations)
        (nat o.clear_header.parallelism)
        (nat root_key_bytes)
      ≡ ok root_key
  pub verified :
      verify_header_authentication env.cipher root_key o.prelude.magic_bytes o.prelude.version
        o.prelude.flag_bits o.prelude.clear_header_bytes o.prelude.header_auth_tag
      ≡ ok true
  pub unwrapped :
      unwrap_content_key env.cipher env.codec root_key o.clear_header o.prelude.magic_bytes
        o.prelude.version o.prelude.flag_bits
      ≡ ok o.content_key

-- A backup that is opened has the prelude that its file starts with and the header that stands there;
-- the root key derived from the passphrase verifies the header's tag and unwraps the content key.
pub open_backup-IsOpened :
    (env : Environment) (file : List ℕ) (passphrase : String) (o : Opened)
    → open_backup env file passphrase ≡ ok o
    → IsOpened env file passphrase o
unfolding open_backup
open_backup-IsOpened env file passphrase o e =
    let (_, e1) = guard-eq-ok (not (env.aborted 0)) _ _ e in
    let (p, parsed, e2) = >>=-eq-ok (lift (parse_prelude file)) _ e1 in
    let (h, decoded, e3) =
      >>=-eq-ok (lift (decode_clear_header env.codec p.clear_header_bytes)) _ e2 in
    let (_, e4) = guard-eq-ok (not (env.aborted 1)) _ _ e3 in
    let (k, derived, e5) =
      >>=-eq-ok
        (lift (
          derive_root_key env.cipher passphrase h.salt (nat h.memory_kib) (nat h.iterations)
            (nat h.parallelism) (nat root_key_bytes)))
        _ e4 in
    let (_, e6) = guard-eq-ok (not (env.aborted 2)) _ _ e5 in
    let (v, verified, e7) =
      >>=-eq-ok
        (lift (
          verify_header_authentication env.cipher k p.magic_bytes p.version p.flag_bits
            p.clear_header_bytes p.header_auth_tag))
        _ e6 in
    let (accepted, e8) = guard-eq-ok v _ _ e7 in
    let (_, e9) = guard-eq-ok (not (env.aborted 3)) _ _ e8 in
    let (content_key, unwrapped, e10) =
      >>=-eq-ok
        (lift (unwrap_content_key env.cipher env.codec k h p.magic_bytes p.version p.flag_bits)) _
        e9 in
    subst (IsOpened env file passphrase) (ok-injective e10) (record {
      parsed = lift-eq-ok _ parsed;
      decoded = lift-eq-ok _ decoded;
      root_key = k;
      derived = lift-eq-ok _ derived;
      verified =
          subst
            (λ b.
              verify_header_authentication env.cipher k p.magic_bytes p.version p.flag_bits
                p.clear_header_bytes p.header_auth_tag
              ≡ ok b)
            accepted (lift-eq-ok _ verified);
      unwrapped = lift-eq-ok _ unwrapped;
    })
