-- ===== src/Restore/Loop.antt =====
-- parsePcbkBackupBytes of frontend/src/services/backup/restore/pipeline.ts, inside its `try`. The
-- progress callback only observes and is left out. The loop takes fuel; `none` means that it ran out.
pub mod Total
pub mod Opening
pub mod Reading
pub mod Run
pub mod Restored
pub mod Minimal
use private_communication.Common.{
  ℕ, zero, suc, ◌+◌, String, ℤ, Bool, true, false, not, Option, none, some, List, length, slice,
  ltb, leb, ◌==◌, Result, ok, err, ◌>>=◌, ◌>>◌, guard, expect, map,
}
use private_communication.Pcbk.Value.{Value, null, nat}
use private_communication.Pcbk.Constants.{root_key_bytes}
use private_communication.Pcbk.Cbor.{Codec}
use private_communication.Pcbk.Preamble.{ParsedPrelude, parse_prelude, read_uint32_little_endian}
use private_communication.Pcbk.RecordHeader.{
  RecordHeader, RecordType, manifest, decode_record_header,
}
use private_communication.Pcbk.Subtle.{Subtle, derive_root_key}
use private_communication.Pcbk.Record.{build_record_nonce, decrypt_record}
use private_communication.Pcbk.ClearHeader.{
  Mode, ClearHeader, decode_clear_header, verify_header_authentication, unwrap_content_key,
}
use private_communication.Pcbk.Manifest.{
  ObjectEntry, ManifestCounts, ManifestPayload, validate_manifest_payload,
  assert_manifest_matches_expected,
}
use private_communication.Restore.Errors.{
  Thrown, restore, restore_canceled, malformed_backup, wrong_passphrase, corrupted_backup, Stage,
  parsing_prelude, deriving_root_key, authenticating_header, unwrapping_content_key,
  decrypting_records, malformed, lift, rethrow,
}
use private_communication.Restore.Objects.{MetaFormat, ParsedObject, finalize_chunked_objects}
use private_communication.Restore.Records.{Formats, Contents, no_contents, apply_record}

-- What the parser calls, and the abort signal: `aborted n` is what its n-th look at it finds.
pub record Environment : Type 0 where
  pub codec : Codec
  pub cipher : Subtle
  pub locale_compare : String → String → ℤ
  pub aborted : ℕ → Bool

-- RECORD_AUTH_TAG_BYTES
abbrev pub record_auth_tag_bytes : ℕ
record_auth_tag_bytes = 16

-- assertNotAborted
abbrev pub assert_not_aborted : Environment → ℕ → Stage → Result Thrown (Unit {0})
assert_not_aborted env n stage =
    guard (not (env.aborted n)) (restore restore_canceled "Backup restore was canceled." stage)

-- An opened backup: its prelude, its clear header and the content key.
pub record Opened : Type 0 where
  pub prelude : ParsedPrelude
  pub clear_header : ClearHeader
  pub content_key : List ℕ

-- The part in front of the loop.
unfoldable pub open_backup :
    Environment → (file : List ℕ) → (passphrase : String) → Result Thrown Opened
open_backup env file passphrase = do
  assert_not_aborted env 0 parsing_prelude
  prelude ← lift (parse_prelude file)
  header ← lift (decode_clear_header env.codec prelude.clear_header_bytes)
  assert_not_aborted env 1 deriving_root_key
  root_key ← lift (
      derive_root_key env.cipher passphrase header.salt (nat header.memory_kib)
        (nat header.iterations) (nat header.parallelism) (nat root_key_bytes))
  assert_not_aborted env 2 authenticating_header
  verified ← lift (
      verify_header_authentication env.cipher root_key prelude.magic_bytes prelude.version
        prelude.flag_bits prelude.clear_header_bytes prelude.header_auth_tag)
  guard verified (restore wrong_passphrase "Could not restore backup." authenticating_header)
  assert_not_aborted env 3 unwrapping_content_key
  content_key ← lift (
      unwrap_content_key env.cipher env.codec root_key header prelude.magic_bytes prelude.version
        prelude.flag_bits)
  ok (record { prelude = prelude; clear_header = header; content_key = content_key })

abbrev pub is_manifest : RecordType → Bool
is_manifest manifest = true
is_manifest _ = false

-- A record whose frame, header and payload passed the checks in front of the `switch`.
pub record Frame : Type 0 where
  pub header : RecordHeader
  pub payload : List ℕ
  pub cipher_end : ℕ

-- The payload of a record: from the nonce to the check of its length.
pub decrypt_payload :
    Environment
    → Opened
    → RecordHeader
    → (header_bytes ciphertext : List ℕ) → Result Thrown (List ℕ)
decrypt_payload env o h header_bytes ciphertext = do
  nonce ← lift (build_record_nonce o.clear_header.nonce_prefix (nat h.index))
  payload ←
      rethrow (restore corrupted_backup "Record decryption failed." decrypting_records)
        (decrypt_record env.cipher o.content_key nonce header_bytes ciphertext)
  guard (length payload == h.plain_length)
      (malformed "Backup record plainLength does not match decrypted payload.")
  ok payload

-- The first part of the loop's body, at an offset and with the index that is due.
unfoldable pub read_frame :
    Environment → Opened → (file : List ℕ) → (offset due : ℕ) → Result Thrown Frame
unfolding decrypt_payload
read_frame env o file offset due = do
  header_length ← lift (read_uint32_little_endian file offset)
  let header_start = offset + 4
  let header_end = header_start + header_length
  let header_bytes = slice file header_start header_end
  guard (leb header_end (length file)) (malformed "Backup record header exceeds file length.")
  h ← lift (decode_record_header env.codec header_bytes)
  guard (h.index == due) (malformed "Backup record indices are out of order.")
  guard (h.cipher_length == h.plain_length + record_auth_tag_bytes)
      (malformed "Backup record cipherLength is inconsistent with plainLength.")
  let cipher_end = header_end + h.cipher_length
  guard (leb cipher_end (length file)) (malformed "Backup record ciphertext exceeds file length.")
  payload ← decrypt_payload env o h header_bytes (slice file header_end cipher_end)
  ok (record { header = h; payload = payload; cipher_end = cipher_end })

module _ (F : Formats) where
  -- The loop's variables.
  pub record State : Type 0 where
    pub contents : Contents F
    pub offset : ℕ
    pub expected_record_index : ℕ
    pub total_record_count : ℕ

  -- The loop goes on after a record, or ends with the manifest.
  pub data Outcome : Type 0 where
    next : State → Outcome
    final : State → Outcome

  -- The loop's body.
  unfoldable pub read_record :
      Environment → Opened → (file : List ℕ) → State → Result Thrown Outcome
  read_record env o file s = do
    assert_not_aborted env (4 + s.total_record_count) decrypting_records
    f ← read_frame env o file s.offset s.expected_record_index
    contents ←
        apply_record F env.codec o.clear_header.mode f.header f.payload
          (f.cipher_end == length file) s.contents
    let after : State = record {
      contents = contents;
      offset = f.cipher_end;
      expected_record_index = s.expected_record_index + 1;
      total_record_count = s.total_record_count + 1;
    }
    ok (elim (is_manifest f.header.type) [ true ↦ final after | false ↦ next after ])

  -- The `while` loop.
  unfoldable pub read_records :
      (fuel : ℕ) → Environment → Opened → (file : List ℕ) → State → Option (Result Thrown State)
  read_records zero env o file s = elim (ltb s.offset (length file)) [
    | true ↦ none
    | false ↦ some (ok s)
  ]
  read_records (suc n) env o file s = elim (ltb s.offset (length file)) [
    | false ↦ some (ok s)
    | true ↦ elim (read_record env o file s) [
      | err t ↦ some (err t)
      | ok (next after) ↦ read_records n env o file after
      | ok (final after) ↦ some (ok after)
    ]
  ]

  abbrev pub start : Opened → State
  start o = record {
    contents = no_contents F;
    offset = o.prelude.prelude_length;
    expected_record_index = 0;
    total_record_count = 0;
  }

  -- ParsedPcbkBackup. An identity record's payload holds the identity and nothing else.
  pub record ParsedBackup : Type 0 where
    pub opened : Opened
    pub identity : F.Identity
    pub peer_keys : List F.PeerKey
    pub messages : List F.Message
    pub link_previews : List F.LinkPreview
    pub outbox : List F.Outbox
    pub attachments : List (ParsedObject F.attachment.Meta)
    pub transfer_queue : List (ParsedObject F.transfer.Meta)
    pub remote_media : List (ParsedObject F.media.Meta)
    pub total_record_count : ℕ
    pub manifest : ManifestPayload

abbrev is_null : Value → Bool
is_null null = true
is_null _ = false

module _ {M : Type 0} (chunk_count : M → ℕ) where
  -- The entry of buildExpectedManifest for a finished object.
  abbrev pub entry_of : ParsedObject M → ObjectEntry
  entry_of p = record {
    object_id = p.object_id;
    chunk_count = chunk_count p.meta;
    size = p.total_bytes;
  }

  abbrev pub entries_of : List (ParsedObject M) → List ObjectEntry
  entries_of ps = map entry_of ps

module _ (F : Formats) where
  -- buildExpectedManifest
  abbrev pub build_expected_manifest :
      ClearHeader
      → (total : ℕ) → ManifestCounts
      → List (ParsedObject F.attachment.Meta)
      → List (ParsedObject F.transfer.Meta)
      → List (ParsedObject F.media.Meta)
      → ManifestPayload
  build_expected_manifest h total counts attachments transfer_queue remote_media = record {
    summary = record {
      backup_id = h.backup_id;
      mode = h.mode;
      created_at = h.created_at;
      total_record_count = total;
    };
    counts = counts;
    objects = record {
      attachments = entries_of F.attachment.chunk_count attachments;
      transfer_queue = entries_of F.transfer.chunk_count transfer_queue;
      remote_media = entries_of F.media.chunk_count remote_media;
    };
  }

  -- The part behind the loop.
  unfoldable pub finish_backup : Environment → Opened → State F → Result Thrown (ParsedBackup F)
  finish_backup env o s = do
    identity ← expect s.contents.owner (malformed "Backup is missing identity record.")
    guard (not (is_null s.contents.manifest_value)) (malformed "Backup is missing manifest record.")
    attachments ← finalize_chunked_objects s.contents.attachments
    transfer_queue ← finalize_chunked_objects s.contents.transfer_queue
    remote_media ← finalize_chunked_objects s.contents.remote_media
    let expected =
        build_expected_manifest o.clear_header s.total_record_count s.contents.counts attachments
          transfer_queue remote_media
    found ← lift (validate_manifest_payload s.contents.manifest_value expected.summary)
    checked ← lift (assert_manifest_matches_expected env.locale_compare found expected)
    ok (record {
      opened = o;
      identity = identity;
      peer_keys = s.contents.peer_keys;
      messages = s.contents.messages;
      link_previews = s.contents.link_previews;
      outbox = s.contents.outbox;
      attachments = attachments;
      transfer_queue = transfer_queue;
      remote_media = remote_media;
      total_record_count = s.total_record_count;
      manifest = checked;
    })

  -- The loop and what follows it. Every record takes at least four bytes, so the file's length is fuel
  -- enough.
  unfoldable pub restore_opened :
      Environment → (file : List ℕ) → Opened → Option (Result Thrown (ParsedBackup F))
  restore_opened env file o = elim (read_records F (length file) env o file (start F o)) [
    | none ↦ none
    | some (err t) ↦ some (err t)
    | some (ok s) ↦ some (finish_backup env o s)
  ]

  -- parsePcbkBackupBytes
  unfoldable pub parse_pcbk_backup_bytes :
      Environment
      → (file : List ℕ) → (passphrase : String) → Option (Result Thrown (ParsedBackup F))
  parse_pcbk_backup_bytes env file passphrase = elim (open_backup env file passphrase) [
    | err t ↦ some (err t)
    | ok o ↦ restore_opened env file o
  ]
