-- ===== src/Tests/Restores.antt =====
-- A file of four records and one of two, restored.
use private_communication.Common.{
  ℕ, ◌≡◌, refl, String, false, some, List, [], ◌∷◌, ◌++◌, replicate, ok, err, Result, ◌==◌,
  if◌then◌else◌,
}
use private_communication.Pcbk.Value.{
  nat, num, str, bytes, arr, obj, null, Value, cons, nil, Fields, field, end, checks, get,
}
use private_communication.Pcbk.Cbor.{canonicalize, decode_cbor, encode_canonical_cbor}
use private_communication.Pcbk.Preamble.{
  parse_prelude, read_uint32_little_endian, encode_uint32_little_endian,
  build_header_authentication_bytes,
}
use private_communication.Pcbk.RecordHeader.{
  is_record_type, is_record_encoding, validate_record_header, decode_record_header,
}
use private_communication.Pcbk.Subtle.{derive_subkey, derive_root_key}
use private_communication.Pcbk.Record.{build_record_nonce, decrypt_record}
use private_communication.Pcbk.ClearHeader.{
  Mode, full, identity_only, input_fields, validate_mode, validate_clear_header,
  decode_clear_header, verify_header_authentication, unwrap_content_key,
  build_key_wrap_aad_header_from_clear_header,
}
use private_communication.Pcbk.Manifest.{
  validate_manifest_payload, assert_manifest_matches_expected, compare_object_entries,
  compare_entry, sort_entries, validate_object_entry, validate_object_list, validate_counts,
}
use private_communication.Pcbk.Manifest.Builder.{empty_counts}
use private_communication.Restore.Errors.{Thrown}
use private_communication.Restore.Objects.{
  MetaFormat, find_object, update_object, add_chunk, add_object, finalize_chunked_objects,
}
use private_communication.Restore.Records.{Formats, apply_record}
use private_communication.Restore.Loop.{
  Environment, Opened, ParsedBackup, open_backup, read_frame, read_record, read_records,
  finish_backup, restore_opened, parse_pcbk_backup_bytes,
}
use private_communication.Restore.Loop.Total.{parse_pcbk_backup_bytes-total}
use private_communication.Restore.Loop.Opening.{IsOpened, open_backup-IsOpened}
use private_communication.Restore.Loop.Restored.{IsRestored, parse_pcbk_backup_bytes-IsRestored}
use private_communication.Restore.Loop.Minimal.{IsMinimal, parse_pcbk_backup_bytes-IsMinimal}
use private_communication.Tests.Doubles.{subtle, by_code}
use private_communication.Tests.Headers.{input, header, wrapped}
use private_communication.Restore.Payloads.{is_nullable_string, is_nullable_kind}
use private_communication.Restore.Payloads.Files.{
  attachment_format, attachment_meta_record_payload_object, validate_attachment_meta_record_payload,
}
use private_communication.Restore.Payloads.Media.{media_format}
use private_communication.Tests.Payloads.{attachment}

open_restores : Unit {0}
unfolding checks get canonicalize decode_cbor encode_canonical_cbor parse_prelude
    read_uint32_little_endian encode_uint32_little_endian build_header_authentication_bytes
    is_record_type is_record_encoding validate_record_header decode_record_header derive_subkey
    derive_root_key build_record_nonce decrypt_record validate_mode validate_clear_header
    decode_clear_header verify_header_authentication unwrap_content_key
    build_key_wrap_aad_header_from_clear_header validate_manifest_payload
    assert_manifest_matches_expected compare_object_entries compare_entry sort_entries
    validate_object_entry validate_object_list validate_counts find_object update_object add_chunk
    add_object finalize_chunked_objects apply_record open_backup read_frame read_record read_records
    finish_backup restore_opened parse_pcbk_backup_bytes is_nullable_string is_nullable_kind
    validate_attachment_meta_record_payload
open_restores = tt

abbrev natural : ℕ → Value
natural n = num (nat n)

abbrev identity_header : Fields
identity_header = field "recordVersion" (natural 1) (
    field "type" (str "identity") (
      field "index" (natural 0) (
        field "encoding" (str "cbor")
          (field "plainLength" (natural 1) (field "cipherLength" (natural 17) end)))))

abbrev meta_header : Fields
meta_header = field "recordVersion" (natural 1) (
    field "type" (str "attachment-meta") (
      field "index" (natural 1) (
        field "encoding" (str "cbor") (
          field "plainLength" (natural 1)
            (field "cipherLength" (natural 17) (field "objectId" (str "photo") end))))))

abbrev chunk_header : Fields
chunk_header = field "recordVersion" (natural 1) (
    field "type" (str "attachment-chunk") (
      field "index" (natural 2) (
        field "encoding" (str "bytes") (
          field "plainLength" (natural 1) (
            field "cipherLength" (natural 17) (
              field "objectId" (str "photo")
                (field "chunkIndex" (natural 0) (field "chunkCount" (natural 1) end))))))))

abbrev manifest_header : Fields
manifest_header = field "recordVersion" (natural 1) (
    field "type" (str "manifest") (
      field "index" (natural 3) (
        field "encoding" (str "cbor")
          (field "plainLength" (natural 1) (field "cipherLength" (natural 17) end)))))

abbrev short_manifest_header : Fields
short_manifest_header = field "recordVersion" (natural 1) (
    field "type" (str "manifest") (
      field "index" (natural 1) (
        field "encoding" (str "cbor")
          (field "plainLength" (natural 1) (field "cipherLength" (natural 17) end)))))

abbrev manifest_fields : Fields
manifest_fields = field "mode" (str "full") (
    field "totalRecordCount" (natural 4) (
      field "createdAt" (natural 1700000000) (
        field "backupId" (bytes (replicate 16 1)) (
          field "counts"
            (obj (
              field "peerKeys" (natural 0) (
                field "messages" (natural 0) (
                  field "linkPreviews" (natural 0) (
                    field "outbox" (natural 0) (
                      field "attachments" (natural 1) (
                        field "attachmentChunks" (natural 1) (
                          field "transferQueue" (natural 0) (
                            field "transferQueueChunks" (natural 0) (
                              field "remoteMedia" (natural 0)
                                (field "remoteMediaChunks" (natural 0) end)))))))))))
            (field "objects"
              (obj (
                field "attachments"
                  (arr (
                    cons
                      (obj (
                        field "objectId" (str "photo")
                          (field "size" (natural 1) (field "chunkCount" (natural 1) end))))
                      nil))
                  (field "transferQueue" (arr nil) (field "remoteMedia" (arr nil) end))))
              end)))))

abbrev short_manifest_fields : Fields
short_manifest_fields = field "mode" (str "identity-only") (
    field "totalRecordCount" (natural 2) (
      field "createdAt" (natural 1700000000) (
        field "backupId" (bytes (replicate 16 1)) (
          field "counts"
            (obj (
              field "peerKeys" (natural 0) (
                field "messages" (natural 0) (
                  field "linkPreviews" (natural 0) (
                    field "outbox" (natural 0) (
                      field "attachments" (natural 0) (
                        field "attachmentChunks" (natural 0) (
                          field "transferQueue" (natural 0) (
                            field "transferQueueChunks" (natural 0) (
                              field "remoteMedia" (natural 0)
                                (field "remoteMediaChunks" (natural 0) end)))))))))))
            (field "objects"
              (obj (
                field "attachments" (arr (nil))
                  (field "transferQueue" (arr nil) (field "remoteMedia" (arr nil) end))))
              end)))))

-- Every encoded value of the two files is one byte, which names it.
abbrev decode : List ℕ → Result String Value
decode [] = err "empty"
decode (b ∷ _) =
    if b == 1
    then ok (obj (input_fields input wrapped))
    else if b == 2
    then ok (obj (input_fields (record input { mode = identity_only }) wrapped))
    else if b == 10
    then ok (obj identity_header)
    else if b == 11
    then ok (obj meta_header)
    else if b == 12
    then ok (obj chunk_header)
    else if b == 13
    then ok (obj manifest_header)
    else if b == 14
    then ok (obj short_manifest_header)
    else if b == 21
    then ok (attachment_meta_record_payload_object attachment)
    else if b == 23
    then ok (obj manifest_fields)
    else if b == 24
    then ok (obj short_manifest_fields)
    else ok null

abbrev env : Environment
env = record {
  codec = record { encode = λ _. bytes (0 ∷ []); decode = decode };
  cipher = subtle;
  locale_compare = by_code;
  aborted = λ _. false;
}

-- Most payloads are kept as they are. A queued transfer is always one chunk.
abbrev objects : MetaFormat
objects = record { Meta = ℕ; validate = λ _. ok 1; chunk_count = λ n. n }

abbrev formats : Formats
formats = record {
  Identity = Value;
  PeerKey = Value;
  Message = Value;
  LinkPreview = Value;
  Outbox = Value;
  validate_identity = λ v. ok v;
  validate_peer_key = λ v. ok v;
  validate_message = λ v. ok v;
  validate_link_preview = λ v. ok v;
  validate_outbox = λ v. ok v;
  attachment = attachment_format;
  transfer = objects;
  media = media_format;
}

-- A record whose header and payload are one byte each.
abbrev framed : ℕ → ℕ → List ℕ
framed h p = 1 ∷ 0 ∷ 0 ∷ 0 ∷ h ∷ p ∷ replicate 16 0

abbrev front : ℕ → List ℕ
front h = 80 ∷ 67 ∷ 66 ∷ 75 ∷ 1 ∷ 0 ∷ 1 ∷ 0 ∷ 0 ∷ 0 ∷ h ∷ replicate 32 5

abbrev file : List ℕ
file = front 1 ++ (framed 10 20 ++ (framed 11 21 ++ (framed 12 22 ++ framed 13 23)))

abbrev short_file : List ℕ
short_file = front 2 ++ (framed 10 20 ++ framed 14 24)

abbrev opened_with : ℕ → Mode → Opened
opened_with h mode = record {
  prelude = record {
    magic_bytes = 80 ∷ 67 ∷ 66 ∷ 75 ∷ [];
    version = 1;
    flag_bits = 0;
    clear_header_length = 1;
    clear_header_bytes = h ∷ [];
    header_auth_tag = replicate 32 5;
    prelude_length = 43;
  };
  clear_header = record header { mode = mode };
  content_key = replicate 32 5;
}

open_backup-IsOpened_example : IsOpened env file "pass" (opened_with 1 full)
unfolding open_restores
open_backup-IsOpened_example = open_backup-IsOpened env file "pass" (opened_with 1 full) refl

abbrev restored : ParsedBackup formats
restored = record {
  opened = opened_with 1 full;
  identity = null;
  peer_keys = [];
  messages = [];
  link_previews = [];
  outbox = [];
  attachments =
      record { object_id = "photo"; meta = attachment; chunks = (22 ∷ []) ∷ []; total_bytes = 1 }
      ∷ [];
  transfer_queue = [];
  remote_media = [];
  total_record_count = 4;
  manifest = record {
    summary = record {
      backup_id = replicate 16 1;
      mode = full;
      created_at = 1700000000;
      total_record_count = 4;
    };
    counts = record empty_counts { attachments = 1; attachment_chunks = 1 };
    objects = record {
      attachments = record { object_id = "photo"; chunk_count = 1; size = 1 } ∷ [];
      transfer_queue = [];
      remote_media = [];
    };
  };
}

abbrev restored_short : ParsedBackup formats
restored_short = record {
  opened = opened_with 2 identity_only;
  identity = null;
  peer_keys = [];
  messages = [];
  link_previews = [];
  outbox = [];
  attachments = [];
  transfer_queue = [];
  remote_media = [];
  total_record_count = 2;
  manifest = record {
    summary = record {
      backup_id = replicate 16 1;
      mode = identity_only;
      created_at = 1700000000;
      total_record_count = 2;
    };
    counts = empty_counts;
    objects = record { attachments = []; transfer_queue = []; remote_media = [] };
  };
}

parse_pcbk_backup_bytes-total_example :
    (r : Result Thrown (ParsedBackup formats)) × (parse_pcbk_backup_bytes formats env file "pass"
      ≡ some r)
parse_pcbk_backup_bytes-total_example = parse_pcbk_backup_bytes-total formats env file "pass"

parse_pcbk_backup_bytes-IsRestored_example : IsRestored formats env file "pass" restored
unfolding open_restores
parse_pcbk_backup_bytes-IsRestored_example =
    parse_pcbk_backup_bytes-IsRestored formats env file "pass" restored refl

parse_pcbk_backup_bytes-IsMinimal_example : IsMinimal formats restored_short
unfolding open_restores
parse_pcbk_backup_bytes-IsMinimal_example =
    parse_pcbk_backup_bytes-IsMinimal formats env short_file "pass" restored_short refl refl
