-- ===== src/Restore/Records.antt =====
-- One decrypted record: the `switch` of parsePcbkBackupBytes, the checks in front of it, and
-- validateBatchPayload of frontend/src/services/backup/restore/validators.ts. The validators of the
-- payloads are a parameter: what is stated holds for any.
pub mod Tallied
use private_communication.Common.{
  ℕ, ◌+◌, String, Bool, true, false, not, ◌&&◌, ◌||◌, Option, none, some, List, [], ◌∷◌, ◌++◌,
  length, Result, ok, err, ◌>>=◌, ◌>>◌, guard, expect, traverse,
}
use private_communication.Pcbk.Value.{Value, null, is_cbor_record, is_array}
use private_communication.Pcbk.Cbor.{Codec, decode_cbor}
use private_communication.Pcbk.RecordHeader.{
  RecordHeader, RecordType, identity, peer_keys_batch, messages_batch, link_previews_batch,
  outbox_batch, attachment_meta, attachment_chunk, transfer_queue_meta, transfer_queue_chunk,
  remote_media_meta, remote_media_chunk, manifest, Encoding, cbor, bytes,
}
use private_communication.Pcbk.ClearHeader.{Mode, identity_only, full}
use private_communication.Pcbk.Manifest.{ManifestCounts}
use private_communication.Pcbk.Manifest.Builder.{empty_counts}
use private_communication.Restore.Errors.{Thrown, malformed, plain, lift}
use private_communication.Restore.Objects.{MetaFormat, ChunkedObject, add_object, add_chunk}

-- The payloads and their validators.
pub record Formats : Type 1 where
  pub Identity : Type 0
  pub PeerKey : Type 0
  pub Message : Type 0
  pub LinkPreview : Type 0
  pub Outbox : Type 0
  pub validate_identity : Value → Result String Identity
  pub validate_peer_key : Value → Result String PeerKey
  pub validate_message : Value → Result String Message
  pub validate_link_preview : Value → Result String LinkPreview
  pub validate_outbox : Value → Result String Outbox
  pub attachment : MetaFormat
  pub transfer : MetaFormat
  pub media : MetaFormat

module _ (F : Formats) where
  -- The local variables of the loop, less its position in the file.
  pub record Contents : Type 0 where
    pub owner : Option F.Identity
    pub peer_keys : List F.PeerKey
    pub messages : List F.Message
    pub link_previews : List F.LinkPreview
    pub outbox : List F.Outbox
    pub attachments : List (ChunkedObject F.attachment.Meta)
    pub transfer_queue : List (ChunkedObject F.transfer.Meta)
    pub remote_media : List (ChunkedObject F.media.Meta)
    pub counts : ManifestCounts
    pub manifest_value : Value

  abbrev pub no_contents : Contents
  no_contents = record {
    owner = none;
    peer_keys = [];
    messages = [];
    link_previews = [];
    outbox = [];
    attachments = [];
    transfer_queue = [];
    remote_media = [];
    counts = empty_counts;
    manifest_value = null;
  }

abbrev encoding_eq : Encoding → Encoding → Bool
encoding_eq cbor cbor = true
encoding_eq bytes bytes = true
encoding_eq _ _ = false

-- expectRecordEncoding
abbrev pub expect_record_encoding : Encoding → Encoding → Result Thrown (Unit {0})
expect_record_encoding actual expected =
    guard (encoding_eq actual expected) (malformed "the record type must use another encoding.")

-- The types that an identity-only backup may hold.
abbrev pub is_minimal : RecordType → Bool
is_minimal identity = true
is_minimal manifest = true
is_minimal _ = false

-- assertRecordAllowedInMode
abbrev pub assert_record_allowed_in_mode : Mode → RecordType → Result Thrown (Unit {0})
assert_record_allowed_in_mode identity_only type =
    guard (is_minimal type) (malformed "the record type is not allowed in identity-only backups.")
assert_record_allowed_in_mode full type = ok tt

-- validateBatchPayload
abbrev pub validate_batch_payload {ℓ} :
    {A : Type ℓ} → Value → (Value → Result String A) → Result String (List A)
validate_batch_payload v validate = do
  value ← expect (is_cbor_record v) "payload must be an object"
  items ← expect (is_array (value "items")) "payload items must be an array"
  traverse validate items

-- What a `…-batch` record holds.
abbrev pub batch {ℓ} :
    {A : Type ℓ} → Codec → (Value → Result String A) → Encoding → List ℕ → Result Thrown (List A)
batch codec validate encoding payload = do
  expect_record_encoding encoding cbor
  value ← lift (decode_cbor codec payload)
  lift (validate_batch_payload value validate)

module _ (F : Formats) (codec : Codec) where
  abbrev read_identity : RecordHeader → List ℕ → Option F.Identity → Result Thrown F.Identity
  read_identity h payload (some _) =
      expect_record_encoding h.encoding cbor
      >> err (malformed "Backup contains more than one identity record.")
  read_identity h payload none = do
    expect_record_encoding h.encoding cbor
    value ← lift (decode_cbor codec payload)
    lift (F.validate_identity value)

  -- The `switch`. `last` says that the record's ciphertext ends the file.
  pub apply_type :
      RecordType
      → RecordHeader
      → (payload : List ℕ) → (last : Bool) → Contents F
      → Result Thrown (Contents F)
  apply_type identity h payload last s = do
    owner ← read_identity h payload s.owner
    ok (record s { owner = some owner })
  apply_type peer_keys_batch h payload last s = do
    items ← batch codec F.validate_peer_key h.encoding payload
    ok (record s {
      peer_keys = s.peer_keys ++ items;
      counts = record (s.counts) { peer_keys = s.counts.peer_keys + length items };
    })
  apply_type messages_batch h payload last s = do
    items ← batch codec F.validate_message h.encoding payload
    ok (record s {
      messages = s.messages ++ items;
      counts = record (s.counts) { messages = s.counts.messages + length items };
    })
  apply_type link_previews_batch h payload last s = do
    items ← batch codec F.validate_link_preview h.encoding payload
    ok (record s {
      link_previews = s.link_previews ++ items;
      counts = record (s.counts) { link_previews = s.counts.link_previews + length items };
    })
  apply_type outbox_batch h payload last s = do
    items ← batch codec F.validate_outbox h.encoding payload
    ok (record s {
      outbox = s.outbox ++ items;
      counts = record (s.counts) { outbox = s.counts.outbox + length items };
    })
  apply_type attachment_meta h payload last s = do
    expect_record_encoding h.encoding cbor
    objects ← add_object F.attachment h (decode_cbor codec payload) s.attachments
    ok (record s {
      attachments = objects;
      counts = record (s.counts) { attachments = s.counts.attachments + 1 };
    })
  apply_type attachment_chunk h payload last s = do
    expect_record_encoding h.encoding bytes
    objects ← add_chunk F.attachment.chunk_count h payload s.attachments
    ok (record s {
      attachments = objects;
      counts = record (s.counts) { attachment_chunks = s.counts.attachment_chunks + 1 };
    })
  apply_type transfer_queue_meta h payload last s = do
    expect_record_encoding h.encoding cbor
    objects ← add_object F.transfer h (decode_cbor codec payload) s.transfer_queue
    ok (record s {
      transfer_queue = objects;
      counts = record (s.counts) { transfer_queue = s.counts.transfer_queue + 1 };
    })
  apply_type transfer_queue_chunk h payload last s = do
    expect_record_encoding h.encoding bytes
    objects ← add_chunk F.transfer.chunk_count h payload s.transfer_queue
    ok (record s {
      transfer_queue = objects;
      counts = record (s.counts) { transfer_queue_chunks = s.counts.transfer_queue_chunks + 1 };
    })
  apply_type remote_media_meta h payload last s = do
    expect_record_encoding h.encoding cbor
    objects ← add_object F.media h (decode_cbor codec payload) s.remote_media
    ok (record s {
      remote_media = objects;
      counts = record (s.counts) { remote_media = s.counts.remote_media + 1 };
    })
  apply_type remote_media_chunk h payload last s = do
    expect_record_encoding h.encoding bytes
    objects ← add_chunk F.media.chunk_count h payload s.remote_media
    ok (record s {
      remote_media = objects;
      counts = record (s.counts) { remote_media_chunks = s.counts.remote_media_chunks + 1 };
    })
  apply_type manifest h payload last s = do
    expect_record_encoding h.encoding cbor
    guard last (malformed "Manifest record must be final.")
    value ← lift (decode_cbor codec payload)
    ok (record s { manifest_value = value })

  -- From the check of the mode on.
  unfoldable pub apply_record :
      Mode
      → RecordHeader
      → (payload : List ℕ) → (last : Bool) → Contents F
      → Result Thrown (Contents F)
  unfolding apply_type
  apply_record mode h payload last s =
      assert_record_allowed_in_mode mode h.type >> apply_type h.type h payload last s
