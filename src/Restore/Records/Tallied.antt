-- ===== src/Restore/Records/Tallied.antt =====
-- What the records that were taken so far leave behind.
use private_communication.Common.{
  ℕ, ◌+◌, ◌≡◌, refl, sym, ◌∙◌, Bool, true, List, [], length, length-append, ok, ◌>>=◌, All, arith,
  >>=-eq-ok, guard-eq-ok, ok-injective, ◌>>◌,
}
use private_communication.Pcbk.Cbor.{Codec, decode_cbor}
use private_communication.Pcbk.RecordHeader.{
  RecordHeader, RecordType, identity, peer_keys_batch, messages_batch, link_previews_batch,
  outbox_batch, attachment_meta, attachment_chunk, transfer_queue_meta, transfer_queue_chunk,
  remote_media_meta, remote_media_chunk, manifest, cbor, bytes,
}
use private_communication.Pcbk.RecordHeader.Accepted.{IsPlaced}
use private_communication.Pcbk.ClearHeader.{Mode, identity_only}
use private_communication.Restore.Errors.{lift}
use private_communication.Restore.Objects.{MetaFormat, ChunkedObject, add_object, add_chunk}
use private_communication.Restore.Objects.Filled.{
  IsFilling, arrived_total, add_chunk-IsFilling, add_object-IsFilling,
}
use private_communication.Restore.Records.{
  Formats, Contents, no_contents, batch, read_identity, apply_type, apply_record, is_minimal,
  expect_record_encoding, encoding_eq, assert_record_allowed_in_mode,
}

module _ {M : Type 0} (chunk_count : M → ℕ) where
  -- A map of objects against the two numbers that are counted for it.
  pub record IsMapTallied (os : List (ChunkedObject M)) (objects chunks : ℕ) : Type 0 where
    pub filling : All (IsFilling chunk_count) os
    pub objects_eq : objects ≡ length os
    pub chunks_eq : chunks ≡ arrived_total os

module _ (F : Formats) where
  -- The counts are those of the contents, and every object has room for the chunks that it announced.
  pub record IsTallied (s : Contents F) : Type 0 where
    pub peer_keys : s.counts.peer_keys ≡ length s.peer_keys
    pub messages : s.counts.messages ≡ length s.messages
    pub link_previews : s.counts.link_previews ≡ length s.link_previews
    pub outbox : s.counts.outbox ≡ length s.outbox
    pub attachments :
        IsMapTallied F.attachment.chunk_count s.attachments s.counts.attachments
          s.counts.attachment_chunks
    pub transfer_queue :
        IsMapTallied F.transfer.chunk_count s.transfer_queue s.counts.transfer_queue
          s.counts.transfer_queue_chunks
    pub remote_media :
        IsMapTallied F.media.chunk_count s.remote_media s.counts.remote_media
          s.counts.remote_media_chunks

  -- Contents that an identity-only backup may have.
  pub record IsBare (s : Contents F) : Type 0 where
    pub peer_keys : s.peer_keys ≡ []
    pub messages : s.messages ≡ []
    pub link_previews : s.link_previews ≡ []
    pub outbox : s.outbox ≡ []
    pub attachments : s.attachments ≡ []
    pub transfer_queue : s.transfer_queue ≡ []
    pub remote_media : s.remote_media ≡ []

  pub no_contents-IsTallied : IsTallied (no_contents F)
  no_contents-IsTallied = record {
    peer_keys = refl;
    messages = refl;
    link_previews = refl;
    outbox = refl;
    attachments = record { filling = tt; objects_eq = refl; chunks_eq = refl };
    transfer_queue = record { filling = tt; objects_eq = refl; chunks_eq = refl };
    remote_media = record { filling = tt; objects_eq = refl; chunks_eq = refl };
  }

module _ (F : Formats) {M : Type 0} (chunk_count : M → ℕ) where
  -- A `…-chunk` case that returns: `k` is what it does with the objects.
  chunk-step :
      (h : RecordHeader) (payload : List ℕ) (os : List (ChunkedObject M)) (objects chunks : ℕ)
      (k : List (ChunkedObject M) → Contents F) {after : Contents F}
      → IsPlaced h.object_id h.chunk_index h.chunk_count
      → IsMapTallied chunk_count os objects chunks
      → (expect_record_encoding h.encoding bytes
          >> (add_chunk chunk_count h payload os >>= λ new. ok (k new)))
        ≡ ok after
      → (new : List (ChunkedObject M)) × IsMapTallied chunk_count new objects (chunks + 1)
        × (k new ≡ after)
  chunk-step h payload os objects chunks k p t e =
      let (_, e1) = guard-eq-ok (encoding_eq h.encoding bytes) _ _ e in
      let (new, made, e2) = >>=-eq-ok (add_chunk chunk_count h payload os) _ e1 in
      let f = add_chunk-IsFilling chunk_count h payload os new p t.filling made in
      (
        new,
        record {
          filling = f.0;
          objects_eq = t.objects_eq ∙ sym f.2;
          chunks_eq = omega (arith, t.chunks_eq, f.1);
        },
        ok-injective e2,
      )

module _ (F : Formats) (codec : Codec) where
  -- A `…-meta` case that returns.
  object-step :
      (G : MetaFormat) (h : RecordHeader) (payload : List ℕ) (os : List (ChunkedObject G.Meta))
      (objects chunks : ℕ) (k : List (ChunkedObject G.Meta) → Contents F) {after : Contents F}
      → IsMapTallied G.chunk_count os objects chunks
      → (expect_record_encoding h.encoding cbor
          >> (add_object G h (decode_cbor codec payload) os >>= λ new. ok (k new)))
        ≡ ok after
      → (new : List (ChunkedObject G.Meta)) × IsMapTallied G.chunk_count new (objects + 1) chunks
        × (k new ≡ after)
  object-step G h payload os objects chunks k t e =
      let (_, e1) = guard-eq-ok (encoding_eq h.encoding cbor) _ _ e in
      let (new, made, e2) = >>=-eq-ok (add_object G h (decode_cbor codec payload) os) _ e1 in
      let f = add_object-IsFilling G h (decode_cbor codec payload) os new t.filling made in
      (
        new,
        record {
          filling = f.0;
          objects_eq = omega (arith, t.objects_eq, f.2);
          chunks_eq = t.chunks_eq ∙ sym f.1;
        },
        ok-injective e2,
      )

  type-IsTallied :
      (t : RecordType) (h : RecordHeader) (payload : List ℕ) (last : Bool) (s after : Contents F)
      → IsPlaced h.object_id h.chunk_index h.chunk_count
      → IsTallied F s
      → apply_type F codec t h payload last s ≡ ok after
      → IsTallied F after
  unfolding apply_type
  type-IsTallied identity h payload last s after p t e =
      let (owner, _, e1) = >>=-eq-ok (read_identity F codec h payload s.owner) _ e in ground arith
  type-IsTallied peer_keys_batch h payload last s after p t e =
      let (items, _, e1) = >>=-eq-ok (batch codec F.validate_peer_key h.encoding payload) _ e in
      ground (arith, length-append s.peer_keys items)
  type-IsTallied messages_batch h payload last s after p t e =
      let (items, _, e1) = >>=-eq-ok (batch codec F.validate_message h.encoding payload) _ e in
      ground (arith, length-append s.messages items)
  type-IsTallied link_previews_batch h payload last s after p t e =
      let (items, _, e1) = >>=-eq-ok (batch codec F.validate_link_preview h.encoding payload) _ e in
      ground (arith, length-append s.link_previews items)
  type-IsTallied outbox_batch h payload last s after p t e =
      let (items, _, e1) = >>=-eq-ok (batch codec F.validate_outbox h.encoding payload) _ e in
      ground (arith, length-append s.outbox items)
  type-IsTallied attachment_meta h payload last s after p t e =
      let (new, m, made) = object-step F.attachment h payload s.attachments _ _ _ t.attachments e in
      ground (arith, m)
  type-IsTallied attachment_chunk h payload last s after p t e =
      let (new, m, made) =
        chunk-step F F.attachment.chunk_count h payload s.attachments _ _ _ p t.attachments e in
      ground (arith, m)
  type-IsTallied transfer_queue_meta h payload last s after p t e =
      let (new, m, made) =
        object-step F.transfer h payload s.transfer_queue _ _ _ t.transfer_queue e in
      ground (arith, m)
  type-IsTallied transfer_queue_chunk h payload last s after p t e =
      let (new, m, made) =
        chunk-step F F.transfer.chunk_count h payload s.transfer_queue _ _ _ p t.transfer_queue e in
      ground (arith, m)
  type-IsTallied remote_media_meta h payload last s after p t e =
      let (new, m, made) = object-step F.media h payload s.remote_media _ _ _ t.remote_media e in
      ground (arith, m)
  type-IsTallied remote_media_chunk h payload last s after p t e =
      let (new, m, made) =
        chunk-step F F.media.chunk_count h payload s.remote_media _ _ _ p t.remote_media e in
      ground (arith, m)
  type-IsTallied manifest h payload last s after p t e =
      let (_, e1) = guard-eq-ok (encoding_eq h.encoding cbor) _ _ e in
      let (_, e2) = guard-eq-ok last _ _ e1 in
      let (value, _, e3) = >>=-eq-ok (lift (decode_cbor codec payload)) _ e2 in ground arith

  -- A record that is taken keeps the counts true.
  pub apply_record-IsTallied :
      (mode : Mode) (h : RecordHeader) (payload : List ℕ) (last : Bool) (s after : Contents F)
      → IsPlaced h.object_id h.chunk_index h.chunk_count
      → IsTallied F s
      → apply_record F codec mode h payload last s ≡ ok after
      → IsTallied F after
  unfolding apply_record
  apply_record-IsTallied mode h payload last s after p t e =
      let (_, _, e1) = >>=-eq-ok (assert_record_allowed_in_mode mode h.type) _ e in
      type-IsTallied h.type h payload last s after p t e1

  IsBare-type :
      (t : RecordType) (h : RecordHeader) (payload : List ℕ) (last : Bool) (s after : Contents F)
      → is_minimal t ≡ true
      → IsBare F s
      → apply_type F codec t h payload last s ≡ ok after
      → IsBare F after
  unfolding apply_type
  IsBare-type identity h payload last s after m b e =
      let (owner, _, e1) = >>=-eq-ok (read_identity F codec h payload s.owner) _ e in ground arith
  IsBare-type manifest h payload last s after m b e =
      let (_, e1) = guard-eq-ok (encoding_eq h.encoding cbor) _ _ e in
      let (_, e2) = guard-eq-ok last _ _ e1 in
      let (value, _, e3) = >>=-eq-ok (lift (decode_cbor codec payload)) _ e2 in ground arith
  IsBare-type _ h payload last s after m b e = cc

  -- In an identity-only backup no record brings anything but the identity and the manifest.
  pub apply_record-IsBare :
      (h : RecordHeader) (payload : List ℕ) (last : Bool) (s after : Contents F)
      → IsBare F s
      → apply_record F codec identity_only h payload last s ≡ ok after
      → IsBare F after
  unfolding apply_record
  apply_record-IsBare h payload last s after b e =
      let (m, e1) = guard-eq-ok (is_minimal h.type) _ _ e in
      IsBare-type h.type h payload last s after m b e1

  manifest_type-last :
      (t : RecordType) (h : RecordHeader) (payload : List ℕ) (last : Bool) (s after : Contents F)
      → t ≡ manifest
      → apply_type F codec t h payload last s ≡ ok after
      → last ≡ true
  unfolding apply_type
  manifest_type-last manifest h payload last s after m e =
      let (_, e1) = guard-eq-ok (encoding_eq h.encoding cbor) _ _ e in
      let (final, _) = guard-eq-ok last _ _ e1 in final
  manifest_type-last _ h payload last s after m e = cc

  -- A manifest is taken only as the last record of the file.
  pub manifest-last :
      (mode : Mode) (h : RecordHeader) (payload : List ℕ) (last : Bool) (s after : Contents F)
      → h.type ≡ manifest
      → apply_record F codec mode h payload last s ≡ ok after
      → last ≡ true
  unfolding apply_record
  manifest-last mode h payload last s after m e =
      let (_, _, e1) = >>=-eq-ok (assert_record_allowed_in_mode mode h.type) _ e in
      manifest_type-last h.type h payload last s after m e1
