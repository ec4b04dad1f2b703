-- ===== src/Restore/Loop/Restored.antt =====
-- What a restore that succeeds has read.
use mathlib.Core.List.{Perm}
use private_communication.Common.{
  ℕ, ◌≤◌, ◌≡◌, refl, sym, ap, subst, ◌∙◌, String, some, List, length, ok, arith, All,
}
use private_communication.Pcbk.ClearHeader.{ClearHeader}
use private_communication.Pcbk.Manifest.{ObjectEntry, ManifestSummary}
use private_communication.Restore.Objects.{
  MetaFormat, ChunkedObject, ParsedObject, finalize_chunked_objects,
}
use private_communication.Restore.Objects.Filled.{IsWhole, finalize-IsWhole, announced}
use private_communication.Restore.Records.{Formats}
use private_communication.Restore.Records.Tallied.{IsMapTallied}
use private_communication.Restore.Loop.{
  Environment, Opened, State, start, finish_backup, parse_pcbk_backup_bytes, ParsedBackup,
  entries_of,
}
use private_communication.Restore.Loop.Opening.{IsOpened}
use private_communication.Restore.Loop.Reading.{Reads, IsSound, Reads-IsSound}
use private_communication.Restore.Loop.Run.{
  finish_backup-IsFinished, start-IsSound, parse_pcbk_backup_bytes-IsRun,
}

-- The summary that the file's clear header and its number of records give.
abbrev pub summary_of : ClearHeader → ℕ → ManifestSummary
summary_of h total = record {
  backup_id = h.backup_id;
  mode = h.mode;
  created_at = h.created_at;
  total_record_count = total;
}

module _ {M : Type 0} (chunk_count : M → ℕ) where
  -- The objects of one kind against what the manifest says of them: each has all its chunks, the
  -- manifest's list is theirs in some order, and its counts are the objects and their chunks.
  pub record IsListed (ps : List (ParsedObject M)) (listed : List ObjectEntry) (objects chunks : ℕ)
      : Type 0 where
    pub whole : All (IsWhole chunk_count) ps
    pub entries : Perm listed (entries_of chunk_count ps)
    pub objects_eq : objects ≡ length ps
    pub chunks_eq : chunks ≡ announced chunk_count ps

listed :
    (G : MetaFormat) (os : List (ChunkedObject G.Meta)) (ps : List (ParsedObject G.Meta))
    (entries : List ObjectEntry) (objects chunks : ℕ) {n m : ℕ}
    → IsMapTallied G.chunk_count os n m
    → finalize_chunked_objects os ≡ ok ps
    → Perm entries (entries_of G.chunk_count ps)
    → objects ≡ n
    → chunks ≡ m
    → IsListed G.chunk_count ps entries objects chunks
listed G os ps entries objects chunks t e p a b =
    let f = finalize-IsWhole G.chunk_count os ps t.filling e in
    record {
      whole = f.0;
      entries = p;
      objects_eq = a ∙ t.objects_eq ∙ sym f.1;
      chunks_eq = b ∙ t.chunks_eq ∙ f.2;
    }

module _ (F : Formats) (env : Environment) (file : List ℕ) where
  -- A backup that was restored from a file.
  pub record IsRestored (passphrase : String) (b : ParsedBackup F) : Type 0 where
    pub opened : IsOpened env file passphrase b.opened
    pub last : State F
    pub read : Reads F env b.opened file (start F b.opened) last
    pub whole : last.offset ≡ length file
    pub records : last.total_record_count ≡ b.total_record_count
    pub summary : b.manifest.summary ≡ summary_of b.opened.clear_header b.total_record_count
    pub peer_keys : b.manifest.counts.peer_keys ≡ length b.peer_keys
    pub messages : b.manifest.counts.messages ≡ length b.messages
    pub link_previews : b.manifest.counts.link_previews ≡ length b.link_previews
    pub outbox : b.manifest.counts.outbox ≡ length b.outbox
    pub attachments :
        IsListed F.attachment.chunk_count b.attachments b.manifest.objects.attachments
          b.manifest.counts.attachments b.manifest.counts.attachment_chunks
    pub transfer_queue :
        IsListed F.transfer.chunk_count b.transfer_queue b.manifest.objects.transfer_queue
          b.manifest.counts.transfer_queue b.manifest.counts.transfer_queue_chunks
    pub remote_media :
        IsListed F.media.chunk_count b.remote_media b.manifest.objects.remote_media
          b.manifest.counts.remote_media b.manifest.counts.remote_media_chunks

  finish_backup-IsRestored :
      (passphrase : String) (o : Opened) (s : State F) (b : ParsedBackup F)
      → IsOpened env file passphrase o
      → Reads F env o file (start F o) s
      → length file ≤ s.offset
      → IsSound F env o file s
      → finish_backup F env o s ≡ ok b
      → IsRestored passphrase b
  finish_backup-IsRestored passphrase o s b opened read whole v e =
      let f = finish_backup-IsFinished F env o s b e in
      let m = f.match in
      subst (IsRestored passphrase) f.made (record {
        opened = opened;
        last = s;
        read = read;
        whole = omega (arith, whole, v.inside);
        records = refl;
        summary = m.summary;
        peer_keys = ap (λ c. c.peer_keys) m.counts ∙ v.tallied.peer_keys;
        messages = ap (λ c. c.messages) m.counts ∙ v.tallied.messages;
        link_previews = ap (λ c. c.link_previews) m.counts ∙ v.tallied.link_previews;
        outbox = ap (λ c. c.outbox) m.counts ∙ v.tallied.outbox;
        attachments =
            listed F.attachment s.contents.attachments f.attachments _ _ _ v.tallied.attachments
              f.attachments_done m.attachments (ap (λ c. c.attachments) m.counts)
              (ap (λ c. c.attachment_chunks) m.counts);
        transfer_queue =
            listed F.transfer s.contents.transfer_queue f.transfer_queue _ _ _
              v.tallied.transfer_queue f.transfer_queue_done m.transfer_queue
              (ap (λ c. c.transfer_queue) m.counts) (ap (λ c. c.transfer_queue_chunks) m.counts);
        remote_media =
            listed F.media s.contents.remote_media f.remote_media _ _ _ v.tallied.remote_media
              f.remote_media_done m.remote_media (ap (λ c. c.remote_media) m.counts)
              (ap (λ c. c.remote_media_chunks) m.counts);
      })

  -- The backup that a restore returns from a file, with any environment and any payload formats. The
  -- passphrase's root key verifies the header's tag. From the end of the prelude on the file is cut
  -- into records without a gap, up to the last byte, and they are as many as the manifest says. Each
  -- record is the file's: its header is decoded from the bytes that its length announces, is accepted
  -- and has the index that is due; its payload is what the content key decrypts from the ciphertext
  -- behind the header, under the nonce of the index and with the header's bytes as additional data,
  -- has the announced length, and was applied to what the records before it gave. Every object has all
  -- the chunks that its metadata announced, and their total size; the manifest's object lists are the
  -- objects', in some order, and its counts are the lengths of the lists that are returned.
  pub parse_pcbk_backup_bytes-IsRestored :
      (passphrase : String) (b : ParsedBackup F)
      → parse_pcbk_backup_bytes F env file passphrase ≡ some (ok b)
      → IsRestored passphrase b
  parse_pcbk_backup_bytes-IsRestored passphrase b e =
      let r = parse_pcbk_backup_bytes-IsRun F env file passphrase b e in
      finish_backup-IsRestored passphrase r.o r.s b r.opened r.read r.whole
        (Reads-IsSound F env r.o file r.read (start-IsSound F env file passphrase r.o r.opened))
        r.finished
