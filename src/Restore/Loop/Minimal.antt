-- ===== src/Restore/Loop/Minimal.antt =====
-- What a restore brings from an identity-only backup.
use private_communication.Common.{
  ℕ, ◌≡◌, sym, ap, subst, ◌∙◌, String, some, List, [], ◌∷◌, ok, ok-injective,
}
use private_communication.Pcbk.ClearHeader.{identity_only}
use private_communication.Restore.Objects.{ChunkedObject, ParsedObject, finalize_chunked_objects}
use private_communication.Restore.Records.{Formats}
use private_communication.Restore.Records.Tallied.{IsBare}
use private_communication.Restore.Loop.{
  Environment, Opened, State, finish_backup, parse_pcbk_backup_bytes, ParsedBackup,
}
use private_communication.Restore.Loop.Reading.{Reads-IsSound}
use private_communication.Restore.Loop.Run.{
  finish_backup-IsFinished, start-IsSound, parse_pcbk_backup_bytes-IsRun,
}

-- A backup that holds its identity only.
pub record IsMinimal (F : Formats) (b : ParsedBackup F) : Type 0 where
  pub peer_keys : b.peer_keys ≡ []
  pub messages : b.messages ≡ []
  pub link_previews : b.link_previews ≡ []
  pub outbox : b.outbox ≡ []
  pub attachments : b.attachments ≡ []
  pub transfer_queue : b.transfer_queue ≡ []
  pub remote_media : b.remote_media ≡ []

finalize-nil :
    {M : Type 0} (os : List (ChunkedObject M)) {ps : List (ParsedObject M)}
    → os ≡ []
    → finalize_chunked_objects os ≡ ok ps
    → ps ≡ []
unfolding finalize_chunked_objects
finalize-nil [] e h = sym (ok-injective h)
finalize-nil (o ∷ os) e h = cc

module _ (F : Formats) (env : Environment) (file : List ℕ) where
  finish_backup-IsMinimal :
      (o : Opened) (s : State F) (b : ParsedBackup F)
      → IsBare F s.contents
      → finish_backup F env o s ≡ ok b
      → IsMinimal F b
  finish_backup-IsMinimal o s b v e =
      let f = finish_backup-IsFinished F env o s b e in
      subst (IsMinimal F) f.made (record {
        peer_keys = v.peer_keys;
        messages = v.messages;
        link_previews = v.link_previews;
        outbox = v.outbox;
        attachments = finalize-nil _ v.attachments f.attachments_done;
        transfer_queue = finalize-nil _ v.transfer_queue f.transfer_queue_done;
        remote_media = finalize-nil _ v.remote_media f.remote_media_done;
      })

  -- A backup that is restored from a file whose header says identity-only has no peer keys, messages,
  -- link previews, outbox entries, attachments, queued transfers or remote media.
  pub parse_pcbk_backup_bytes-IsMinimal :
      (passphrase : String) (b : ParsedBackup F)
      → parse_pcbk_backup_bytes F env file passphrase ≡ some (ok b)
      → b.opened.clear_header.mode ≡ identity_only
      → IsMinimal F b
  parse_pcbk_backup_bytes-IsMinimal passphrase b e m =
      let r = parse_pcbk_backup_bytes-IsRun F env file passphrase b e in
      let v =
        Reads-IsSound F env r.o file r.read (start-IsSound F env file passphrase r.o r.opened) in
      let same = ap (λ x. x.opened) (finish_backup-IsFinished F env r.o r.s b r.finished).made in
      finish_backup-IsMinimal r.o r.s b (v.bare (ap (λ o. o.clear_header.mode) same ∙ m)) r.finished
