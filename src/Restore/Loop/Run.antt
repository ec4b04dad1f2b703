-- ===== src/Restore/Loop/Run.antt =====
-- The run behind a backup that was parsed.
use private_communication.Common.{
  ℕ, ◌≤◌, ◌≡◌, refl, subst, String, not, Option, some, List, length, ok, err, Result-cases, inl,
  inr, Option-cases, >>=-eq-ok, guard-eq-ok, expect-eq-ok, ok-injective,
}
use private_communication.Pcbk.Preamble.RoundTrip.{parse_prelude-within}
use private_communication.Pcbk.Manifest.{
  ManifestPayload, validate_manifest_payload, assert_manifest_matches_expected,
}
use private_communication.Pcbk.Manifest.Matched.{IsMatch, assert_manifest_matches_expected-IsMatch}
use private_communication.Restore.Errors.{lift, lift-eq-ok}
use private_communication.Restore.Objects.{ParsedObject, finalize_chunked_objects}
use private_communication.Restore.Records.{Formats}
use private_communication.Restore.Records.Tallied.{no_contents-IsTallied}
use private_communication.Restore.Loop.{
  Environment, Opened, State, read_records, start, open_backup, finish_backup, restore_opened,
  parse_pcbk_backup_bytes, ParsedBackup, is_null, build_expected_manifest,
}
use private_communication.Restore.Loop.Opening.{IsOpened, open_backup-IsOpened}
use private_communication.Restore.Loop.Reading.{Reads, IsSound, read_records-Reads}

some-injective : {A : Type 0} {a b : A} → ◌≡◌ {A = Option A} (some a) (some b) → a ≡ b
some-injective e = cc

module _ (F : Formats) (env : Environment) where
  -- The parts of a backup that was finished.
  pub record IsFinished (o : Opened) (s : State F) (b : ParsedBackup F) : Type 0 where
    pub identity : F.Identity
    pub attachments : List (ParsedObject F.attachment.Meta)
    pub transfer_queue : List (ParsedObject F.transfer.Meta)
    pub remote_media : List (ParsedObject F.media.Meta)
    pub checked : ManifestPayload
    pub attachments_done : finalize_chunked_objects s.contents.attachments ≡ ok attachments
    pub transfer_queue_done : finalize_chunked_objects s.contents.transfer_queue ≡ ok transfer_queue
    pub remote_media_done : finalize_chunked_objects s.contents.remote_media ≡ ok remote_media
    pub match : IsMatch checked (
        build_expected_manifest F o.clear_header s.total_record_count s.contents.counts attachments
          transfer_queue remote_media)
    pub made :
        record {
          opened = o;
          identity = identity;
          peer_keys = s.contents.peer_keys;
          messages = s.contents.messages;
          link_previews = s.contents.link_previews;
          outbox = s.contents.outbox;
          attachments = attachments;
          transfer_queue = transfer_queue;
          remote_media = remote_media;
          total_record_count = s.total_record_count;
          manifest = checked;
        }
        ≡ b

  pub finish_backup-IsFinished :
      (o : Opened) (s : State F) (b : ParsedBackup F)
      → finish_backup F env o s ≡ ok b
      → IsFinished o s b
  unfolding finish_backup
  finish_backup-IsFinished o s b e =
      let (identity, _, e1) = expect-eq-ok s.contents.owner _ _ e in
      let (_, e2) = guard-eq-ok (not (is_null s.contents.manifest_value)) _ _ e1 in
      let (a, ha, e3) = >>=-eq-ok (finalize_chunked_objects s.contents.attachments) _ e2 in
      let (t, ht, e4) = >>=-eq-ok (finalize_chunked_objects s.contents.transfer_queue) _ e3 in
      let (r, hr, e5) = >>=-eq-ok (finalize_chunked_objects s.contents.remote_media) _ e4 in
      let expected : ManifestPayload =
        build_expected_manifest F o.clear_header s.total_record_count s.contents.counts a t r in
      let (found, hf, e6) =
        >>=-eq-ok (lift (validate_manifest_payload s.contents.manifest_value expected.summary)) _
          e5 in
      let (checked, hc, e7) =
        >>=-eq-ok (lift (assert_manifest_matches_expected env.locale_compare found expected)) _
          e6 in
      let (same, match) =
        assert_manifest_matches_expected-IsMatch env.locale_compare found expected checked
          (lift-eq-ok _ hc) in
      record {
        identity = identity;
        attachments = a;
        transfer_queue = t;
        remote_media = r;
        checked = checked;
        attachments_done = ha;
        transfer_queue_done = ht;
        remote_media_done = hr;
        match = subst (λ x. IsMatch x expected) same match;
        made = ok-injective e7;
      }

module _ (F : Formats) (env : Environment) (file : List ℕ) where
  pub start-IsSound :
      (passphrase : String) (o : Opened)
      → IsOpened env file passphrase o
      → IsSound F env o file (start F o)
  start-IsSound passphrase o opened = record {
    tallied = no_contents-IsTallied F;
    bare = λ _. record {
      peer_keys = refl;
      messages = refl;
      link_previews = refl;
      outbox = refl;
      attachments = refl;
      transfer_queue = refl;
      remote_media = refl;
    };
    inside = parse_prelude-within file o.prelude opened.parsed;
    indexed = refl;
  }

  -- The run behind a backup that was parsed.
  pub record IsRun (passphrase : String) (b : ParsedBackup F) : Type 0 where
    pub o : Opened
    pub s : State F
    pub opened : IsOpened env file passphrase o
    pub read : Reads F env o file (start F o) s
    pub whole : length file ≤ s.offset
    pub finished : finish_backup F env o s ≡ ok b

  restore_opened-finished :
      (o : Opened) (b : ParsedBackup F)
      → restore_opened F env file o ≡ some (ok b)
      → (s : State F) × (read_records F (length file) env o file (start F o) ≡ some (ok s))
        × (finish_backup F env o s ≡ ok b)
  unfolding restore_opened
  restore_opened-finished o b e =
      elim (Option-cases (read_records F (length file) env o file (start F o))) [
        | inl h ↦ cc (rw (h, restore_opened) at e)
        | inr (err t, h) ↦ cc (rw (h, restore_opened) at e)
        | inr (ok s, h) ↦ (s, h, some-injective (rw (h, restore_opened) at e))
      ]

  pub parse_pcbk_backup_bytes-IsRun :
      (passphrase : String) (b : ParsedBackup F)
      → parse_pcbk_backup_bytes F env file passphrase ≡ some (ok b)
      → IsRun passphrase b
  unfolding parse_pcbk_backup_bytes
  parse_pcbk_backup_bytes-IsRun passphrase b e =
      elim (Result-cases (open_backup env file passphrase)) [
        | inr (t, thrown) ↦ cc (rw (thrown, parse_pcbk_backup_bytes) at e)
        | inl (o, opened) ↦
            let (s, read, finished) =
              restore_opened-finished o b (rw (opened, parse_pcbk_backup_bytes) at e) in
            let reads = read_records-Reads F env o file (length file) (start F o) s read in
            record {
              o = o;
              s = s;
              opened = open_backup-IsOpened env file passphrase o opened;
              read = reads.0;
              whole = reads.1;
              finished = finished;
            }
      ]
