-- ===== src/Restore/Loop/Total.antt =====
-- The loop ends: each record moves the offset on, and the file's length is fuel enough.
use private_communication.Common.{
  ℕ, zero, suc, ◌+◌, ◌≤◌, ◌≡◌, refl, String, not, some, List, [], ◌∷◌, length, slice, ltb, leb,
  ◌==◌, ==_iff, leb→le, Result, ok, err, arith, Bool-cases, Result-cases, inl, inr, >>=-eq-ok,
  guard-eq-ok, ok-injective, subst,
}
use private_communication.Pcbk.Cbor.{Codec, decode_cbor}
use private_communication.Pcbk.Preamble.{read_uint32_little_endian}
use private_communication.Pcbk.RecordHeader.{RecordHeader, decode_record_header}
use private_communication.Pcbk.RecordHeader.Accepted.{IsAccepted, validate_record_header-IsAccepted}
use private_communication.Pcbk.Value.{nat}
use private_communication.Pcbk.Record.{build_record_nonce, decrypt_record}
use private_communication.Restore.Errors.{
  Thrown, lift, lift-eq-ok, rethrow, rethrow-eq-ok, restore, corrupted_backup, decrypting_records,
}
use private_communication.Restore.Records.{Formats, apply_record}
use private_communication.Restore.Loop.{
  Environment, Opened, Frame, read_frame, decrypt_payload, State, Outcome, next, final, read_record,
  read_records, start, open_backup, finish_backup, restore_opened, parse_pcbk_backup_bytes,
  ParsedBackup, is_manifest, record_auth_tag_bytes,
}

decode-IsAccepted :
    (codec : Codec) (b : List ℕ) (h : RecordHeader)
    → decode_record_header codec b ≡ ok h
    → IsAccepted h
unfolding decode_record_header
decode-IsAccepted codec [] h e = cc
decode-IsAccepted codec (x ∷ b) h e =
    let (v, _, e1) = >>=-eq-ok (decode_cbor codec (x ∷ b)) _ e in
    validate_record_header-IsAccepted v h e1

-- A frame that is read is the file's: behind the offset stand the header's length, the header, which
-- is an accepted one with the index that is due, and as many bytes of ciphertext as the header says,
-- all of them within the file. The payload is what the content key decrypts from the ciphertext, under
-- the nonce of the index and with the header's bytes as additional data.
pub record IsFramed (env : Environment) (o : Opened) (file : List ℕ) (offset due : ℕ) (f : Frame)
    : Type 0 where
  pub header_length : ℕ
  pub nonce : List ℕ
  pub announced : read_uint32_little_endian file offset ≡ ok header_length
  pub decoded :
      decode_record_header env.codec (slice file (offset + 4) (offset + 4 + header_length))
      ≡ ok f.header
  pub index : f.header.index ≡ due
  pub accepted : IsAccepted f.header
  pub cipher_size : f.header.cipher_length ≡ f.header.plain_length + record_auth_tag_bytes
  pub ends : f.cipher_end ≡ offset + 4 + header_length + f.header.cipher_length
  pub onward : offset + 4 ≤ f.cipher_end
  pub inside : f.cipher_end ≤ length file
  pub numbered : build_record_nonce o.clear_header.nonce_prefix (nat f.header.index) ≡ ok nonce
  pub decrypted :
      decrypt_record env.cipher o.content_key nonce
        (slice file (offset + 4) (offset + 4 + header_length))
        (slice file
          (offset + 4 + header_length)
          (offset + 4 + header_length + f.header.cipher_length))
      ≡ ok f.payload
  pub size : length f.payload ≡ f.header.plain_length

-- A payload that is decrypted.
record IsDecrypted (env : Environment) (o : Opened) (h : RecordHeader)
    (header_bytes ciphertext payload : List ℕ) : Type 0 where
  nonce : List ℕ
  numbered : build_record_nonce o.clear_header.nonce_prefix (nat h.index) ≡ ok nonce
  decrypted : decrypt_record env.cipher o.content_key nonce header_bytes ciphertext ≡ ok payload
  size : length payload ≡ h.plain_length

decrypt_payload-IsDecrypted :
    (env : Environment) (o : Opened) (h : RecordHeader) (header_bytes ciphertext payload : List ℕ)
    → decrypt_payload env o h header_bytes ciphertext ≡ ok payload
    → IsDecrypted env o h header_bytes ciphertext payload
unfolding decrypt_payload
decrypt_payload-IsDecrypted env o h header_bytes ciphertext payload e =
    let (nonce, numbered, e1) =
      >>=-eq-ok (lift (build_record_nonce o.clear_header.nonce_prefix (nat h.index))) _ e in
    let (found, opened, e2) =
      >>=-eq-ok
        (rethrow (restore corrupted_backup "Record decryption failed." decrypting_records)
          (decrypt_record env.cipher o.content_key nonce header_bytes ciphertext))
        _ e1 in
    let (same, e3) = guard-eq-ok (length found == h.plain_length) _ _ e2 in
    subst (IsDecrypted env o h header_bytes ciphertext) (ok-injective e3) (record {
      nonce = nonce;
      numbered = lift-eq-ok _ numbered;
      decrypted = rethrow-eq-ok _ _ opened;
      size = (==_iff (length found) h.plain_length).0 same;
    })

pub read_frame-IsFramed :
    (env : Environment) (o : Opened) (file : List ℕ) (offset due : ℕ) (f : Frame)
    → read_frame env o file offset due ≡ ok f
    → IsFramed env o file offset due f
unfolding read_frame
read_frame-IsFramed env o file offset due f e =
    let (n, announced, e1) = >>=-eq-ok (lift (read_uint32_little_endian file offset)) _ e in
    let header_bytes = slice file (offset + 4) (offset + 4 + n) in
    let (_, e2) = guard-eq-ok (leb (offset + 4 + n) (length file)) _ _ e1 in
    let (h, decoded, e3) = >>=-eq-ok (lift (decode_record_header env.codec header_bytes)) _ e2 in
    let (index, e4) = guard-eq-ok (h.index == due) _ _ e3 in
    let (sizes, e5) =
      guard-eq-ok (h.cipher_length == h.plain_length + record_auth_tag_bytes) _ _ e4 in
    let (inside, e6) = guard-eq-ok (leb (offset + 4 + n + h.cipher_length) (length file)) _ _ e5 in
    let (payload, decrypted, e7) =
      >>=-eq-ok
        (decrypt_payload env o h header_bytes
          (slice file (offset + 4 + n) (offset + 4 + n + h.cipher_length)))
        _ e6 in
    let plain = decrypt_payload-IsDecrypted env o h header_bytes _ payload decrypted in
    subst (IsFramed env o file offset due) (ok-injective e7) (record {
      header_length = n;
      nonce = plain.nonce;
      announced = lift-eq-ok _ announced;
      decoded = lift-eq-ok _ decoded;
      index = (==_iff h.index due).0 index;
      accepted = decode-IsAccepted env.codec header_bytes h (lift-eq-ok _ decoded);
      cipher_size = (==_iff h.cipher_length _).0 sizes;
      ends = refl;
      onward = omega arith;
      inside = leb→le _ _ inside;
      numbered = plain.numbered;
      decrypted = plain.decrypted;
      size = plain.size;
    })

module _ (F : Formats) where
  abbrev pub state_of : Outcome F → State F
  state_of (next s) = s
  state_of (final s) = s

  -- A record that is taken is the file's, and its payload was applied to the contents.
  pub record IsTaken (env : Environment) (o : Opened) (file : List ℕ) (s after : State F)
      : Type 0 where
    pub frame : Frame
    pub framed : IsFramed env o file s.offset s.expected_record_index frame
    pub applied :
        apply_record F env.codec o.clear_header.mode frame.header frame.payload
          (frame.cipher_end == length file)
          s.contents
        ≡ ok after.contents
    pub offset : after.offset ≡ frame.cipher_end
    pub index : after.expected_record_index ≡ s.expected_record_index + 1
    pub count : after.total_record_count ≡ s.total_record_count + 1

  pub read_record-IsTaken :
      (env : Environment) (o : Opened) (file : List ℕ) (s : State F) (out : Outcome F)
      → read_record F env o file s ≡ ok out
      → IsTaken env o file s (state_of out)
  unfolding read_record
  read_record-IsTaken env o file s out e =
      let (_, e1) = guard-eq-ok (not (env.aborted (4 + s.total_record_count))) _ _ e in
      let (f, framed, e2) =
        >>=-eq-ok (read_frame env o file s.offset s.expected_record_index) _ e1 in
      let (contents, applied, e3) =
        >>=-eq-ok
          (apply_record F env.codec o.clear_header.mode f.header f.payload
            (f.cipher_end == length file) s.contents)
          _ e2 in
      elim (Bool-cases (is_manifest f.header.type)) [
        | inl h ↦
            subst (λ x. IsTaken env o file s (state_of x)) (ok-injective (rw h at e3))
              (record {
                frame = f;
                framed = read_frame-IsFramed env o file s.offset s.expected_record_index f framed;
                applied = applied;
                offset = refl;
                index = refl;
                count = refl;
              })
        | inr h ↦
            subst (λ x. IsTaken env o file s (state_of x)) (ok-injective (rw h at e3))
              (record {
                frame = f;
                framed = read_frame-IsFramed env o file s.offset s.expected_record_index f framed;
                applied = applied;
                offset = refl;
                index = refl;
                count = refl;
              })
      ]

  -- With as much fuel as there are bytes behind the offset, the loop does not run out.
  read_records-total :
      (n : ℕ) (env : Environment) (o : Opened) (file : List ℕ) (s : State F)
      → length file ≤ s.offset + n
      → (r : Result Thrown (State F)) × (read_records F n env o file s ≡ some r)
  unfolding read_records
  read_records-total zero env o file s h = (ok s, ground arith)
  read_records-total (suc n) env o file s h = elim (Bool-cases (ltb s.offset (length file))) [
    | inr behind ↦ (ok s, rw (behind, read_records))
    | inl inside ↦ elim (Result-cases (read_record F env o file s)) [
      | inr (t, thrown) ↦ (err t, rw (inside, thrown, read_records))
      | inl (next after, taken) ↦
          let t = read_record-IsTaken env o file s (next after) taken in
          let (r, ends) =
            read_records-total n env o file after (omega (arith, t.framed.onward, t.offset)) in
          (r, rw (inside, taken, read_records) ends)
      | inl (final after, taken) ↦ (ok after, rw (inside, taken, read_records))
    ]
  ]

  restore_opened-total :
      (env : Environment) (file : List ℕ) (o : Opened)
      → (r : Result Thrown (ParsedBackup F)) × (restore_opened F env file o ≡ some r)
  unfolding restore_opened
  restore_opened-total env file o =
      let (r, ends) = read_records-total (length file) env o file (start F o) (omega arith) in
      elim (Result-cases r) [
        | inl (s, read) ↦ (finish_backup F env o s, rw (ends, read, restore_opened))
        | inr (t, thrown) ↦ (err t, rw (ends, thrown, restore_opened))
      ]

  -- The parser ends on every file, passphrase and environment, with a backup or an error: no run is
  -- out of fuel.
  pub parse_pcbk_backup_bytes-total :
      (env : Environment) (file : List ℕ) (passphrase : String)
      → (r : Result Thrown (ParsedBackup F)) × (parse_pcbk_backup_bytes F env file passphrase
          ≡ some r)
  unfolding parse_pcbk_backup_bytes
  parse_pcbk_backup_bytes-total env file passphrase =
      elim (Result-cases (open_backup env file passphrase)) [
        | inr (t, thrown) ↦ (err t, rw (thrown, parse_pcbk_backup_bytes))
        | inl (o, opened) ↦
            let (r, ends) = restore_opened-total env file o in
            (r, rw (opened, parse_pcbk_backup_bytes) ends)
      ]
