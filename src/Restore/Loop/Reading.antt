-- ===== src/Restore/Loop/Reading.antt =====
-- What the loop has read when it returns.
use private_communication.Common.{
  ℕ, zero, suc, ◌+◌, ◌≤◌, ◌≡◌, refl, ap, subst, true, false, not, Option, some, List, length, ltb,
  ◌==◌, ==_iff, Result, ok, arith, Bool-cases, Result-cases, inl, inr, >>=-eq-ok, guard-eq-ok,
  ok-injective,
}
use private_communication.Pcbk.ClearHeader.{identity_only}
use private_communication.Pcbk.RecordHeader.{RecordType, manifest}
use private_communication.Restore.Errors.{Thrown}
use private_communication.Restore.Records.{Formats, apply_record}
use private_communication.Restore.Records.Tallied.{
  IsTallied, IsBare, apply_record-IsTallied, apply_record-IsBare, manifest-last,
}
use private_communication.Restore.Loop.{
  Environment, Opened, State, next, final, read_frame, read_record, read_records, is_manifest,
}
use private_communication.Restore.Loop.Total.{IsTaken, read_record-IsTaken, state_of}

is_manifest→eq : (t : RecordType) → is_manifest t ≡ true → t ≡ manifest
is_manifest→eq manifest h = refl
is_manifest→eq _ h = cc

module _ (F : Formats) (env : Environment) (o : Opened) (file : List ℕ) where
  -- The records that lead from one state of the loop to another.
  pub data Reads : State F → State F → Type 0 where
    done : {s : State F} → Reads s s
    more : {s t u : State F} → IsTaken F env o file s t → Reads t u → Reads s u

  -- What holds at each turn of the loop.
  pub record IsSound (s : State F) : Type 0 where
    pub tallied : IsTallied F s.contents
    pub bare : o.clear_header.mode ≡ identity_only → IsBare F s.contents
    pub inside : s.offset ≤ length file
    pub indexed : s.expected_record_index ≡ s.total_record_count

  taken-IsSound : {s t : State F} → IsTaken F env o file s t → IsSound s → IsSound t
  taken-IsSound {s} {t} k v = record {
    tallied =
        apply_record-IsTallied F env.codec o.clear_header.mode k.frame.header k.frame.payload _
          s.contents t.contents k.framed.accepted.placed v.tallied k.applied;
    bare = λ m.
        apply_record-IsBare F env.codec k.frame.header k.frame.payload _ s.contents t.contents
          (v.bare m)
          (subst
            (λ x.
              apply_record F env.codec x k.frame.header k.frame.payload
                (k.frame.cipher_end == length file) s.contents
              ≡ ok t.contents)
            m k.applied);
    inside = omega (arith, k.framed.inside, k.offset);
    indexed = omega (arith, k.index, k.count, v.indexed);
  }

  pub Reads-IsSound : {s t : State F} → Reads s t → IsSound s → IsSound t
  Reads-IsSound done v = v
  Reads-IsSound (more k r) v = Reads-IsSound r (taken-IsSound k v)

  final-last :
      (s after : State F)
      → read_record F env o file s ≡ ok (final after)
      → length file ≤ after.offset
  unfolding read_record
  final-last s after e =
      let (_, e1) = guard-eq-ok (not (env.aborted (4 + s.total_record_count))) _ _ e in
      let (f, _, e2) = >>=-eq-ok (read_frame env o file s.offset s.expected_record_index) _ e1 in
      let (contents, applied, e3) =
        >>=-eq-ok
          (apply_record F env.codec o.clear_header.mode f.header f.payload
            (f.cipher_end == length file) s.contents)
          _ e2 in
      elim (Bool-cases (is_manifest f.header.type)) [
        | inl h ↦
            let last =
              manifest-last F env.codec o.clear_header.mode f.header f.payload _ s.contents contents
                (is_manifest→eq f.header.type h) applied in
            let ends = (==_iff f.cipher_end (length file)).0 last in
            let same : f.cipher_end ≡ after.offset =
              ap (λ x. (state_of F x).offset) (ok-injective (rw h at e3)) in
            omega (arith, ends, same)
        | inr h ↦ cc (rw h at e3)
      ]

  stopped :
      (s t : State F)
      → ltb s.offset (length file) ≡ false
      → ◌≡◌ {A = Option (Result Thrown (State F))} (some (ok s)) (some (ok t))
      → Reads s t × (length file ≤ t.offset)
  stopped s t h e =
      let same : s ≡ t = ground arith in
      (subst (Reads s) same done, subst (λ x. length file ≤ x.offset) same (ground arith))

  -- A loop that returns has read records up to the end of the file.
  pub read_records-Reads :
      (n : ℕ) (s t : State F)
      → read_records F n env o file s ≡ some (ok t)
      → Reads s t × (length file ≤ t.offset)
  unfolding read_records
  read_records-Reads zero s t e = elim (Bool-cases (ltb s.offset (length file))) [
    | inl h ↦ cc (rw (h, read_records) at e)
    | inr h ↦ stopped s t h (rw (h, read_records) at e)
  ]
  read_records-Reads (suc n) s t e = elim (Bool-cases (ltb s.offset (length file))) [
    | inr h ↦ stopped s t h (rw (h, read_records) at e)
    | inl h ↦ elim (Result-cases (read_record F env o file s)) [
      | inr (x, thrown) ↦ cc (rw (h, thrown, read_records) at e)
      | inl (next after, taken) ↦
          let rest = read_records-Reads n after t (rw (h, taken, read_records) at e) in
          (more (read_record-IsTaken F env o file s (next after) taken) rest.0, rest.1)
      | inl (final after, taken) ↦
          let same : after ≡ t = ground (arith, rw (h, taken, read_records) at e) in
          (
            subst (Reads s) same
                (more (read_record-IsTaken F env o file s (final after) taken) done),
            subst (λ x. length file ≤ x.offset) same (final-last s after taken),
          )
    ]
  ]
