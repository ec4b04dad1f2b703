-- ===== src/Backend/Attachments/Finished.antt =====
-- What is true of an upload that was completed.
use private_communication.Common.{
  ℕ, ◌≤◌, ◌<◌, ◌≡◌, refl, inl, inr, subst₂, present-eq-some, sym, String, true, Option, none, some,
  length, str_eq, str_eq_iff, ltb, present, arith, Bool-cases,
}
use private_communication.Backend.Attachments.Chunks.{includes, IsReceived, received_all}
use private_communication.Backend.Attachments.Store.{
  is_uuid_v4, UploadSession, AttachmentManifest, State,
}
use private_communication.Backend.Attachments.Store.Sessions.{get_attachment_upload_session}
use private_communication.Backend.Attachments.Routes.{CompleteUpload, completed, Service}
use private_communication.Backend.Attachments.Routes.Completing.{
  hashes_differ, manifest_of, complete_checked, complete_found, complete_as, complete_upload,
}

-- What stands behind an upload that POST /:uploadId/complete completed: a session that the user sent,
-- as many chunks of which were received as it has, and a signature of the manifest.
pub record IsComplete (v : Service) (user key upload : String) (now : ℕ) (w : State v.depot)
    (m : AttachmentManifest) : Type 0 where
  pub session : UploadSession
  pub body : CompleteUpload
  pub found : (get_attachment_upload_session v.depot upload now w).1 ≡ some session
  pub sent_by : session.sender_id ≡ user
  pub counted : session.chunk_count ≤ length session.received_chunks
  pub all_received :
      IsReceived session.chunk_count session.received_chunks
      → (i : ℕ) → i < session.chunk_count
      → includes session.received_chunks i ≡ true
  pub verified :
      v.verify (v.manifest_payload (manifest_of v session body)) body.manifest_signature key ≡ true
  pub described : m ≡ manifest_of v session body

completed_injective : {a b : AttachmentManifest} → completed a ≡ completed b → a ≡ b
completed_injective e = cc

module _ (v : Service) (user key upload : String) (d : CompleteUpload) (now : ℕ)
    (m : AttachmentManifest) where
  checked_complete :
      (session : UploadSession) (w : State v.depot)
      → (complete_checked v session user key upload d now w).1 ≡ completed m
      → (session.sender_id ≡ user)
        × (session.chunk_count ≤ length session.received_chunks)
        × (v.verify (v.manifest_payload (manifest_of v session d)) d.manifest_signature key ≡ true)
        × (m ≡ manifest_of v session d)
  unfolding complete_checked
  checked_complete session w h =
      let message = v.manifest_payload (manifest_of v session d) in
      elim (Bool-cases (str_eq session.sender_id user)) [
        | inr f ↦ cc (rw f at h)
        | inl own ↦ elim (Bool-cases (ltb (length session.received_chunks) session.chunk_count)) [
          | inl few ↦ cc (rw (own, few) at h)
          | inr all_there ↦
              elim (Bool-cases
                (hashes_differ v (present d.hash_sha256) (present session.hash_sha256))) [
                  | inl t ↦ cc (rw (own, all_there, t) at h)
                  | inr f ↦ elim (Bool-cases (v.verify message d.manifest_signature key)) [
                    | inr bad ↦ cc (rw (own, all_there, f, bad) at h)
                    | inl good ↦ (
                      (str_eq_iff session.sender_id user).0 own,
                      ground arith,
                      good,
                      sym (completed_injective (rw (own, all_there, f, good) at h)),
                    )
                  ]
                ]
        ]
      ]

  found-IsComplete :
      (w : State v.depot) (found : State v.depot × Option UploadSession)
      → (get_attachment_upload_session v.depot upload now w).1 ≡ found.1
      → (complete_found v found user key upload d now).1 ≡ completed m
      → IsComplete v user key upload now w m
  found-IsComplete w (w', none) e h = cc (h)
  found-IsComplete w (w', some session) e h =
      let checked = checked_complete session w' h in
      record {
        session = session;
        body = d;
        found = e;
        sent_by = checked.0;
        counted = checked.1;
        all_received = λ rising i l.
            received_all session.chunk_count i session.received_chunks rising checked.1 l;
        verified = checked.2;
        described = checked.3;
      }

complete_as-IsComplete :
    (v : Service) (user key : Option String) (upload : String) (d : CompleteUpload) (now : ℕ)
    → (w : State v.depot) (m : AttachmentManifest)
    → (complete_as v user key upload (some d) now w).1 ≡ completed m
    → (a b : String) × (user ≡ some a) × (key ≡ some b) × IsComplete v a b upload now w m
complete_as-IsComplete v none key upload d now w m h = cc (h)
complete_as-IsComplete v (some a) none upload d now w m h = cc (h)
complete_as-IsComplete v (some a) (some b) upload d now w m h =
    elim (Bool-cases (is_uuid_v4 upload)) [
      | inr f ↦ cc (rw f at h)
      | inl t ↦ (
        a,
        b,
        refl,
        refl,
        found-IsComplete v a b upload d now m w (get_attachment_upload_session v.depot upload now w)
            refl (rw t at h),
      )
    ]

-- The chunks of a manifest that POST /:uploadId/complete answers with are all there: the manifest was
-- made of a stored session of the user that had as many received chunks as it has chunks, so where its
-- received chunks are in rising order and below that number, each of its chunks is among them; and the
-- user's key verified the signature over the manifest.
pub complete_upload-IsComplete :
    (v : Service) (user key upload : String) (d : CompleteUpload) (now : ℕ) (w : State v.depot)
    → (m : AttachmentManifest)
    → (complete_upload v (some user) (some key) upload (some d) now w).1 ≡ completed m
    → IsComplete v user key upload now w m
unfolding complete_upload
complete_upload-IsComplete v user key upload d now w m h =
    let proof =
      complete_as-IsComplete v (present (some user)) (present (some key)) upload d now w m h in
    subst₂ (λ a b. IsComplete v a b upload now w m) (sym (present-eq-some user proof.0 proof.2))
      (sym (present-eq-some key proof.1 proof.3)) proof.4
