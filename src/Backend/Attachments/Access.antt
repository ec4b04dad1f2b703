-- ===== src/Backend/Attachments/Access.antt =====
-- Who is given a chunk, and of which attachment.
use private_communication.Common.{
  ℕ, ◌<◌, ◌≡◌, ◌⊎◌, refl, inl, inr, subst, ap, sym, ◌∙◌, String, true, ◌&&◌, Option, none, some,
  List, str_eq, str_eq_iff, leb, present, present-eq-some, arith, Bool-cases, Result, ok, err,
}
use private_communication.Backend.Attachments.Store.{
  AttachmentManifest, Depot, State, is_uuid_v4, attachment_manifest_key,
}
use private_communication.Backend.Attachments.Store.Manifests.{
  checked_manifest, parsed_manifest, get_attachment_manifest,
}
use private_communication.Backend.Attachments.Routes.{chunk_found, Service}
use private_communication.Backend.Attachments.Downloads.{
  may_read, read_answer, chunk_answer, chunk_as, read_chunk_route,
}

-- A manifest that the service gives out is the one of the attachment, and it has not expired.
module _ (v : Depot) (id : String) (now : ℕ) (m : AttachmentManifest) where
  checked_stands :
      (o : Option AttachmentManifest) (w : State v)
      → (checked_manifest v o id now w).1 ≡ some m
      → (m.attachment_id ≡ id) × (now < m.expires_at)
  checked_stands none w h = cc (h)
  checked_stands (some x) w h =
      elim (Bool-cases
        (is_uuid_v4 x.attachment_id && is_uuid_v4 x.upload_id && str_eq x.attachment_id id)) [
          | inr f ↦ cc (rw f at h)
          | inl t ↦ elim (Bool-cases (leb x.expires_at now)) [
            | inl late ↦ cc (rw (t, late) at h)
            | inr early ↦
                let same : x ≡ m = cc (rw (t, early) at h) in
                subst (λ y. (y.attachment_id ≡ id) × (now < y.expires_at)) same
                  ((str_eq_iff x.attachment_id id).0 (ground arith), ground arith)
          ]
        ]

  parsed_stands :
      (raw : Option String) (w : State v)
      → (parsed_manifest v raw id now w).1 ≡ some m
      → (m.attachment_id ≡ id) × (now < m.expires_at)
  parsed_stands none w h = cc (h)
  parsed_stands (some raw) w h = checked_stands (v.read_manifest raw) w h

  manifest_stands :
      (w : State v)
      → (get_attachment_manifest v id now w).1 ≡ some m
      → (m.attachment_id ≡ id) × (now < m.expires_at)
  unfolding get_attachment_manifest
  manifest_stands w h = elim (Bool-cases (is_uuid_v4 id)) [
    | inl t ↦
        parsed_stands (present (v.client.get (attachment_manifest_key id) w.redis)) w (rw t at h)
    | inr f ↦ cc (rw f at h)
  ]

-- What stands behind a chunk that is given to a user.
pub record IsAllowed (v : Service) (user attachment : String) (index now : ℕ) (w : State v.depot)
    (chunk : List ℕ) : Type 0 where
  pub manifest : AttachmentManifest
  pub found : (get_attachment_manifest v.depot attachment now w).1 ≡ some manifest
  pub own : manifest.attachment_id ≡ attachment
  pub unexpired : now < manifest.expires_at
  pub entitled : (manifest.sender_id ≡ user) ⊎ (manifest.recipient_id ≡ user)
  pub in_range : index < manifest.chunk_count
  pub stored :
      v.depot.read_chunk attachment index (get_attachment_manifest v.depot attachment now w).0.disk
      ≡ ok (some chunk)

entitled_by :
    (m : AttachmentManifest) (user : String)
    → may_read m user ≡ true
    → (m.sender_id ≡ user) ⊎ (m.recipient_id ≡ user)
unfolding may_read
entitled_by m user h = elim (Bool-cases (str_eq m.sender_id user)) [
  | inl t ↦ inl ((str_eq_iff m.sender_id user).0 t)
  | inr f ↦ inr ((str_eq_iff m.recipient_id user).0 (rw f at h))
]

read_found :
    (r : Result String (Option (List ℕ))) (index count i n : ℕ) (chunk : List ℕ)
    → read_answer r index count ≡ chunk_found i n chunk
    → r ≡ ok (some chunk)
read_found (err e) index count i n chunk h = cc (h)
read_found (ok none) index count i n chunk h = cc (h)
read_found (ok (some c)) index count i n chunk h = ap (λ x. ok (some x)) (cc (h))

module _ (v : Service) (attachment : String) (index now i n : ℕ) (chunk : List ℕ) where
  answer-IsAllowed :
      (user : String) (w : State v.depot) (found : State v.depot × Option AttachmentManifest)
      → get_attachment_manifest v.depot attachment now w ≡ found
      → (chunk_answer v found user attachment index).1 ≡ chunk_found i n chunk
      → IsAllowed v user attachment index now w chunk
  answer-IsAllowed user w (w', none) e h = cc (h)
  answer-IsAllowed user w (w', some m) e h = elim (Bool-cases (may_read m user)) [
    | inr f ↦ cc (rw f at h)
    | inl may ↦ elim (Bool-cases (leb m.chunk_count index)) [
      | inl out ↦ cc (rw (may, out) at h)
      | inr inside ↦
          let stands = manifest_stands v.depot attachment now m w (ap (λ x. x.1) e) in
          record {
            manifest = m;
            found = ap (λ x. x.1) e;
            own = stands.0;
            unexpired = stands.1;
            entitled = entitled_by m user may;
            in_range = ground arith;
            stored =
                ap (λ x. v.depot.read_chunk attachment index x.0.disk) e
                ∙ read_found (v.depot.read_chunk attachment index w'.disk) index m.chunk_count i n
                    chunk (rw (may, inside) at h);
          }
    ]
  ]

  as-IsAllowed :
      (user : Option String) (w : State v.depot)
      → (chunk_as v user attachment index now w).1 ≡ chunk_found i n chunk
      → (a : String) × (user ≡ some a) × IsAllowed v a attachment index now w chunk
  as-IsAllowed none w h = cc (h)
  as-IsAllowed (some a) w h = elim (Bool-cases (is_uuid_v4 attachment)) [
    | inl t ↦ (
      a,
      refl,
      answer-IsAllowed a w (get_attachment_manifest v.depot attachment now w) refl (rw t at h),
    )
    | inr f ↦ cc (rw f at h)
  ]

-- A chunk is given only to the sender or the recipient of its attachment, before the attachment
-- expires: there is a manifest of this attachment that names the user as one of them, the chunk's index
-- is one that the manifest has, and the bytes are those that are stored for it.
pub read_chunk_route-IsAllowed :
    (v : Service) (user attachment : String) (index now : ℕ) (w : State v.depot)
    → (i n : ℕ) (chunk : List ℕ)
    → (read_chunk_route v (some user) attachment index now w).1 ≡ chunk_found i n chunk
    → IsAllowed v user attachment index now w chunk
unfolding read_chunk_route
read_chunk_route-IsAllowed v user attachment index now w i n chunk h =
    let proof = as-IsAllowed v attachment index now i n chunk (present (some user)) w h in
    subst (λ a. IsAllowed v a attachment index now w chunk)
      (sym (present-eq-some user proof.0 proof.1)) proof.2
