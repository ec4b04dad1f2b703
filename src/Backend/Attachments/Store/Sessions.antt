-- ===== src/Backend/Attachments/Store/Sessions.antt =====
-- The sessions of uploads in backend/src/services/attachments.ts.
use private_communication.Common.{
  ℕ, String, not, ◌&&◌, Option, none, some, leb, if◌then◌else◌, present,
}
use private_communication.Backend.Attachments.Chunks.{includes, mark_received}
use private_communication.Backend.Attachments.Store.{
  is_uuid_v4, upload_session_key, to_positive_ttl_seconds, UploadSession, Depot, State, on_redis,
  delete_key, remove_attachment_artifacts, set_indexes,
}

module _ (v : Depot) where
  unfoldable pub set_attachment_upload_session : UploadSession → ℕ → State v → State v
  set_attachment_upload_session session now w =
      let ttl = to_positive_ttl_seconds session.expires_at now in
      on_redis v
        (λ r.
          set_indexes v session.upload_id session.attachment_id ttl
            (v.client.set_ex (upload_session_key session.upload_id) (v.session_text session) ttl r))
        w

  -- The checks on a session that was read: the state, and the session if it still stands.
  abbrev pub checked_session :
      Option UploadSession → String → ℕ → State v → (State v × Option UploadSession)
  checked_session none id now w = (delete_key v (upload_session_key id) w, none)
  checked_session (some session) id now w =
      if not (is_uuid_v4 session.upload_id && is_uuid_v4 session.attachment_id)
      then (delete_key v (upload_session_key id) w, none)
      else if leb session.expires_at now
      then (
        remove_attachment_artifacts v session.attachment_id
            (delete_key v (upload_session_key id) w),
        none,
      )
      else (w, some session)

  abbrev pub parsed_session :
      Option String → String → ℕ → State v → (State v × Option UploadSession)
  parsed_session none id now w = (w, none)
  parsed_session (some raw) id now w = checked_session (v.read_session raw) id now w

  unfoldable pub get_attachment_upload_session :
      String → ℕ → State v → (State v × Option UploadSession)
  get_attachment_upload_session id now w =
      if is_uuid_v4 id
      then parsed_session (present (v.client.get (upload_session_key id) w.redis)) id now w
      else (w, none)

  unfoldable pub clear_attachment_upload_session : String → State v → State v
  clear_attachment_upload_session id w =
      if is_uuid_v4 id then delete_key v (upload_session_key id) w else w

  abbrev pub mark_session :
      Option UploadSession → ℕ → ℕ → State v → (State v × Option UploadSession)
  mark_session none index now w = (w, none)
  mark_session (some session) index now w =
      let marked = record session {
        received_chunks = mark_received index session.received_chunks;
      } in
      (
        if includes session.received_chunks index
            then w
            else set_attachment_upload_session marked now w,
        some marked,
      )

  unfoldable pub mark_upload_chunk_received :
      String → ℕ → ℕ → State v → (State v × Option UploadSession)
  mark_upload_chunk_received id index now w =
      let found = get_attachment_upload_session id now w in mark_session found.1 index now found.0
