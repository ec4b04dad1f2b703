-- ===== src/Backend/Attachments/Store.antt =====
-- Where uploads and attachments are kept: backend/src/services/attachments.ts. Redis and the disk are
-- parameters.
pub mod Sessions
pub mod Manifests
use Prim.Native.String.{◌++◌ as str_append}
use private_communication.Common.{
  ℕ, zero, suc, ◌+◌, ◌-◌, ◌/◌, String, Bool, true, false, not, ◌&&◌, ◌||◌, Option, none, some, List,
  [], ◌∷◌, str_eq, leb, ◌==◌, max, if◌then◌else◌, utf8, present, Result,
}
use private_communication.Backend.Redis.{Client}
use private_communication.Backend.Attachments.Policy.{AttachmentKind}

pub record UploadSession : Type 0 where
  pub upload_id : String
  pub attachment_id : String
  pub sender_id : String
  pub recipient_id : String
  pub file_name : String
  pub mime_type : String
  pub kind : AttachmentKind
  pub total_size : ℕ
  pub chunk_size : ℕ
  pub chunk_count : ℕ
  pub hash_sha256 : Option String
  pub received_chunks : List ℕ
  pub created_at : ℕ
  pub expires_at : ℕ

-- `cipher` is always 'AES-GCM'.
pub record AttachmentManifest : Type 0 where
  pub attachment_id : String
  pub upload_id : String
  pub sender_id : String
  pub recipient_id : String
  pub file_name : String
  pub mime_type : String
  pub kind : AttachmentKind
  pub total_size : ℕ
  pub chunk_size : ℕ
  pub chunk_count : ℕ
  pub created_at : ℕ
  pub expires_at : ℕ
  pub hash_sha256 : Option String
  pub signature : Option String

-- UUID_V4_PATTERN: groups of 8, 4, 4, 4 and 12 digits, the third with the version 4 in front, the
-- fourth with 8, 9, a or b in front.
abbrev pub is_hex_code : ℕ → Bool
is_hex_code c = (leb 48 c && leb c 57) || (leb 97 c && leb c 102)

abbrev pub is_variant_code : ℕ → Bool
is_variant_code c = c == 56 || c == 57 || c == 97 || c == 98

abbrev pub is_code : ℕ → ℕ → Bool
is_code d c = c == d

unfoldable pub code_tests : ℕ → List (ℕ → Bool) → List (ℕ → Bool)
code_tests zero rest = rest
code_tests (suc n) rest = is_hex_code ∷ code_tests n rest

unfoldable pub matches : List (ℕ → Bool) → List ℕ → Bool
matches [] [] = true
matches [] (c ∷ cs) = false
matches (t ∷ ts) [] = false
matches (t ∷ ts) (c ∷ cs) = t c && matches ts cs

unfoldable pub is_uuid_v4 : String → Bool
is_uuid_v4 value =
    matches
      (code_tests 8 (
        is_code 45
        ∷ code_tests 4 (
            is_code 45
            ∷ is_code 52
            ∷ code_tests 3
                (is_code 45 ∷ is_variant_code ∷ code_tests 3 (is_code 45 ∷ code_tests 12 [])))))
      (utf8 value)

-- What the service asks of Redis and of the disk. `read_session` and `read_manifest` are JSON.parse on
-- a stored text, `none` where it throws or where `receivedChunks` is no array. A chunk is stored under
-- its attachment and its index; `err` is an error other than a missing file.
pub record Depot : Type 1 where
  pub client : Client
  pub Disk : Type 0
  pub write_chunk : String → ℕ → List ℕ → Disk → Result String Disk
  pub read_chunk : String → ℕ → Disk → Result String (Option (List ℕ))
  pub remove_directory : String → Disk → Disk
  pub session_text : UploadSession → String
  pub read_session : String → Option UploadSession
  pub manifest_text : AttachmentManifest → String
  pub read_manifest : String → Option AttachmentManifest
  pub ttl_seconds : ℕ

pub record Stored (R D : Type 0) : Type 0 where
  pub redis : R
  pub disk : D

-- REDIS_KEYS
abbrev pub upload_session_key : String → String
upload_session_key id = str_append "attachments:uploadSession:" id

abbrev pub upload_attachment_index : String → String
upload_attachment_index id = str_append "attachments:uploadAttachment:" id

abbrev pub attachment_upload_index : String → String
attachment_upload_index id = str_append "attachments:attachmentUpload:" id

abbrev pub attachment_manifest_key : String → String
attachment_manifest_key id = str_append "attachments:manifest:" id

abbrev pub attachment_cleanup_lease : String → String
attachment_cleanup_lease id = str_append "attachments:cleanup:" id

-- `Math.max(1, Math.ceil((expiresAt - now) / 1000))`
unfoldable pub to_positive_ttl_seconds : ℕ → ℕ → ℕ
to_positive_ttl_seconds expires_at now = max 1 ((expires_at - now + 999) / 1000)

module _ (v : Depot) where
  abbrev pub State : Type 0
  State = Stored v.client.State v.Disk

  abbrev pub on_redis : (v.client.State → v.client.State) → State → State
  on_redis f w = record w { redis = f w.redis }

  abbrev pub delete_key : String → State → State
  delete_key key w = on_redis (v.client.del key) w

  abbrev pub delete_upload : Option String → v.client.State → v.client.State
  delete_upload none r = r
  delete_upload (some upload) r =
      v.client.del (upload_session_key upload) (v.client.del (upload_attachment_index upload) r)

  unfoldable pub get_upload_id_by_attachment_id : String → State → Option String
  get_upload_id_by_attachment_id id w =
      if is_uuid_v4 id then v.client.get (attachment_upload_index id) w.redis else none

  unfoldable pub get_attachment_id_by_upload_id : String → State → Option String
  get_attachment_id_by_upload_id id w =
      if is_uuid_v4 id then v.client.get (upload_attachment_index id) w.redis else none

  -- removeAttachmentArtifacts, whose callers have an identifier that is a UUID.
  unfoldable pub remove_attachment_artifacts : String → State → State
  remove_attachment_artifacts id w =
      let upload = present (get_upload_id_by_attachment_id id w) in
      record {
        redis = delete_upload upload (
            v.client.del (attachment_upload_index id) (
              v.client.del (attachment_cleanup_lease id)
                (v.client.del (attachment_manifest_key id) w.redis)));
        disk = v.remove_directory id w.disk;
      }

  unfoldable pub has_attachment_cleanup_lease : String → State → Bool
  has_attachment_cleanup_lease id w = v.client.exists (attachment_cleanup_lease id) w.redis == 1

  unfoldable pub remove_artifacts_if_lease_missing : String → State → State
  remove_artifacts_if_lease_missing id w =
      if has_attachment_cleanup_lease id w then w else remove_attachment_artifacts id w

  -- The entries that an upload and a manifest have in common.
  unfoldable pub set_indexes : String → String → ℕ → v.client.State → v.client.State
  set_indexes upload attachment ttl r =
      v.client.set_ex (attachment_cleanup_lease attachment) "1" ttl (
        v.client.set_ex (attachment_upload_index attachment) upload ttl
          (v.client.set_ex (upload_attachment_index upload) attachment ttl r))
