-- ===== src/Tests/Attachments.antt =====
-- An upload and a download, with a Redis that is a map and a disk that is a chunk.
use private_communication.Common.{
  ℕ, ◌≡◌, refl, String, true, none, some, List, [], ◌∷◌, arith, string_key, present, ok, str_eq,
}
use private_communication.Backend.Redis.{Client}
use private_communication.Backend.Attachments.Policy.{
  other_kind, is_mime_type_allowed, find_policy, get_attachment_kind_from_mime_type,
  get_attachment_size_error, get_max_bytes_for_attachment_kind, starts_with_mime_rule,
  ends_with_slash,
}
use private_communication.Backend.Attachments.Chunks.{
  includes, mark_received, IsReceived, mark_received-IsReceived, get_expected_chunk_count,
}
use private_communication.Backend.Attachments.Store.{
  UploadSession, AttachmentManifest, Depot, State, is_uuid_v4, code_tests, matches,
}
use private_communication.Backend.Attachments.Store.Sessions.{get_attachment_upload_session}
use private_communication.Backend.Attachments.Store.Manifests.{get_attachment_manifest}
use private_communication.Backend.Attachments.Routes.{
  InitUpload, CompleteUpload, Service, created, completed, chunk_found,
}
use private_communication.Backend.Attachments.Routes.Sending.{
  new_upload_session, init_refusal, init_upload, to_safe_file_name, replace_unsafe, first_units,
  is_unsafe_code,
}
use private_communication.Backend.Attachments.Routes.Completing.{
  manifest_of, complete_checked, complete_upload,
}
use private_communication.Backend.Attachments.Downloads.{read_chunk_route, may_read}
use private_communication.Backend.Attachments.Uploads.{IsWithin, init_upload-IsWithin}
use private_communication.Backend.Attachments.Finished.{IsComplete, complete_upload-IsComplete}
use private_communication.Backend.Attachments.Access.{IsAllowed, read_chunk_route-IsAllowed}
use private_communication.Tests.Servers.{memory}

abbrev an_upload : String
an_upload = "00000000-0000-4000-8000-000000000001"

abbrev pub an_attachment : String
an_attachment = "00000000-0000-4000-8000-000000000002"

abbrev a_session : UploadSession
a_session = record {
  upload_id = an_upload;
  attachment_id = an_attachment;
  sender_id = "alice";
  recipient_id = "bob";
  file_name = "a";
  mime_type = "x/y";
  kind = other_kind;
  total_size = 5;
  chunk_size = 3;
  chunk_count = 2;
  hash_sha256 = none;
  received_chunks = 0 ∷ 1 ∷ [];
  created_at = 7;
  expires_at = 1000;
}

abbrev a_body : CompleteUpload
a_body = record { hash_sha256 = none; manifest_signature = "good" }

abbrev a_manifest : AttachmentManifest
a_manifest = record {
  attachment_id = an_attachment;
  upload_id = an_upload;
  sender_id = "alice";
  recipient_id = "bob";
  file_name = "a";
  mime_type = "x/y";
  kind = other_kind;
  total_size = 5;
  chunk_size = 3;
  chunk_count = 2;
  created_at = 7;
  expires_at = 1000;
  hash_sha256 = none;
  signature = some "good";
}

-- Redis holds a text for every key.
abbrev texts : Client
texts = record memory { get = λ key r. some "text" }

abbrev a_depot : Depot
a_depot = record {
  client = texts;
  Disk = List ℕ;
  write_chunk = λ id i bytes disk. ok bytes;
  read_chunk = λ id i disk. ok (some disk);
  remove_directory = λ id disk. [];
  session_text = λ s. "text";
  read_session = λ s. some a_session;
  manifest_text = λ m. "text";
  read_manifest = λ s. some a_manifest;
  ttl_seconds = 60;
}

abbrev pub service : Service
service = record {
  depot = a_depot;
  enabled = true;
  max_chunk_bytes = 4;
  limits = record {
    file_max_bytes = 100;
    audio_max_bytes = 10;
    image_max_bytes = 10;
    video_max_bytes = 10;
    document_max_bytes = 10;
    mime_policies = record { kind = other_kind; rule = "x/" } ∷ [];
  };
  trim = λ s. s;
  lower = λ s. s;
  sha256 = λ bytes. "hash";
  verify = λ message signature key. str_eq signature "good";
  manifest_payload = λ m. "payload";
}

abbrev pub empty : State a_depot
empty = record { redis = []; disk = 9 ∷ [] }

abbrev a_request : InitUpload
a_request = record {
  recipient_id = "bob";
  file_name = "a";
  mime_type = "x/y";
  total_size = 5;
  chunk_size = 3;
  chunk_count = 2;
  hash_sha256 = none;
}

request_created :
    (init_upload service (some "alice") (some a_request) an_upload an_attachment 7 empty).1
    ≡ created (new_upload_session service "alice" a_request an_upload an_attachment 7)
unfolding init_upload init_refusal present is_mime_type_allowed find_policy
    get_attachment_kind_from_mime_type get_attachment_size_error get_max_bytes_for_attachment_kind
    starts_with_mime_rule ends_with_slash to_safe_file_name replace_unsafe first_units
    is_unsafe_code get_expected_chunk_count
request_created = refl

init_upload-IsWithin_example :
    IsWithin service (new_upload_session service "alice" a_request an_upload an_attachment 7)
init_upload-IsWithin_example =
    init_upload-IsWithin service (some "alice") a_request an_upload an_attachment 7 empty
      (new_upload_session service "alice" a_request an_upload an_attachment 7) (omega arith)
      request_created

upload_completed :
    (complete_upload service (some "alice") (some "key") an_upload (some a_body) 8 empty).1
    ≡ completed (manifest_of service a_session a_body)
unfolding complete_upload present get_attachment_upload_session is_uuid_v4 matches code_tests
    complete_checked
upload_completed = refl

complete_upload-IsComplete_example :
    IsComplete service "alice" "key" an_upload 8 empty (manifest_of service a_session a_body)
complete_upload-IsComplete_example =
    complete_upload-IsComplete service "alice" "key" an_upload a_body 8 empty
      (manifest_of service a_session a_body) upload_completed

chunk_read :
    (read_chunk_route service (some "bob") an_attachment 1 8 empty).1 ≡ chunk_found 1 2 (9 ∷ [])
unfolding read_chunk_route present get_attachment_manifest is_uuid_v4 matches code_tests may_read
chunk_read = refl

read_chunk_route-IsAllowed_example : IsAllowed service "bob" an_attachment 1 8 empty (9 ∷ [])
read_chunk_route-IsAllowed_example =
    read_chunk_route-IsAllowed service "bob" an_attachment 1 8 empty 1 2 (9 ∷ []) chunk_read

mark_received-IsReceived_example :
    IsReceived 5 (mark_received 2 (0 ∷ 3 ∷ [])) × (includes (mark_received 2 (0 ∷ 3 ∷ [])) 2 ≡ true)
mark_received-IsReceived_example =
    mark_received-IsReceived 5 2 (0 ∷ 3 ∷ []) (omega arith) (omega arith)
