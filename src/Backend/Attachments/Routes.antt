-- ===== src/Backend/Attachments/Routes.antt =====
-- The routes of backend/src/routes/attachments.ts. A request is what its route reads of it; the rate
-- limiters, the parsing of bodies and the check of a response against its schema are the framework's.
pub mod Sending
pub mod Completing
use private_communication.Common.{ℕ, String, Bool, Option, List}
use private_communication.Backend.Attachments.Policy.{AttachmentPolicyLimits, AttachmentErrorCode}
use private_communication.Backend.Attachments.Store.{
  UploadSession, AttachmentManifest, Depot, State,
}

-- What a schema has taken from the body of a request.
pub record InitUpload : Type 0 where
  pub recipient_id : String
  pub file_name : String
  pub mime_type : String
  pub total_size : ℕ
  pub chunk_size : ℕ
  pub chunk_count : ℕ
  pub hash_sha256 : Option String

pub record CompleteUpload : Type 0 where
  pub hash_sha256 : Option String
  pub manifest_signature : String

pub record Ack : Type 0 where
  pub upload_id : String
  pub signature : String

pub data Response : Type 0 where
  refused : ℕ → AttachmentErrorCode → Response
  created : UploadSession → Response
  chunk_accepted : (received count : ℕ) → Response
  completed : AttachmentManifest → Response
  acknowledged : String → Response
  manifest_found : AttachmentManifest → Response
  chunk_found : (index count : ℕ) → List ℕ → Response
  status_found : List ℕ → ℕ → Bool → Response

-- The environment of the routes. `trim` and `lower` are the text functions of the language, `sha256` is
-- the hash in hexadecimal digits, `verify` is verifySignature with the key that spkiToPem writes, and
-- `manifest_payload` is JSON.stringify on the fields that a sender signs.
pub record Service : Type 1 where
  pub depot : Depot
  pub enabled : Bool
  pub max_chunk_bytes : ℕ
  pub limits : AttachmentPolicyLimits
  pub trim : String → String
  pub lower : String → String
  pub sha256 : List ℕ → String
  pub verify : (message signature key : String) → Bool
  pub manifest_payload : AttachmentManifest → String

module _ (v : Service) where
  abbrev pub Answer : Type 0
  Answer = (State v.depot × Response)
