-- ===== src/Backend/Attachments/Policy.antt =====
-- What may be uploaded: backend/src/utils/attachments.ts. The limits and the rules for MIME types come
-- from the environment.
use Prim.Native.Char.{code}
use text.Mathlib.Text.{starts_with}
use private_communication.Common.{
  ℕ, String, Bool, true, false, Option, none, some, List, [], ◌∷◌, str_eq, ltb, ◌==◌, if◌then◌else◌,
}

pub data AttachmentKind : Type 0 where
  audio_kind image_kind video_kind document_kind other_kind : AttachmentKind

pub record AttachmentMimePolicy : Type 0 where
  pub kind : AttachmentKind
  pub rule : String

pub record AttachmentPolicyLimits : Type 0 where
  pub file_max_bytes : ℕ
  pub audio_max_bytes : ℕ
  pub image_max_bytes : ℕ
  pub video_max_bytes : ℕ
  pub document_max_bytes : ℕ
  pub mime_policies : List AttachmentMimePolicy

-- The codes that the routes answer with.
pub data AttachmentErrorCode : Type 0 where
  attachments_disabled invalid_file_metadata unauthorized : AttachmentErrorCode
  recipient_not_allowed upload_not_found upload_incomplete : AttachmentErrorCode
  file_too_large_file file_too_large_audio file_too_large_image : AttachmentErrorCode
  file_too_large_video file_too_large_document file_type_not_allowed : AttachmentErrorCode
  attachment_not_found chunk_not_found chunk_hash_mismatch upload_storage_error :
      AttachmentErrorCode

unfoldable pub ends_with_slash : String → Bool
ends_with_slash String.[] = false
ends_with_slash (String.◌∷◌ c String.[]) = code c == 47
ends_with_slash (String.◌∷◌ c (String.◌∷◌ d s)) = ends_with_slash (String.◌∷◌ d s)

unfoldable pub starts_with_mime_rule : String → String → Bool
starts_with_mime_rule mime_type rule =
    if ends_with_slash rule then starts_with mime_type rule else str_eq mime_type rule

-- The first policy whose rule the type meets.
unfoldable pub find_policy : String → List AttachmentMimePolicy → Option AttachmentMimePolicy
find_policy mime_type [] = none
find_policy mime_type (p ∷ policies) =
    if starts_with_mime_rule mime_type p.rule then some p else find_policy mime_type policies

abbrev pub is_found : Option AttachmentMimePolicy → Bool
is_found none = false
is_found (some p) = true

abbrev pub kind_of_policy : Option AttachmentMimePolicy → AttachmentKind
kind_of_policy none = other_kind
kind_of_policy (some p) = p.kind

module _ (l : AttachmentPolicyLimits) where
  unfoldable pub is_mime_type_allowed : String → Bool
  is_mime_type_allowed mime_type =
      if str_eq mime_type "" then false else is_found (find_policy mime_type l.mime_policies)

  unfoldable pub get_attachment_kind_from_mime_type : String → AttachmentKind
  get_attachment_kind_from_mime_type mime_type =
      kind_of_policy (find_policy mime_type l.mime_policies)

  unfoldable pub get_max_bytes_for_attachment_kind : AttachmentKind → ℕ
  get_max_bytes_for_attachment_kind audio_kind = l.audio_max_bytes
  get_max_bytes_for_attachment_kind image_kind = l.image_max_bytes
  get_max_bytes_for_attachment_kind video_kind = l.video_max_bytes
  get_max_bytes_for_attachment_kind document_kind = l.document_max_bytes
  get_max_bytes_for_attachment_kind other_kind = l.file_max_bytes

  unfoldable pub get_size_error_code_for_kind : AttachmentKind → AttachmentErrorCode
  get_size_error_code_for_kind audio_kind = file_too_large_audio
  get_size_error_code_for_kind image_kind = file_too_large_image
  get_size_error_code_for_kind video_kind = file_too_large_video
  get_size_error_code_for_kind document_kind = file_too_large_document
  get_size_error_code_for_kind other_kind = file_too_large_file

  unfoldable pub get_attachment_size_error : AttachmentKind → ℕ → Option AttachmentErrorCode
  get_attachment_size_error kind size_bytes =
      if size_bytes == 0
      then some invalid_file_metadata
      else if ltb (get_max_bytes_for_attachment_kind kind) size_bytes
      then some (get_size_error_code_for_kind kind)
      else none
