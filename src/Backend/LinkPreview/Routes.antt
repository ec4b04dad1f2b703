-- ===== src/Backend/LinkPreview/Routes.antt =====
-- The two routes of backend/src/routes/link-preview.ts.
use text.Mathlib.Text.{starts_with}
use private_communication.Common.{String, not, Option, none, some, List, [], ◌∷◌, if◌then◌else◌}
use private_communication.Backend.LinkPreview.{
  max_chars, Url, Fetched, failed, response, Preview, Target, target, no_target, Answer,
  image_found, preview_error, get_preview_target_url,
}
use private_communication.Backend.LinkPreview.Pages.{build_link_preview, send_preview}

module _ (p : Preview) where
  abbrev pub body_answer : Url → Option String → Answer
  body_answer u none = preview_error 502 "Preview fetch failed"
  body_answer u (some html) = send_preview p (build_link_preview p u (p.first_chars max_chars html))

  abbrev pub text_or_empty : Option String → String
  text_or_empty none = ""
  text_or_empty (some s) = s

  abbrev pub fetched_answer : Url → Fetched → Answer
  fetched_answer u failed = preview_error 502 "Preview fetch failed"
  fetched_answer u (response is_ok content_type body) =
      if not is_ok
      then preview_error 502 "Failed to fetch URL"
      else if not (p.includes (text_or_empty content_type) "text/html")
      then preview_error 415 "Unsupported content type"
      else body_answer u body

  -- The addresses that are fetched, those of redirects included, and the answer.
  abbrev pub target_answer : Target → (List String × Answer)
  target_answer (no_target status error) = ([], preview_error status error)
  target_answer (target u) = (u.text ∷ p.redirects u.text, fetched_answer u (p.fetch u.text))

  -- GET /
  unfoldable pub link_preview : Option String → (List String × Answer)
  link_preview value = target_answer (get_preview_target_url p value)

  abbrev pub type_or_bytes : Option String → String
  type_or_bytes none = "application/octet-stream"
  type_or_bytes (some s) = s

  abbrev pub image_body : String → Option String → Answer
  image_body content_type none = preview_error 502 "Image fetch failed"
  image_body content_type (some body) = image_found content_type body

  abbrev pub image_answer : Fetched → Answer
  image_answer failed = preview_error 502 "Image fetch failed"
  image_answer (response is_ok content_type body) =
      if not is_ok
      then preview_error 502 "Failed to fetch image"
      else if not (starts_with (p.lower (type_or_bytes content_type)) "image/")
      then preview_error 415 "Unsupported image content type"
      else image_body (type_or_bytes content_type) body

  abbrev pub image_target_answer : Target → (List String × Answer)
  image_target_answer (no_target status error) = ([], preview_error status error)
  image_target_answer (target u) = (u.text ∷ p.redirects u.text, image_answer (p.fetch u.text))

  -- GET /image
  unfoldable pub preview_image : Option String → (List String × Answer)
  preview_image value = image_target_answer (get_preview_target_url p value)
