-- ===== src/Backend/LinkPreview/Pages.antt =====
-- What backend/src/routes/link-preview.ts reads of a page.
use private_communication.Common.{
  String, Bool, false, not, ◌||◌, Option, none, some, List, [], ◌∷◌, str_eq, if◌then◌else◌,
}
use private_communication.Backend.LinkPreview.{
  or_else_text, lookup_value, is_text, Url, Preview, MetaAttributes, Attribute, by_property,
  by_name, LinkPreview, Answer, previewed, preview_error, trimmed, resolve_preview_image_url,
}

module _ (p : Preview) where
  abbrev pub set_attribute : String → String → MetaAttributes → MetaAttributes
  set_attribute name value a =
      if str_eq name "content"
      then record a { content = some value }
      else if str_eq name "name"
      then record a { name = some value }
      else if str_eq name "property"
      then record a { property = some value }
      else a

  unfoldable pub add_attributes : List (String × String) → MetaAttributes → MetaAttributes
  add_attributes [] a = a
  add_attributes (x ∷ xs) a = add_attributes xs (set_attribute (p.lower x.0) x.1 a)

  unfoldable pub get_html_attributes : List (String × String) → MetaAttributes
  get_html_attributes tag =
      add_attributes tag (record { content = none; name = none; property = none })

  unfoldable pub find_meta : List (List (String × String)) → Attribute → String → Option String
  find_meta [] attr key = none
  find_meta (tag ∷ tags) attr key =
      let rest = find_meta tags attr key in
      let attributes = get_html_attributes tag in
      if is_text key (lookup_value attr attributes)
      then or_else_text (trimmed p attributes.content) rest
      else rest

  abbrev pub extract_meta : String → Attribute → String → Option String
  extract_meta html attr key = find_meta (p.meta_tags html) attr key

  abbrev pub trimmed_title : Option String → Option String
  trimmed_title none = none
  trimmed_title (some s) = some (p.trim s)

  abbrev pub extract_title : String → Option String
  extract_title html = trimmed_title (p.title_text html)

  unfoldable pub build_link_preview : Url → String → LinkPreview
  build_link_preview u html = record {
    url = u.text;
    title = or_else_text (extract_meta html by_property "og:title") (extract_title html);
    description =
        or_else_text (extract_meta html by_property "og:description")
          (extract_meta html by_name "description");
    image = resolve_preview_image_url p (extract_meta html by_property "og:image") u;
    site_name = extract_meta html by_property "og:site_name";
  }

  -- The schema of the response: a title is not empty, and the two addresses are URLs.
  abbrev pub empty_text : Option String → Bool
  empty_text none = false
  empty_text (some s) = str_eq s ""

  abbrev pub no_url : Option String → Bool
  no_url none = false
  no_url (some s) = not (p.is_url s)

  unfoldable pub send_preview : LinkPreview → Answer
  send_preview l =
      if not (p.is_url l.url)
        || empty_text l.title
        || empty_text l.description
        || no_url l.image
        || empty_text l.site_name
      then preview_error 500 "Invalid response payload"
      else previewed l
