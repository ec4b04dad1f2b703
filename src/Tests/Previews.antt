-- ===== src/Tests/Previews.antt =====
-- A page with an image on a private address, and hosts that are blocked or not.
use private_communication.Common.{
  ◌≡◌, ◌↔◌, ◌⊎◌, refl, String, true, false, none, some, [], ◌∷◌, present, str_eq,
}
use private_communication.Backend.LinkPreview.{
  Url, response, Preview, target, LinkPreview, previewed, preview_error, lists, is_blocked_ip,
  is_blocked_host, is_allowlisted_host, is_allowed_preview_target_url, trimmed,
  get_preview_target_url,
}
use private_communication.Backend.LinkPreview.Pages.{
  add_attributes, get_html_attributes, find_meta, build_link_preview, send_preview,
}
use private_communication.Backend.LinkPreview.Routes.{link_preview, preview_image}
use private_communication.Backend.LinkPreview.Allowed.{
  IsChecked, get_preview_target_url_iff, link_preview-IsChecked, asked_first,
}

abbrev url_of : String → Url
url_of host = record { protocol = "https:"; hostname = host; text = host }

-- The URL of a text is the one whose host it is, and the page has a title and an image.
abbrev setting : (title image : String) → Preview
setting title image = record {
  allowlist = "*" ∷ [];
  is_production = true;
  trim = λ s. s;
  lower = λ s. s;
  ends_with = λ s e. false;
  includes = str_eq;
  first_chars = λ n s. s;
  second_part = λ s. some "16";
  whole_number = λ s. some 16;
  is_ip = λ s. 4;
  parse_url = λ s. some (url_of s);
  resolve_url = λ s u. some (url_of s);
  meta_tags = λ html. (("property", "og:image") ∷ ("content", image) ∷ []) ∷ [];
  title_text = λ html. some title;
  is_url = λ s. true;
  redirects = λ s. "10.0.0.1" ∷ [];
  fetch = λ s. response true (some "text/html") (some "<html>");
}

abbrev page : Preview
page = setting "A page" "10.0.0.1"

abbrev a_preview : LinkPreview
a_preview = record {
  url = "page";
  title = some "A page";
  description = none;
  image = none;
  site_name = none;
}

page_previewed : (link_preview page (some "page")).1 ≡ previewed a_preview
unfolding link_preview get_preview_target_url is_blocked_host is_blocked_ip is_allowlisted_host
    lists is_allowed_preview_target_url find_meta get_html_attributes add_attributes
    build_link_preview send_preview present
page_previewed = refl

link_preview-IsChecked_example :
    IsChecked page (some "page") (link_preview page (some "page")).0 a_preview
link_preview-IsChecked_example = link_preview-IsChecked page (some "page") a_preview page_previewed

get_preview_target_url_iff_example :
    (get_preview_target_url page (some "page") ≡ target (url_of "page")) ↔ (
      (text : String) × (trimmed page (some "page") ≡ some text)
      × (page.parse_url text ≡ some (url_of "page"))
      × (is_allowed_preview_target_url page (url_of "page") ≡ true))
get_preview_target_url_iff_example = get_preview_target_url_iff page (some "page") (url_of "page")

asked_first_example :
    ((link_preview page (some "page")).0 ≡ (preview_image page (some "page")).0)
    × (((link_preview page (some "page")).0 ≡ [])
        ⊎ ((u : Url) × ((link_preview page (some "page")).0 ≡ u.text ∷ page.redirects u.text)
            × (is_allowed_preview_target_url page u ≡ true)))
asked_first_example = asked_first page (some "page")

-- A page with an empty title has no preview.
empty_title :
    (link_preview (setting "" "x") (some "page")).1 ≡ preview_error 500 "Invalid response payload"
unfolding link_preview get_preview_target_url is_blocked_host is_blocked_ip is_allowlisted_host
    lists is_allowed_preview_target_url find_meta get_html_attributes add_attributes
    build_link_preview send_preview present
empty_title = refl

-- Addresses that a host has for itself or for its network.
blocked_hosts :
    (is_blocked_host page "localhost" ≡ true)
    × (is_blocked_host page "172.16.0.1" ≡ true)
    × (is_blocked_host page "127.0.0.2" ≡ false)
    × (is_blocked_host page "169.254.169.254" ≡ false)
    × (is_blocked_host page "[::1]" ≡ false)
unfolding is_blocked_host is_blocked_ip
blocked_hosts = (refl, refl, refl, refl, refl)
