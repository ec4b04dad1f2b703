-- ===== src/Backend/LinkPreview.antt =====
-- backend/src/routes/link-preview.ts: which pages the server fetches for a preview, and what it
-- answers with.
pub mod Allowed
pub mod Pages
pub mod Routes
use Prim.Native.String.{◌++◌ as str_append}
use text.Mathlib.Text.{starts_with}
use private_communication.Common.{
  ℕ, String, Bool, true, false, not, ◌&&◌, ◌||◌, Option, none, some, List, [], ◌∷◌, ltb, leb,
  str_eq, present, if◌then◌else◌,
}

-- A URL, with the properties that the code reads and its text.
pub record Url : Type 0 where
  pub protocol : String
  pub hostname : String
  pub text : String

pub data Fetched : Type 0 where
  failed : Fetched
  response : (is_ok : Bool) → (content_type : Option String) → (body : Option String) → Fetched

-- The settings of the environment, the texts, numbers and URLs of JavaScript, net.isIP, and fetch:
-- `redirects` are the addresses that it follows from an address on, and `fetch` is its outcome. The
-- meta tags of a page are the names and values of their attributes, as the two patterns find them.
pub record Preview : Type 0 where
  pub allowlist : List String
  pub is_production : Bool
  pub trim : String → String
  pub lower : String → String
  pub ends_with : (text ending : String) → Bool
  pub includes : (text part : String) → Bool
  pub first_chars : ℕ → String → String
  pub second_part : String → Option String
  pub whole_number : Option String → Option ℕ
  pub is_ip : String → ℕ
  pub parse_url : String → Option Url
  pub resolve_url : String → Url → Option Url
  pub meta_tags : String → List (List (String × String))
  pub title_text : String → Option String
  pub is_url : String → Bool
  pub redirects : String → List String
  pub fetch : String → Fetched

abbrev pub max_chars : ℕ
max_chars = 200000

unfoldable pub lists : String → List String → Bool
lists s [] = false
lists s (entry ∷ entries) = str_eq entry s || lists s entries

pub data Target : Type 0 where
  target : Url → Target
  no_target : (status : ℕ) → (error : String) → Target

pub record MetaAttributes : Type 0 where
  pub content : Option String
  pub name : Option String
  pub property : Option String

pub data Attribute : Type 0 where
  by_property by_name : Attribute

pub record LinkPreview : Type 0 where
  pub url : String
  pub title : Option String
  pub description : Option String
  pub image : Option String
  pub site_name : Option String

pub data Answer : Type 0 where
  previewed : LinkPreview → Answer
  image_found : (content_type body : String) → Answer
  preview_error : (status : ℕ) → (error : String) → Answer

-- A number between 16 and 31.
abbrev pub is_private_second : Option ℕ → Bool
is_private_second none = false
is_private_second (some n) = leb 16 n && leb n 31

abbrev pub or_else_text : Option String → Option String → Option String
or_else_text (some s) other = some s
or_else_text none other = other

abbrev pub lookup_value : Attribute → MetaAttributes → Option String
lookup_value by_property a = a.property
lookup_value by_name a = a.name

abbrev pub is_text : String → Option String → Bool
is_text key none = false
is_text key (some s) = str_eq s key

module _ (p : Preview) where
  abbrev pub allow_all : Bool
  allow_all = lists "*" p.allowlist

  abbrev pub is_empty_list : List String → Bool
  is_empty_list [] = true
  is_empty_list (e ∷ es) = false

  unfoldable pub is_blocked_ip : String → Bool
  is_blocked_ip host =
      starts_with host "10."
      || starts_with host "192.168."
      || (starts_with host "172." && is_private_second (p.whole_number (p.second_part host)))

  unfoldable pub is_blocked_host : String → Bool
  is_blocked_host hostname =
      let host = p.lower hostname in
      str_eq host "localhost"
      || str_eq host "127.0.0.1"
      || str_eq host "::1"
      || (ltb 0 (p.is_ip host) && is_blocked_ip host)

  unfoldable pub matches_entry : String → List String → Bool
  matches_entry host [] = false
  matches_entry host (entry ∷ entries) =
      str_eq host entry || p.ends_with host (str_append "." entry) || matches_entry host entries

  unfoldable pub is_allowlisted_host : String → Bool
  is_allowlisted_host hostname =
      if allow_all
      then true
      else if is_empty_list p.allowlist
      then not p.is_production
      else matches_entry (p.lower hostname) p.allowlist

  abbrev pub is_web : Url → Bool
  is_web u = str_eq u.protocol "http:" || str_eq u.protocol "https:"

  unfoldable pub is_allowed_preview_target_url : Url → Bool
  is_allowed_preview_target_url u =
      is_web u && not (is_blocked_host u.hostname) && is_allowlisted_host u.hostname

  abbrev pub checked_url : Option Url → Target
  checked_url none = no_target 400 "Invalid URL"
  checked_url (some u) =
      if not (is_web u)
      then no_target 400 "Invalid protocol"
      else if is_blocked_host u.hostname
      then no_target 403 "Blocked host"
      else if not (is_allowlisted_host u.hostname)
      then no_target 403 "Domain not allowed"
      else target u

  abbrev pub parsed_target : Option String → Target
  parsed_target none = no_target 400 "Missing url parameter"
  parsed_target (some text) = checked_url (p.parse_url text)

  abbrev pub trimmed : Option String → Option String
  trimmed none = none
  trimmed (some s) = present (some (p.trim s))

  -- The parameter is nothing where the query has no single text for it.
  unfoldable pub get_preview_target_url : Option String → Target
  get_preview_target_url value = parsed_target (trimmed value)

  abbrev pub image_text : Option Url → Option String
  image_text none = none
  image_text (some u) = if is_allowed_preview_target_url u then some u.text else none

  abbrev pub resolve_preview_image_url : Option String → Url → Option String
  resolve_preview_image_url none base = none
  resolve_preview_image_url (some image) base =
      if str_eq image "" then none else image_text (p.resolve_url image base)
