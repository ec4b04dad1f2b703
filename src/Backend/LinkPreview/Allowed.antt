-- ===== src/Backend/LinkPreview/Allowed.antt =====
-- Which addresses a preview asks first and gives out.
use private_communication.Common.{
  ◌≡◌, ◌↔◌, ◌⊎◌, refl, ap, sym, subst, String, true, false, not, ◌||◌, Option, none, some, List, [],
  ◌∷◌, Bool-cases, inl, inr, str_eq,
}
use private_communication.Backend.LinkPreview.{
  Url, Fetched, failed, response, Preview, Target, target, no_target, LinkPreview, previewed,
  is_blocked_host, is_allowlisted_host, is_web, is_allowed_preview_target_url, checked_url,
  parsed_target, trimmed, get_preview_target_url, image_text, resolve_preview_image_url,
  by_property, max_chars,
}
use private_communication.Backend.LinkPreview.Pages.{
  extract_meta, build_link_preview, send_preview, empty_text, no_url,
}
use private_communication.Backend.LinkPreview.Routes.{
  body_answer, fetched_answer, target_answer, link_preview, image_target_answer, preview_image,
  text_or_empty,
}

module _ (p : Preview) where
  allowed-checked :
      (u : Url) → is_allowed_preview_target_url p u ≡ true → checked_url p (some u) ≡ target u
  unfolding is_allowed_preview_target_url
  allowed-checked u h = elim (Bool-cases (is_web p u)) [
    | inr f ↦ cc (rw f at h)
    | inl web ↦ elim (Bool-cases (is_blocked_host p u.hostname)) [
      | inl blocked ↦ cc (rw (web, blocked) at h)
      | inr free ↦ elim (Bool-cases (is_allowlisted_host p u.hostname)) [
        | inr other ↦ cc (rw (web, free, other) at h)
        | inl listed ↦ rw (web, free, listed) refl
      ]
    ]
  ]

  checked-allowed :
      (o : Option Url) (u : Url)
      → checked_url p o ≡ target u
      → (o ≡ some u) × (is_allowed_preview_target_url p u ≡ true)
  unfolding is_allowed_preview_target_url
  checked-allowed none u h = cc (h)
  checked-allowed (some x) u h = elim (Bool-cases (is_web p x)) [
    | inr f ↦ cc (rw f at h)
    | inl web ↦ elim (Bool-cases (is_blocked_host p x.hostname)) [
      | inl blocked ↦ cc (rw (web, blocked) at h)
      | inr free ↦ elim (Bool-cases (is_allowlisted_host p x.hostname)) [
        | inr other ↦ cc (rw (web, free, other) at h)
        | inl listed ↦
            let same : x ≡ u = cc (rw (web, free, listed) at h) in
            (
              ap (λ y. some y) same,
              subst (λ y. is_allowed_preview_target_url p y ≡ true) same
                  (rw (web, free, listed) refl),
            )
      ]
    ]
  ]

  parsed-allowed :
      (o : Option String) (u : Url)
      → parsed_target p o ≡ target u
      → (text : String) × (o ≡ some text)
        × (p.parse_url text ≡ some u)
        × (is_allowed_preview_target_url p u ≡ true)
  parsed-allowed none u h = cc (h)
  parsed-allowed (some text) u h =
      let checked = checked-allowed (p.parse_url text) u h in (text, refl, checked.0, checked.1)

-- The parameter of a request is a target exactly if its trimmed text is not empty and is a URL that the
-- check of image addresses allows as well: its protocol is that of the web, its host is not blocked, and
-- the list of hosts admits it. So the two checks of the file agree.
pub get_preview_target_url_iff :
    (p : Preview) (value : Option String) (u : Url)
    → (get_preview_target_url p value ≡ target u) ↔ (
        (text : String) × (trimmed p value ≡ some text)
        × (p.parse_url text ≡ some u)
        × (is_allowed_preview_target_url p u ≡ true))
unfolding get_preview_target_url
get_preview_target_url_iff p value u =
    (parsed-allowed p (trimmed p value) u, λ s. rw s.1 rw s.2 (allowed-checked p u s.3))

-- What a preview rests on.
pub record IsChecked (p : Preview) (value : Option String) (asked : List String) (l : LinkPreview)
    : Type 0 where
  pub page : Url
  pub chosen : get_preview_target_url p value ≡ target page
  pub allowed : is_allowed_preview_target_url p page ≡ true
  pub first : asked ≡ page.text ∷ p.redirects page.text
  pub address : l.url ≡ page.text
  pub image :
      (l.image ≡ none)
      ⊎ ((u : Url) × (l.image ≡ some u.text) × (is_allowed_preview_target_url p u ≡ true))

module _ (p : Preview) where
  image_text-allowed :
      (o : Option Url)
      → (image_text p o ≡ none)
        ⊎ ((u : Url) × (image_text p o ≡ some u.text) × (is_allowed_preview_target_url p u ≡ true))
  image_text-allowed none = inl refl
  image_text-allowed (some u) = elim (Bool-cases (is_allowed_preview_target_url p u)) [
    | inl t ↦ inr (u, rw t refl, t)
    | inr f ↦ inl (rw f refl)
  ]

  resolved-allowed :
      (image : Option String) (base : Url)
      → (resolve_preview_image_url p image base ≡ none)
        ⊎ ((u : Url) × (resolve_preview_image_url p image base ≡ some u.text)
            × (is_allowed_preview_target_url p u ≡ true))
  resolved-allowed none base = inl refl
  resolved-allowed (some image) base = elim (Bool-cases (str_eq image "")) [
    | inl t ↦ inl (rw t refl)
    | inr f ↦ rw f (image_text-allowed (p.resolve_url image base))
  ]

  sent_preview : (l m : LinkPreview) → send_preview p l ≡ previewed m → l ≡ m
  unfolding send_preview
  sent_preview l m h =
      elim (Bool-cases (
        not (p.is_url l.url)
        || empty_text p l.title
        || empty_text p l.description
        || no_url p l.image
        || empty_text p l.site_name)) [ inl t ↦ cc (rw t at h) | inr f ↦ cc (rw f at h) ]

  body_previewed :
      (u : Url) (body : Option String) (m : LinkPreview)
      → body_answer p u body ≡ previewed m
      → (html : String) × (build_link_preview p u html ≡ m)
  body_previewed u none m h = cc (h)
  body_previewed u (some html) m h =
      let cut = p.first_chars max_chars html in (cut, sent_preview (build_link_preview p u cut) m h)

  fetched_previewed :
      (u : Url) (f : Fetched) (m : LinkPreview)
      → fetched_answer p u f ≡ previewed m
      → (html : String) × (build_link_preview p u html ≡ m)
  fetched_previewed u failed m h = cc (h)
  fetched_previewed u (response false type body) m h = cc (h)
  fetched_previewed u (response true type body) m h =
      elim (Bool-cases (p.includes (text_or_empty p type) "text/html")) [
        | inr f ↦ cc (rw f at h)
        | inl t ↦ body_previewed u body m (rw t at h)
      ]

  target_previewed :
      (value : Option String) (t : Target) (m : LinkPreview)
      → get_preview_target_url p value ≡ t
      → (target_answer p t).1 ≡ previewed m
      → IsChecked p value (target_answer p t).0 m
  unfolding build_link_preview
  target_previewed value (no_target status error) m e h = cc (h)
  target_previewed value (target u) m e h =
      let built = fetched_previewed u (p.fetch u.text) m h in
      record {
        page = u;
        chosen = e;
        allowed = ((get_preview_target_url_iff p value u).0 e).3;
        first = refl;
        address = sym (ap (λ x. x.url) built.1);
        image =
            subst
              (λ x.
                (x.image ≡ none)
                ⊎ ((w : Url) × (x.image ≡ some w.text)
                    × (is_allowed_preview_target_url p w ≡ true)))
              built.1 (resolved-allowed (extract_meta p built.0 by_property "og:image") u);
      }

-- A preview that is answered names the address that was asked first, which is the one of the request's
-- parameter and is allowed; its image, where it has one, has an allowed address too, whatever the page
-- holds. The page itself may come from an address that redirects lead to, and these are not checked.
pub link_preview-IsChecked :
    (p : Preview) (value : Option String) (l : LinkPreview)
    → (link_preview p value).1 ≡ previewed l
    → IsChecked p value (link_preview p value).0 l
unfolding link_preview
link_preview-IsChecked p value l h =
    target_previewed p value (get_preview_target_url p value) l refl h

target_asked :
    (p : Preview) (value : Option String) (t : Target)
    → get_preview_target_url p value ≡ t
    → ((target_answer p t).0 ≡ (image_target_answer p t).0)
      × (((target_answer p t).0 ≡ [])
          ⊎ ((u : Url) × ((target_answer p t).0 ≡ u.text ∷ p.redirects u.text)
              × (is_allowed_preview_target_url p u ≡ true)))
target_asked p value (no_target status error) e = (refl, inl refl)
target_asked p value (target u) e =
    (refl, inr (u, refl, ((get_preview_target_url_iff p value u).0 e).3))

-- Whatever is asked for and whatever comes back, both routes ask the same addresses: none at all, or
-- first an allowed address and then only those that redirects from it lead to, which are not checked.
pub asked_first :
    (p : Preview) (value : Option String)
    → ((link_preview p value).0 ≡ (preview_image p value).0)
      × (((link_preview p value).0 ≡ [])
          ⊎ ((u : Url) × ((link_preview p value).0 ≡ u.text ∷ p.redirects u.text)
              × (is_allowed_preview_target_url p u ≡ true)))
unfolding link_preview preview_image
asked_first p value = target_asked p value (get_preview_target_url p value) refl
