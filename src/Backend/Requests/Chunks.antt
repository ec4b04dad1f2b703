-- ===== src/Backend/Requests/Chunks.antt =====
-- Who is given a chunk by the whole of the server: middleware and route.
use private_communication.Common.{
  ℕ, ◌≡◌, refl, ap, subst, sym, ◌∙◌, String, true, false, Option, none, some, List, lookup,
  string_key, present, Bool-cases, inl, inr, if◌then◌else◌,
}
use private_communication.Backend.Attachments.Store.{State}
use private_communication.Backend.Attachments.Routes.{Response, Service, Answer, chunk_found}
use private_communication.Backend.Attachments.Downloads.{read_chunk_route}
use private_communication.Backend.Attachments.Access.{IsAllowed, read_chunk_route-IsAllowed}
use private_communication.Backend.Requests.{
  Request, AuthParams, Gate, Passage, next, denied, given_params, header_params,
  extract_auth_params, refusal_of, passage, is_listed, origin_passage, require_signed_request,
  validate_origin, route_after, after_origin, serve_chunk,
}
use private_communication.Backend.Requests.Signed.{
  IsSigned, found-IsSigned, require_signed_request-enabled,
}

pub record IsOrigin (r : Request) (allowed : List String) : Type 0 where
  pub origin : String
  pub given : present (lookup "origin" r.headers) ≡ some origin
  pub listed : is_listed origin allowed ≡ true

given_user :
    (g : Gate) (user stamp signature signing encryption : Option String) (p : AuthParams)
    → given_params g user stamp signature signing encryption ≡ some p
    → user ≡ some p.user_id
given_user g (some a) (some b) (some c) (some d) (some e) p h = cc (h)
given_user g none b c d e p h = cc (h)
given_user g (some a) none c d e p h = cc (h)
given_user g (some a) (some b) none d e p h = cc (h)
given_user g (some a) (some b) (some c) none e p h = cc (h)
given_user g (some a) (some b) (some c) (some d) none p h = cc (h)

module _ (g : Gate) (r : Request) where
  header_user :
      (p : AuthParams)
      → header_params g r ≡ some p
      → lookup "x-auth-user-id" r.headers ≡ some p.user_id
  unfolding header_params
  header_user p h =
      given_user g (lookup "x-auth-user-id" r.headers) (lookup "x-auth-timestamp" r.headers)
        (lookup "x-auth-signature" r.headers) (lookup "x-auth-signing-public-key" r.headers)
        (lookup "x-auth-encryption-public-key" r.headers) p h

  headers_first : (p : AuthParams) → header_params g r ≡ some p → extract_auth_params g r ≡ some p
  unfolding extract_auth_params
  headers_first p h = rw h refl

  origin_passage-IsOrigin :
      (o : Option String) (allowed : List String)
      → present (lookup "origin" r.headers) ≡ o
      → origin_passage o allowed ≡ next
      → IsOrigin r allowed
  origin_passage-IsOrigin none allowed e h = cc (h)
  origin_passage-IsOrigin (some origin) allowed e h = elim (Bool-cases (is_listed origin allowed)) [
    | inl t ↦ record { origin = origin; given = e; listed = t }
    | inr f ↦ cc (rw f at h)
  ]

  validate_origin-enabled :
      (allowed : List String)
      → g.auth_disabled ≡ false
      → validate_origin g allowed r ≡ origin_passage (present (lookup "origin" r.headers)) allowed
  unfolding validate_origin
  validate_origin-enabled allowed on =
      ap (λ b. if b then next else origin_passage (present (lookup "origin" r.headers)) allowed) on

  refusal_of-IsSigned :
      (now : ℕ) (p : AuthParams)
      → extract_auth_params g r ≡ some p
      → refusal_of g r now (extract_auth_params g r) ≡ none
      → IsSigned g r now p
  refusal_of-IsSigned now p given h =
      let found = found-IsSigned g r now (extract_auth_params g r) refl h in
      let same : found.0 ≡ p = cc (found.1.given, given) in subst (IsSigned g r now) same found.1

module _ (g : Gate) (allowed : List String) (v : Service) where
  origin_passed :
      (o : Passage) (r : Request) (a : Answer v) (now : ℕ) (w : State v.depot) (f : ℕ)
      (x : Response)
      → (after_origin g allowed v o r a now w f).1.1 ≡ some x
      → (o ≡ next) × ((route_after g allowed v (require_signed_request g r now f) a w).1.1 ≡ some x)
  origin_passed next r a now w f x h = (refl, h)
  origin_passed (denied status error) r a now w f x h = cc (h)

  route_passed :
      (o : Option String) (f : ℕ) (a : Answer v) (w : State v.depot) (x : Response)
      → (route_after g allowed v (passage o f) a w).1.1 ≡ some x
      → (o ≡ none) × (a.1 ≡ x)
  route_passed none f a w x h = (refl, cc (h))
  route_passed (some error) f a w x h = cc (h)

-- On the whole way through the server, with authentication on: a chunk is given to a request that
-- carries its authentication in the headers only if the request comes from an allowed origin, is signed by
-- the user that it names, and this user is the sender or the recipient of the attachment, which has not
-- expired.
pub serve_chunk-IsAllowed :
    (g : Gate) (allowed : List String) (v : Service) (r : Request) (attachment : String)
    → (index now : ℕ) (w : State v.depot) (failures : ℕ) (p : AuthParams)
    → (i n : ℕ) (chunk : List ℕ) → g.auth_disabled ≡ false
    → header_params g r ≡ some p
    → (serve_chunk g allowed v r attachment index now w failures).1.1 ≡ some (chunk_found i n chunk)
    → IsOrigin r allowed × IsSigned g r now p × IsAllowed v p.user_id attachment index now w chunk
unfolding serve_chunk
serve_chunk-IsAllowed g allowed v r attachment index now w failures p i n chunk on given h =
    let answer = read_chunk_route v (lookup "x-auth-user-id" r.headers) attachment index now w in
    let through =
      origin_passed g allowed v (validate_origin g allowed r) r answer now w failures
        (chunk_found i n chunk) h in
    let passed =
      route_passed g allowed v (refusal_of g r now (extract_auth_params g r)) failures answer w
        (chunk_found i n chunk)
        (subst (λ y. (route_after g allowed v y answer w).1.1 ≡ some (chunk_found i n chunk))
          (require_signed_request-enabled g r now failures on) through.1) in
    (
      origin_passage-IsOrigin g r (present (lookup "origin" r.headers)) allowed refl
          (sym (validate_origin-enabled g r allowed on) ∙ through.0),
      refusal_of-IsSigned g r now p (headers_first g r p given) passed.0,
      read_chunk_route-IsAllowed v p.user_id attachment index now w i n chunk (
          subst (λ o. (read_chunk_route v o attachment index now w).1 ≡ chunk_found i n chunk)
            (header_user g r p given) passed.1),
    )
