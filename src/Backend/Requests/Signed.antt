-- ===== src/Backend/Requests/Signed.antt =====
-- Which requests pass requireSignedRequest.
use private_communication.Common.{
  ℕ, ◌+◌, ◌≤◌, ◌≡◌, ◌≢◌, ◌↔◌, ◌⊎◌, refl, inl, inr, ap, ◌∙◌, String, true, false, Option, none, some,
  str_eq, str_eq_iff, str_eq-ne, apart_by, ltb, arith, Bool-cases, if◌then◌else◌,
}
use private_communication.Pcbk.Value.{Number}
use private_communication.Backend.Requests.{
  Request, AuthParams, Gate, next, denied, distance, extract_auth_params, signed_payload,
  missing_auth, stamped_refusal, timed_refusal, refusal_of, passage, require_signed_request,
}

-- A signature that stands behind a request: by whom, and when.
pub record IsStamped (g : Gate) (r : Request) (p : AuthParams) (now : ℕ) (t : Number) : Type 0 where
  pub fresh : distance g now t ≤ g.auth_window_ms
  pub verified : g.verify (signed_payload g r t) p.signature p.signing_public_key ≡ true
  pub identity : g.hash_public_key p.encryption_public_key ≡ p.user_id

pub record IsSigned (g : Gate) (r : Request) (now : ℕ) (p : AuthParams) : Type 0 where
  pub given : extract_auth_params g r ≡ some p
  pub named : p.user_id ≢ ""
  pub complete : missing_auth p ≡ false
  pub stamp : Number
  pub stamped : p.timestamp ≡ some stamp
  pub sound : IsStamped g r p now stamp

missing_named : (p : AuthParams) → missing_auth p ≡ false → p.user_id ≢ ""
unfolding missing_auth
missing_named p h = elim (Bool-cases (str_eq p.user_id "")) [
  | inl t ↦ cc (rw t at h)
  | inr f ↦ apart_by p.user_id "" f
]

passes_or_counted :
    (o : Option String) (f : ℕ)
    → (passage o f ≡ (f, next)) ⊎ ((error : String) × (passage o f ≡ (f + 1, denied 401 error)))
passes_or_counted none f = inl refl
passes_or_counted (some error) f = inr (error, refl)

module _ (g : Gate) (r : Request) (p : AuthParams) (now : ℕ) where
  stamped_refusal-IsStamped :
      (t : Number) → stamped_refusal g r p now t ≡ none → IsStamped g r p now t
  unfolding stamped_refusal
  stamped_refusal-IsStamped t h = elim (Bool-cases (ltb g.auth_window_ms (distance g now t))) [
    | inl late ↦ cc (rw late at h)
    | inr early ↦
        elim (Bool-cases (g.verify (signed_payload g r t) p.signature p.signing_public_key)) [
          | inr bad ↦ cc (rw (early, bad) at h)
          | inl good ↦ elim (Bool-cases (str_eq (g.hash_public_key p.encryption_public_key) "")) [
            | inl empty ↦ cc (rw (early, good, empty) at h)
            | inr full ↦
                elim (Bool-cases (str_eq (g.hash_public_key p.encryption_public_key) p.user_id)) [
                  | inr other ↦ cc (rw (early, good, full, other) at h)
                  | inl same ↦ record {
                    fresh = ground arith;
                    verified = good;
                    identity =
                        (str_eq_iff (g.hash_public_key p.encryption_public_key) p.user_id).0 same;
                  }
                ]
          ]
        ]
  ]

  IsStamped-passes :
      (t : Number) → p.user_id ≢ "" → IsStamped g r p now t → stamped_refusal g r p now t ≡ none
  unfolding stamped_refusal
  IsStamped-passes t named s =
      let fresh : ltb g.auth_window_ms (distance g now t) ≡ false =
        let h = s.fresh in ground arith in
      let full : str_eq (g.hash_public_key p.encryption_public_key) "" ≡ false =
        rw s.identity (str_eq-ne p.user_id "" named) in
      let same = (str_eq_iff (g.hash_public_key p.encryption_public_key) p.user_id).1 s.identity in
      rw (fresh, s.verified, full, same) refl

  timed-IsSigned :
      (o : Option Number)
      → timed_refusal g r p now o ≡ none
      → (t : Number) × (o ≡ some t) × IsStamped g r p now t
  timed-IsSigned none h = cc (h)
  timed-IsSigned (some t) h = (t, refl, stamped_refusal-IsStamped t h)

module _ (g : Gate) (r : Request) (now : ℕ) where
  pub found-IsSigned :
      (o : Option AuthParams)
      → extract_auth_params g r ≡ o
      → refusal_of g r now o ≡ none
      → (p : AuthParams) × IsSigned g r now p
  found-IsSigned none e h = cc (h)
  found-IsSigned (some p) e h = elim (Bool-cases (missing_auth p)) [
    | inl missing ↦ cc (rw missing at h)
    | inr complete ↦
        let proof = timed-IsSigned g r p now p.timestamp (rw complete at h) in
        (
          p,
          record {
            given = e;
            named = missing_named p complete;
            complete = complete;
            stamp = proof.0;
            stamped = proof.1;
            sound = proof.2;
          },
        )
  ]

  IsSigned-passes : (p : AuthParams) → IsSigned g r now p → refusal_of g r now (some p) ≡ none
  IsSigned-passes p s =
      rw s.complete (
        ap (timed_refusal g r p now) s.stamped ∙ IsStamped-passes g r p now s.stamp s.named s.sound)

passage-next : (o : Option String) (f : ℕ) → (passage o f).1 ≡ next → o ≡ none
passage-next none f h = refl
passage-next (some error) f h = cc (h)

pub require_signed_request-enabled :
    (g : Gate) (r : Request) (now failures : ℕ)
    → g.auth_disabled ≡ false
    → require_signed_request g r now failures
      ≡ passage (refusal_of g r now (extract_auth_params g r)) failures
unfolding require_signed_request
require_signed_request-enabled g r now failures on =
    ap
      (λ b.
        if b
        then (failures, next)
        else passage (refusal_of g r now (extract_auth_params g r)) failures)
      on

-- With authentication on, the requests that pass are exactly the signed ones: those whose parameters are
-- complete, carry a timestamp that is not further from the clock than the window, a signature of the
-- timestamp, the method, the path and the body under the given signing key, and the user's name that the
-- given encryption key hashes to. A request that does not pass is counted as a failure and answered 401.
pub require_signed_request-IsSigned :
    (g : Gate) (r : Request) (now failures : ℕ)
    → g.auth_disabled ≡ false
    → ((require_signed_request g r now failures ≡ (failures, next))
        ↔ ((p : AuthParams) × IsSigned g r now p))
      × ((require_signed_request g r now failures ≡ (failures, next))
          ⊎ ((error : String) × (require_signed_request g r now failures
                ≡ (failures + 1, denied 401 error))))
require_signed_request-IsSigned g r now failures on =
    rw (require_signed_request-enabled g r now failures on) (
      (
        λ h. found-IsSigned g r now (extract_auth_params g r) refl (
            passage-next (refusal_of g r now (extract_auth_params g r)) failures (ap (λ x. x.1) h)),
        λ s. rw s.1.given rw (IsSigned-passes g r now s.0 s.1) refl,
      ),
      passes_or_counted (refusal_of g r now (extract_auth_params g r)) failures,
    )
