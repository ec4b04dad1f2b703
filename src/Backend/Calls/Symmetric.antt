-- ===== src/Backend/Calls/Symmetric.antt =====
-- The pairs of users in a call: each is the other's peer.
use private_communication.Common.{
  ◌≡◌, ◌≢◌, ◌⊎◌, refl, inl, inr, ap, sym, ◌∙◌, subst, String, none, some, str_eq_iff, Option-cases,
  Map, present, present-some, lookup, insert, erase, string_key, Key-cases, lookup-insert_self,
  lookup-insert_ne, lookup-erase_self, lookup-erase_ne,
}
use private_communication.Backend.Calls.{peer_of, set_call_pair, clear_call_for_user}

-- Whoever has a peer is that peer's peer, and no user has an empty name.
pub record IsSymmetric (peers : Map String String) : Type 0 where
  pub mutual_peers :
      (user peer : String) → lookup user peers ≡ some peer → lookup peer peers ≡ some user
  pub named : (user peer : String) → lookup user peers ≡ some peer → peer ≢ ""

-- A user who has no peer, or this one.
abbrev pub IsFreeFor : String → String → Map String String → Type 0
IsFreeFor user peer peers = (lookup user peers ≡ none) ⊎ (lookup user peers ≡ some peer)

taken :
    (peers : Map String String) (a b u : String)
    → IsFreeFor a b peers
    → lookup a peers ≡ some u
    → b ≡ u
taken peers a b u free e = elim free [ inl n ↦ cc (n, e) | inr o ↦ cc (o, e) ]

module _ (a b : String) (peers : Map String String) where
  pub set_own : lookup b (set_call_pair a b peers) ≡ some a
  unfolding set_call_pair
  set_own = lookup-insert_self b a (insert a b peers)

  pub set_other : lookup a (set_call_pair a b peers) ≡ some b
  unfolding set_call_pair
  set_other = elim (Key-cases b a) [
    | inl e ↦
        ap (λ u. lookup u (insert b a (insert a b peers))) (sym e)
        ∙ lookup-insert_self b a (insert a b peers)
        ∙ ap some (sym e)
    | inr n ↦ lookup-insert_ne b a a (insert a b peers) n ∙ lookup-insert_self a b peers
  ]

  pub set_else : (u : String) → a ≢ u → b ≢ u → lookup u (set_call_pair a b peers) ≡ lookup u peers
  unfolding set_call_pair
  set_else u n k = lookup-insert_ne b u a (insert a b peers) k ∙ lookup-insert_ne a u b peers n

  -- setCallPair keeps the pairs symmetric where neither user is in a call with a third.
  pub set_call_pair-IsSymmetric :
      a ≢ ""
      → b ≢ ""
      → IsFreeFor a b peers
      → IsFreeFor b a peers
      → IsSymmetric peers
      → IsSymmetric (set_call_pair a b peers)
  set_call_pair-IsSymmetric na nb fa fb h =
      let third = λ (u p : String). λ (n : a ≢ u). λ (k : b ≢ u).
        λ (e : lookup u (set_call_pair a b peers) ≡ some p). sym (set_else u n k) ∙ e in
      record {
        mutual_peers = λ u p e. elim (Key-cases a u) [
          | inl q ↦
              let is_b : p ≡ b =
                cc (e, ap (λ x. lookup x (set_call_pair a b peers)) q, set_other) in
              ap (λ x. lookup x (set_call_pair a b peers)) is_b ∙ set_own ∙ ap some q
          | inr n ↦ elim (Key-cases b u) [
            | inl q ↦
                let is_a : p ≡ a =
                  cc (e, ap (λ x. lookup x (set_call_pair a b peers)) q, set_own) in
                ap (λ x. lookup x (set_call_pair a b peers)) is_a ∙ set_other ∙ ap some q
            | inr k ↦
                let back = h.mutual_peers u p (third u p n k e) in
                set_else p (λ q. k (taken peers a b u fa (ap (λ x. lookup x peers) q ∙ back)))
                  (λ q. n (taken peers b a u fb (ap (λ x. lookup x peers) q ∙ back)))
                ∙ back
          ]
        ];
        named = λ u p e. elim (Key-cases a u) [
          | inl q ↦
              let is_b : p ≡ b =
                cc (e, ap (λ x. lookup x (set_call_pair a b peers)) q, set_other) in
              λ z. nb (sym is_b ∙ z)
          | inr n ↦ elim (Key-cases b u) [
            | inl q ↦
                let is_a : p ≡ a =
                  cc (e, ap (λ x. lookup x (set_call_pair a b peers)) q, set_own) in
                λ z. na (sym is_a ∙ z)
            | inr k ↦ h.named u p (third u p n k e)
          ]
        ];
      }

module _ (user : String) (peers : Map String String) (h : IsSymmetric peers) where
  pub peer_of-some :
      (peer : String) → lookup user peers ≡ some peer → peer_of user peers ≡ some peer
  unfolding peer_of
  peer_of-some peer e = rw e (present-some peer (h.named user peer e))

  -- What clearCallForUser takes out: the user, and a peer that is another user.
  abbrev IsCleared : Map String String → Type 0
  IsCleared left =
      ((left ≡ erase user peers) × ((p : String) → lookup user peers ≡ some p → p ≡ user))
      ⊎ ((p : String) × (lookup user peers ≡ some p)
          × (user ≢ p)
          × (left ≡ erase p (erase user peers)))

  clear_call_for_user-IsCleared : IsCleared (clear_call_for_user user peers)
  unfolding clear_call_for_user peer_of present
  clear_call_for_user-IsCleared = elim (Option-cases (lookup user peers)) [
    | inl e ↦ inl (rw e refl, λ p k. cc (e, k))
    | inr (p, e) ↦ elim (Key-cases user p) [
      | inl q ↦
          let gone : lookup p (erase user peers) ≡ none =
            ap (λ u. lookup u (erase user peers)) (sym q) ∙ lookup-erase_self user peers in
          inl (rw (peer_of-some p e) (rw gone refl), λ t k. cc (e, k, q))
      | inr n ↦
          let back : lookup p (erase user peers) ≡ some user =
            lookup-erase_ne user p peers n ∙ h.mutual_peers user p e in
          inr (p, e, n, rw (peer_of-some p e) (rw back (rw ((str_eq_iff user user).1 refl) refl)))
    ]
  ]

  alone-IsSymmetric :
      ((p : String) → lookup user peers ≡ some p → p ≡ user) → IsSymmetric (erase user peers)
  alone-IsSymmetric only = record {
    mutual_peers = λ u p e. elim (Key-cases user u) [
      | inl q ↦ cc (e, ap (λ x. lookup x (erase user peers)) q, lookup-erase_self user peers)
      | inr n ↦
          let back = h.mutual_peers u p (sym (lookup-erase_ne user u peers n) ∙ e) in
          lookup-erase_ne user p peers (λ q. n (sym (only u (ap (λ x. lookup x peers) q ∙ back))))
          ∙ back
    ];
    named = λ u p e. elim (Key-cases user u) [
      | inl q ↦ cc (e, ap (λ x. lookup x (erase user peers)) q, lookup-erase_self user peers)
      | inr n ↦ h.named u p (sym (lookup-erase_ne user u peers n) ∙ e)
    ];
  }

  -- A pair that is left after both users are taken out was a pair of two others.
  left_pair :
      (peer u p : String)
      → lookup u (erase peer (erase user peers)) ≡ some p
      → (user ≢ u) × (peer ≢ u) × (lookup u peers ≡ some p)
  left_pair peer u p e = elim (Key-cases peer u) [
    | inl q ↦ cc (
      e,
      ap (λ x. lookup x (erase peer (erase user peers))) q,
      lookup-erase_self peer (erase user peers),
    )
    | inr n ↦
        let inner = sym (lookup-erase_ne peer u (erase user peers) n) ∙ e in
        elim (Key-cases user u) [
          | inl q ↦
              cc (inner, ap (λ x. lookup x (erase user peers)) q, lookup-erase_self user peers)
          | inr k ↦ (k, n, sym (lookup-erase_ne user u peers k) ∙ inner)
        ]
  ]

  apart-IsSymmetric :
      (peer : String) → lookup user peers ≡ some peer → IsSymmetric (erase peer (erase user peers))
  apart-IsSymmetric peer e = record {
    mutual_peers = λ u p k.
        let was = left_pair peer u p k in
        let back = h.mutual_peers u p was.2 in
        lookup-erase_ne peer p (erase user peers)
          (λ q. was.0 (cc (h.mutual_peers user peer e, back, ap (λ x. lookup x peers) q)))
        ∙ lookup-erase_ne user p peers (λ q. was.1 (cc (e, back, ap (λ x. lookup x peers) q)))
        ∙ back;
    named = λ u p k. h.named u p (left_pair peer u p k).2;
  }

  -- clearCallForUser keeps the pairs symmetric: the user's peer loses its pair too.
  pub clear_call_for_user-IsSymmetric : IsSymmetric (clear_call_for_user user peers)
  clear_call_for_user-IsSymmetric = elim clear_call_for_user-IsCleared [
    | inl (e, only) ↦ subst IsSymmetric (sym e) (alone-IsSymmetric only)
    | inr (p, e, n, left) ↦ subst IsSymmetric (sym left) (apart-IsSymmetric p e)
  ]
