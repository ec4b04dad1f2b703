-- ===== src/Backend/Signals/Symmetric.antt =====
-- Signals keep the calls of other users: the pairs stay symmetric, and an offer breaks no call.
use private_communication.Common.{
  ℕ, ◌≡◌, ◌≢◌, ◌⊎◌, refl, inl, inr, ap, sym, ◌∙◌, subst, String, true, false, some, arith,
  Bool-cases, Option-cases, present-named, lookup, string_key, Key-cases,
}
use private_communication.Backend.Events.{offer, answer, candidate, hangup, SignalType}
use private_communication.Backend.World.{Server, World, AuthState, SignalEventData, signed_in}
use private_communication.Backend.Calls.{set_call_pair}
use private_communication.Backend.Calls.Symmetric.{
  IsSymmetric, IsFreeFor, set_call_pair-IsSymmetric, clear_call_for_user-IsSymmetric, set_own,
  set_other, set_else,
}
use private_communication.Backend.Signals.{
  is_offer, is_answer, is_hangup, busy_reason, start_offer, pass_on, signal_from, handle_signal,
}
use private_communication.Backend.Signals.Peers.{
  start_offer_peers, pass_on_peers, not_busy, IsPassed, IsIdleFor, IsIdleFor-peer,
  IsIdleFor-IsFreeFor,
}

signed_in-named : (auth : AuthState) (user : String) → signed_in auth ≡ some user → user ≢ ""
unfolding signed_in
signed_in-named auth user e = elim (Bool-cases auth.authenticated) [
  | inl t ↦ present-named auth.user_id user (rw t at e)
  | inr f ↦ absurd (ground arith)
]

module _ (v : Server) (s : ℕ) (caller : String) (d : SignalEventData) (now : ℕ) where
  offer_passed :
      is_offer d.kind ≡ true
      → (w : World v.client.State) → (pass_on v s caller d now w).peers ≡ w.peers
  offer_passed o w = elim (pass_on_peers v s caller d now w) [
    | inl kept ↦ kept
    | inr (inl (h, e)) ↦ absurd (no_hangup d.kind o h)
    | inr (inr (a, e)) ↦ absurd (no_answer d.kind o a)
  ]
    where
      no_hangup : (k : SignalType) → is_offer k ≡ true → is_hangup k ≡ true → ⊥
      no_hangup offer x y = cc (y)
      no_hangup answer x y = cc (x)
      no_hangup candidate x y = cc (x)
      no_hangup hangup x y = cc (x)

      no_answer : (k : SignalType) → is_offer k ≡ true → is_answer k ≡ true → ⊥
      no_answer offer x y = cc (y)
      no_answer answer x y = cc (x)
      no_answer candidate x y = cc (x)
      no_answer hangup x y = cc (x)

  -- An offer is refused, and the pairs are as before; or both users are idle for each other, and they
  -- are a pair.
  offered :
      is_offer d.kind ≡ true
      → (w : World v.client.State)
      → ((signal_from v s d now caller w).peers ≡ w.peers)
        ⊎ (((signal_from v s d now caller w).peers ≡ set_call_pair caller d.target_id w.peers)
            × IsIdleFor caller d.target_id w.peers
            × IsIdleFor d.target_id caller w.peers)
  unfolding signal_from
  offered o w = elim (Option-cases (busy_reason caller d.target_id w.peers)) [
    | inl e ↦
        let free = not_busy v s caller d now w.peers e in
        inr (
          rw (o, e)
              (offer_passed o (start_offer v caller d now w)
                ∙ start_offer_peers v s caller d now w),
          free.0,
          free.1,
        )
    | inr (reason, e) ↦ inl (rw (o, e) refl)
  ]

  passed :
      is_offer d.kind ≡ false
      → (w : World v.client.State) → IsPassed v s caller d now w (signal_from v s d now caller w)
  unfolding signal_from
  passed o w = rw o (pass_on_peers v s caller d now w)

-- Where the pairs of users in a call are symmetric, a signal to a user with a name keeps them so,
-- whether it is refused, forwarded or not sent: an offer, a candidate and a hangup always, an answer if
-- its two users are in no call with a third.
pub handle_signal-IsSymmetric :
    (v : Server) (s : ℕ) (auth : AuthState) (d : SignalEventData) (now : ℕ) (caller : String)
    → (w : World v.client.State) → signed_in auth ≡ some caller
    → d.target_id ≢ ""
    → (is_answer d.kind ≡ true
        → IsFreeFor caller d.target_id w.peers × IsFreeFor d.target_id caller w.peers)
    → IsSymmetric w.peers
    → IsSymmetric (handle_signal v s auth d now w).peers
unfolding handle_signal
handle_signal-IsSymmetric v s auth d now caller w e named free h =
    let own = signed_in-named auth caller e in
    rw e (elim (Bool-cases (is_offer d.kind)) [
      | inl o ↦ elim (offered v s caller d now o w) [
        | inl kept ↦ subst IsSymmetric (sym kept) h
        | inr (set, a, b) ↦ subst IsSymmetric (sym set) (
            set_call_pair-IsSymmetric caller d.target_id w.peers own named
              (IsIdleFor-IsFreeFor caller d.target_id w.peers h a)
              (IsIdleFor-IsFreeFor d.target_id caller w.peers h b) h)
      ]
      | inr n ↦ elim (passed v s caller d now n w) [
        | inl kept ↦ subst IsSymmetric (sym kept) h
        | inr (inl (hang, cleared)) ↦
            subst IsSymmetric (sym cleared) (clear_call_for_user-IsSymmetric caller w.peers h)
        | inr (inr (ans, set)) ↦ subst IsSymmetric (sym set) (
            set_call_pair-IsSymmetric caller d.target_id w.peers own named (free ans).0 (free ans).1
              h)
      ]
    ])

-- An offer takes no one out of a call, whatever the pairs are: every user who has a peer, whose name
-- is not empty, still has that peer afterwards, the caller and the target included.
pub offer_keeps_calls :
    (v : Server) (s : ℕ) (auth : AuthState) (d : SignalEventData) (now : ℕ) (caller : String)
    → (w : World v.client.State) (user peer : String) → signed_in auth ≡ some caller
    → is_offer d.kind ≡ true
    → lookup user w.peers ≡ some peer
    → peer ≢ ""
    → lookup user (handle_signal v s auth d now w).peers ≡ some peer
unfolding handle_signal
offer_keeps_calls v s auth d now caller w user peer e o k named =
    rw e (elim (offered v s caller d now o w) [
      | inl kept ↦ ap (lookup user) kept ∙ k
      | inr (set, a, b) ↦ ap (lookup user) set ∙ kept_pair caller d.target_id a b
    ])
  where
    same_peer : (u p : String) → IsIdleFor u p w.peers → u ≡ user → p ≡ peer
    same_peer u p idle q =
        sym (IsIdleFor-peer u p peer w.peers idle (ap (λ x. lookup x w.peers) q ∙ k) named)

    kept_pair :
        (a b : String)
        → IsIdleFor a b w.peers
        → IsIdleFor b a w.peers
        → lookup user (set_call_pair a b w.peers) ≡ some peer
    kept_pair a b fa fb = elim (Key-cases a user) [
      | inl q ↦
          ap (λ x. lookup x (set_call_pair a b w.peers)) (sym q)
          ∙ set_other a b w.peers
          ∙ ap some (same_peer a b fa q)
      | inr n ↦ elim (Key-cases b user) [
        | inl q ↦
            ap (λ x. lookup x (set_call_pair a b w.peers)) (sym q)
            ∙ set_own a b w.peers
            ∙ ap some (same_peer b a fb q)
        | inr m ↦ set_else a b w.peers user n m ∙ k
      ]
    ]
