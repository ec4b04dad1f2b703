-- ===== src/Backend/Signals/Peers.antt =====
-- What a signal does to the pairs of users in a call.
use private_communication.Common.{
  ℕ, ◌≡◌, ◌≢◌, ◌⊎◌, refl, inl, inr, ap, ◌∙◌, String, true, false, not, ◌&&◌, Option, none, some,
  arith, str_eq, str_eq_iff, Bool-cases, Option-cases, Map, lookup, string_key, present,
  present-some, subst,
}
use private_communication.Pcbk.Value.{is_undefined}
use private_communication.Backend.Events.{SignalType, offer, answer, candidate, hangup}
use private_communication.Backend.Redis.{Offer, is_user_online}
use private_communication.Backend.World.{Server, World, SignalEventData, send_user}
use private_communication.Backend.Calls.{
  peer_of, set_call_pair, clear_call_for_user, persist_call_pair_state, persist_caller_call_state,
  clear_call_pair_state,
}
use private_communication.Backend.Calls.Symmetric.{IsSymmetric, IsFreeFor}
use private_communication.Backend.Signals.{
  store_pending, call_type_or_audio, is_answer, is_hangup, other_than, busy_reason, forwarded,
  start_offer, announce_call, push_if_offline, starts_call, pending_offer, signal_not_sent,
  answered, forward, pass_on,
}

is_same : (p q : String) → not (str_eq p q) ≡ false → p ≡ q
is_same p q n = ground (arith, str_eq_iff p q)

-- A user who is in no call with another than this one.
abbrev pub IsIdleFor : String → String → Map String String → Type 0
IsIdleFor user peer peers = other_than (peer_of user peers) peer ≡ false

pub IsIdleFor-peer :
    (user peer p : String) (peers : Map String String)
    → IsIdleFor user peer peers
    → lookup user peers ≡ some p
    → p ≢ ""
    → p ≡ peer
unfolding peer_of
IsIdleFor-peer user peer p peers idle e named =
    let known : peer_of user peers ≡ some p = ap present e ∙ present-some p named in
    is_same p peer (subst (λ o. other_than o peer ≡ false) known idle)

pub IsIdleFor-IsFreeFor :
    (user peer : String) (peers : Map String String)
    → IsSymmetric peers
    → IsIdleFor user peer peers
    → IsFreeFor user peer peers
IsIdleFor-IsFreeFor user peer peers h idle = elim (Option-cases (lookup user peers)) [
  | inl none_of ↦ inl none_of
  | inr (p, some_of) ↦
      inr
        (some_of ∙ ap some (IsIdleFor-peer user peer p peers idle some_of (h.named user p some_of)))
]

module _ (v : Server) (s : ℕ) (caller : String) (d : SignalEventData) (now : ℕ) where
  pushed_peers : (w : World v.client.State) → (push_if_offline v caller d w).peers ≡ w.peers
  unfolding push_if_offline
  pushed_peers w = elim (Bool-cases (is_user_online v.client v.settings d.target_id w.redis).1) [
    | inl t ↦ rw t refl
    | inr f ↦ rw f refl
  ]

  stored_peers :
      (o : Option Offer) (w : World v.client.State)
      → (store_pending v o caller d now w).peers ≡ w.peers
  stored_peers none w = refl
  stored_peers (some o) w = refl

  announced_peers : (w : World v.client.State) → (announce_call v caller d now w).peers ≡ w.peers
  unfolding announce_call
  announced_peers w = elim (Bool-cases (starts_call d)) [
    | inl t ↦ rw t (
        pushed_peers (store_pending v (pending_offer d.payload) caller d now w)
        ∙ stored_peers (pending_offer d.payload) w)
    | inr f ↦ rw f refl
  ]

  pub start_offer_peers :
      (w : World v.client.State)
      → (start_offer v caller d now w).peers ≡ set_call_pair caller d.target_id w.peers
  unfolding start_offer persist_caller_call_state
  start_offer_peers w = announced_peers (
      persist_caller_call_state v caller d.target_id (call_type_or_audio d.call_type) now
        (record w { peers = set_call_pair caller d.target_id w.peers }))

  pub answered_peers :
      (w : World v.client.State)
      → (answered v caller d now w).peers ≡ set_call_pair caller d.target_id w.peers
  unfolding answered persist_call_pair_state
  answered_peers w = refl

  hung_up_peers :
      (w : World v.client.State)
      → (clear_call_pair_state v caller d.target_id w).peers ≡ clear_call_for_user caller w.peers
  unfolding clear_call_pair_state
  hung_up_peers w = refl

  -- What forwarding leaves: an answer that was sent makes a pair.
  forward_peers :
      (w : World v.client.State)
      → ((forward v s caller d now w).peers ≡ w.peers)
        ⊎ ((is_answer d.kind ≡ true)
            × ((forward v s caller d now w).peers ≡ set_call_pair caller d.target_id w.peers))
  unfolding forward signal_not_sent answered persist_call_pair_state
  forward_peers w = elim (Bool-cases (send_user d.target_id (forwarded caller d) now w).1) [
    | inl t ↦ elim (Bool-cases (is_answer d.kind)) [
      | inl a ↦ inr (a, rw (t, a) refl)
      | inr n ↦ inl (rw (t, n) refl)
    ]
    | inr f ↦ inl (rw f refl)
  ]

  -- What passing a signal on does to the pairs.
  abbrev pub IsPassed : World v.client.State → World v.client.State → Type 0
  IsPassed w next =
      (next.peers ≡ w.peers)
      ⊎ ((is_hangup d.kind ≡ true) × (next.peers ≡ clear_call_for_user caller w.peers))
      ⊎ ((is_answer d.kind ≡ true) × (next.peers ≡ set_call_pair caller d.target_id w.peers))

  not_both : (k : SignalType) → is_hangup k ≡ true → is_answer k ≡ true → ⊥
  not_both hangup h a = cc (a)
  not_both offer h a = cc (h)
  not_both answer h a = cc (h)
  not_both candidate h a = cc (h)

  pub pass_on_peers : (w : World v.client.State) → IsPassed w (pass_on v s caller d now w)
  unfolding pass_on
  pass_on_peers w = elim (Bool-cases (not (is_hangup d.kind) && is_undefined d.payload)) [
    | inl t ↦ inl (rw t refl)
    | inr f ↦ elim (Bool-cases (is_hangup d.kind)) [
      | inl h ↦ elim (forward_peers (clear_call_pair_state v caller d.target_id w)) [
        | inl kept ↦ inr (inl (h, rw (f, h) (kept ∙ hung_up_peers w)))
        | inr (a, e) ↦ absurd (not_both d.kind h a)
      ]
      | inr n ↦ elim (forward_peers w) [
        | inl kept ↦ inl (rw (f, n) kept)
        | inr (a, e) ↦ inr (inr (a, rw (f, n) e))
      ]
    ]
  ]

  -- Both users of an offer that is not refused are idle for each other.
  pub not_busy :
      (peers : Map String String)
      → busy_reason caller d.target_id peers ≡ none
      → IsIdleFor caller d.target_id peers × IsIdleFor d.target_id caller peers
  unfolding busy_reason
  not_busy peers e = elim (Bool-cases (other_than (peer_of caller peers) d.target_id)) [
    | inl t ↦ absurd (ground arith)
    | inr f ↦ elim (Bool-cases (other_than (peer_of d.target_id peers) caller)) [
      | inl t ↦ absurd (ground arith)
      | inr g ↦ (f, g)
    ]
  ]
