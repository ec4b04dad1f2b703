-- ===== src/Backend/Signals/Answers.antt =====
-- An answer to a user who is in a call with someone else.
use private_communication.Common.{
  ℕ, ◌≡◌, ◌≢◌, inl, inr, ap, ◌∙◌, String, true, false, some, Option-cases, arith, lookup,
  string_key,
}
use private_communication.Pcbk.Value.{is_undefined}
use private_communication.Backend.Events.{answer}
use private_communication.Backend.Sessions.{is_connected, send_to_user}
use private_communication.Backend.World.{
  Server, World, AuthState, SignalEventData, signed_in, send_user,
}
use private_communication.Backend.Calls.{set_call_pair}
use private_communication.Backend.Calls.Symmetric.{set_own, set_else}
use private_communication.Backend.Signals.{
  is_offer, is_answer, is_hangup, forwarded, forward, pass_on, signal_from, handle_signal,
}
use private_communication.Backend.Signals.Peers.{answered_peers}

connected_sent :
    (v : Server) (target caller : String) (d : SignalEventData) (now : ℕ) (w : World v.client.State)
    → is_connected target w.manager w.network ≡ true
    → (send_user target (forwarded caller d) now w).1 ≡ true
unfolding is_connected send_to_user
connected_sent v target caller d now w c = elim (Option-cases (lookup target w.manager.sessions)) [
  | inl e ↦ absurd (ground arith)
  | inr (x, e) ↦ rw e (ground arith)
]

answer_pairs :
    (v : Server) (s : ℕ) (caller : String) (d : SignalEventData) (now : ℕ)
    (w : World v.client.State)
    → d.kind ≡ answer
    → is_undefined d.payload ≡ false
    → is_connected d.target_id w.manager w.network ≡ true
    → (signal_from v s d now caller w).peers ≡ set_call_pair caller d.target_id w.peers
unfolding signal_from pass_on forward
answer_pairs v s caller d now w a p c =
    let sent = connected_sent v d.target_id caller d now w c in
    let no_offer : is_offer d.kind ≡ false = ap is_offer a in
    let no_hangup : is_hangup d.kind ≡ false = ap is_hangup a in
    let answers : is_answer d.kind ≡ true = ap is_answer a in
    rw (no_offer, no_hangup, p)
      (rw (sent, answers)
        (answered_peers v s caller d now (send_user d.target_id (forwarded caller d) now w).0))

-- An answer is not checked against the calls that there are. Any signed-in user who sends one, with a
-- payload, to a connected user who is in a call with a third becomes that user's peer; the third still
-- has the user as peer, so the pairs are no longer symmetric.
pub answer_takes_over :
    (v : Server) (s : ℕ) (auth : AuthState) (d : SignalEventData) (now : ℕ) (caller third : String)
    → (w : World v.client.State) → signed_in auth ≡ some caller
    → d.kind ≡ answer
    → is_undefined d.payload ≡ false
    → is_connected d.target_id w.manager w.network ≡ true
    → lookup third w.peers ≡ some d.target_id
    → caller ≢ third
    → d.target_id ≢ third
    → (lookup d.target_id (handle_signal v s auth d now w).peers ≡ some caller)
      × (lookup third (handle_signal v s auth d now w).peers ≡ some d.target_id)
unfolding handle_signal
answer_takes_over v s auth d now caller third w e a p c t n m =
    let pairs = answer_pairs v s caller d now w a p c in
    rw e (
      ap (lookup d.target_id) pairs ∙ set_own caller d.target_id w.peers,
      ap (lookup third) pairs ∙ set_else caller d.target_id w.peers third n m ∙ t,
    )
