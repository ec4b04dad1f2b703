-- ===== src/Backend/Connection/Unauthenticated.antt =====
-- What a socket that has not answered the challenge can do.
use private_communication.Common.{
  ℕ, ◌≡◌, ◌≢◌, refl, inl, inr, ap, ◌∙◌, String, Option, none, some, arith, Bool-cases, ltb,
}
use private_communication.Pcbk.Value.{Value}
use private_communication.Backend.Limits.{count_message, within_limit, admit_event}
use private_communication.Backend.World.{Server, World, Connection, signed_in}
use private_communication.Backend.Messages.{
  handle_register_key, handle_send_message, handle_get_peers, handle_message_ack,
  handle_message_read, handle_get_receipts, handle_receipt_ack,
}
use private_communication.Backend.Signals.{handle_signal}
use private_communication.Backend.Connection.{
  Frame, Incoming, read_incoming, EventKind, auth_response, register_key, send_message, signal,
  get_peers, message_ack, message_read, get_receipts, receipt_ack, unknown, event_kind, dispatch,
  admit_incoming, handle_message,
}

-- Two states of the server that differ at most in what was sent, what was closed and what was counted.
pub record IsUntouched {R : Type 0} (w u : World R) : Type 0 where
  pub manager : u.manager ≡ w.manager
  pub peers : u.peers ≡ w.peers
  pub timers : u.timers ≡ w.timers
  pub redis : u.redis ≡ w.redis
  pub pushes : u.pushes ≡ w.pushes

-- An event that is not the answer to the challenge.
abbrev pub IsAnswer : Option Incoming → Type 0
IsAnswer none = ⊥
IsAnswer (some m) = event_kind m.event ≡ auth_response

module _ (v : Server) where
  dispatch_unauthenticated :
      (kind : EventKind) (s : ℕ) (d : Value) (fresh : String) (now : ℕ) (k : Connection)
      → (w : World v.client.State) → signed_in k.auth ≡ none
      → kind ≢ auth_response
      → IsUntouched w (dispatch v kind s d fresh now k w).1
        × ((dispatch v kind s d fresh now k w).0 ≡ k)
  unfolding dispatch handle_register_key handle_send_message handle_get_peers handle_message_ack
      handle_message_read handle_get_receipts handle_receipt_ack handle_signal
  dispatch_unauthenticated auth_response s d fresh now k w e n = absurd (n refl)
  dispatch_unauthenticated register_key s d fresh now k w e n = ground arith
  dispatch_unauthenticated send_message s d fresh now k w e n = ground arith
  dispatch_unauthenticated signal s d fresh now k w e n = ground arith
  dispatch_unauthenticated get_peers s d fresh now k w e n = ground arith
  dispatch_unauthenticated message_ack s d fresh now k w e n = ground arith
  dispatch_unauthenticated message_read s d fresh now k w e n = ground arith
  dispatch_unauthenticated get_receipts s d fresh now k w e n = ground arith
  dispatch_unauthenticated receipt_ack s d fresh now k w e n = ground arith
  dispatch_unauthenticated unknown s d fresh now k w e n = ground arith

  admitted_unauthenticated :
      (m : Option Incoming) (s : ℕ) (fresh : String) (now : ℕ) (k : Connection)
      → (w : World v.client.State) → signed_in k.auth ≡ none
      → ¬ IsAnswer m
      → IsUntouched w (admit_incoming v m s fresh now k w).1
        × ((admit_incoming v m s fresh now k w).0.auth ≡ k.auth)
  unfolding admit_incoming
  admitted_unauthenticated none s fresh now k w e n =
      (record { manager = refl; peers = refl; timers = refl; redis = refl; pushes = refl }, refl)
  admitted_unauthenticated (some m) s fresh now k w e n =
      let admitted = admit_event v.limits m.event now k.event_rates in
      let done =
        dispatch_unauthenticated (event_kind m.event) s m.event_data fresh now
          (record k { event_rates = admitted.0 }) w e n in
      elim (Bool-cases admitted.1) [
        | inl t ↦ rw t (done.0, ap (λ (c : Connection). c.auth) done.1)
        | inr f ↦ rw f (
          record { manager = refl; peers = refl; timers = refl; redis = refl; pushes = refl },
          refl,
        )
      ]

  -- While a connection is not signed in, a message that is not an answer to the challenge leaves the
  -- sessions, the calls, the timers, Redis and the push notifications as they are, and the connection
  -- is still not signed in: whatever the message holds, and whether the limits let it through or not.
  pub handle_message_unauthenticated :
      (s : ℕ) (f : Frame) (fresh : String) (now : ℕ) (k : Connection) (w : World v.client.State)
      → signed_in k.auth ≡ none
      → ¬ IsAnswer (read_incoming (v.client.parse f.text))
      → IsUntouched w (handle_message v s f fresh now k w).1
        × (signed_in (handle_message v s f fresh now k w).0.auth ≡ none)
  unfolding handle_message
  handle_message_unauthenticated s f fresh now k w e n =
      let counted = record k { rate = count_message v.limits now k.rate } in
      let done =
        admitted_unauthenticated (read_incoming (v.client.parse f.text)) s fresh now counted w e
          n in
      elim (Bool-cases (ltb v.limits.max_message_bytes f.size)) [
        | inl large ↦
            rw large (
              record { manager = refl; peers = refl; timers = refl; redis = refl; pushes = refl },
              e,
            )
        | inr small ↦ elim (Bool-cases (within_limit v.limits counted.rate)) [
          | inl t ↦ rw (small, t) (done.0, ap signed_in done.1 ∙ e)
          | inr g ↦
              rw (small, g)
                (
                  record {
                    manager = refl;
                    peers = refl;
                    timers = refl;
                    redis = refl;
                    pushes = refl;
                  },
                  e,
                )
        ]
      ]
