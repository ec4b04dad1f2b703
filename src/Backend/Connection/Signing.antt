-- ===== src/Backend/Connection/Signing.antt =====
-- What one step of a connection does to its authentication.
use private_communication.Common.{
  ℕ, ◌-◌, ◌≤◌, ◌≡◌, ◌⊎◌, refl, inl, inr, String, true, Option, none, some, arith, Bool-cases, ltb,
  present,
}
use private_communication.Pcbk.Value.{Value, Fields}
use private_communication.Backend.Limits.{
  count_message, within_limit, admit_event, within_auth_limit, count_auth,
}
use private_communication.Backend.World.{
  Server, World, AuthState, Connection, AuthResponse, signed_in,
}
use private_communication.Backend.Messages.{is_object}
use private_communication.Backend.Auth.{
  missing_data, stored_keys, authenticate, handle_auth_response,
}
use private_communication.Backend.Connection.{
  Frame, Incoming, read_incoming, EventKind, auth_response, register_key, send_message, signal,
  get_peers, message_ack, message_read, get_receipts, receipt_ack, unknown, event_kind, dispatch,
  admit_incoming, handle_message, auth_event, auth_answered, auth_parsed,
}

-- What a step leaves of the authentication: the challenge, and the user unless there is a proof of
-- another.
pub record IsStep (P : String → Type 0) (before after : AuthState) : Type 0 where
  pub nonce : after.nonce ≡ before.nonce
  pub opened : after.timestamp ≡ before.timestamp
  pub signed :
      (after ≡ before) ⊎ ((user : String) × (signed_in after ≡ present (some user)) × P user)

same-IsStep : (P : String → Type 0) (auth : AuthState) → IsStep P auth auth
same-IsStep P auth = record { nonce = refl; opened = refl; signed = inl refl }

IsStep-imp :
    (P Q : String → Type 0) (before after : AuthState)
    → ((user : String) → P user → Q user)
    → IsStep P before after
    → IsStep Q before after
IsStep-imp P Q before after f h = record {
  nonce = h.nonce;
  opened = h.opened;
  signed = elim h.signed [
    | inl kept ↦ inl kept
    | inr (user, e, proof) ↦ inr (user, e, f user proof)
  ];
}

module _ (v : Server) where
  -- An answer for the user whose signature of the nonce is verified in this state of the server, at
  -- this time, by the key that the user has there or, if the user has none, by that of the answer.
  pub record IsVerified (nonce : String) (opened : ℕ) (answer : AuthResponse) (now : ℕ)
      (w : World v.client.State) (user : String) : Type 0 where
    pub names : answer.user_id ≡ user
    pub verified : v.verify nonce answer.signature (stored_keys v answer w).1.signing ≡ true
    pub in_time : now - opened ≤ v.auth_timeout

  authenticate-IsStep :
      (s : ℕ) (d : AuthResponse) (k : Connection) (now : ℕ) (w : World v.client.State)
      → now - k.auth.timestamp ≤ v.auth_timeout
      → IsStep
          (IsVerified k.auth.nonce k.auth.timestamp d now w)
          k.auth
          (authenticate v s d k now w).0.auth
  unfolding authenticate signed_in
  authenticate-IsStep s d k now w h =
      let P = IsVerified k.auth.nonce k.auth.timestamp d now w in
      elim (Bool-cases (v.verify k.auth.nonce d.signature (stored_keys v d w).1.signing)) [
        | inl t ↦ rw t (record {
          nonce = refl;
          opened = refl;
          signed = inr (d.user_id, refl, record { names = refl; verified = t; in_time = h });
        })
        | inr f ↦ rw f (same-IsStep P k.auth)
      ]

  answer-IsStep :
      (s : ℕ) (d : AuthResponse) (k : Connection) (now : ℕ) (w : World v.client.State)
      → IsStep
          (IsVerified k.auth.nonce k.auth.timestamp d now w)
          k.auth
          (handle_auth_response v s d k now w).0.auth
  unfolding handle_auth_response
  answer-IsStep s d k now w =
      let P = IsVerified k.auth.nonce k.auth.timestamp d now w in
      elim (Bool-cases (missing_data v d)) [
        | inl t ↦ rw t (same-IsStep P k.auth)
        | inr f ↦ elim (Bool-cases (ltb v.auth_timeout (now - k.auth.timestamp))) [
          | inl late ↦ rw (f, late) (same-IsStep P k.auth)
          | inr in_time ↦ rw (f, in_time) (authenticate-IsStep s d k now w (ground arith))
        ]
      ]

  -- An answer that the schema took from a value, and that is verified.
  pub record IsGiven (nonce : String) (opened : ℕ) (given : Option AuthResponse) (now : ℕ)
      (w : World v.client.State) (user : String) : Type 0 where
    pub answer : AuthResponse
    pub taken : given ≡ some answer
    pub proof : IsVerified nonce opened answer now w user

  answered-IsStep :
      (s : ℕ) (given : Option AuthResponse) (now : ℕ) (k : Connection) (w : World v.client.State)
      → IsStep
          (IsGiven k.auth.nonce k.auth.timestamp given now w)
          k.auth
          (auth_answered v s given now k w).0.auth
  unfolding auth_answered
  answered-IsStep s none now k w =
      same-IsStep (IsGiven k.auth.nonce k.auth.timestamp none now w) k.auth
  answered-IsStep s (some answer) now k w =
      IsStep-imp (IsVerified k.auth.nonce k.auth.timestamp answer now w)
        (IsGiven k.auth.nonce k.auth.timestamp (some answer) now w) k.auth
        (handle_auth_response v s answer k now w).0.auth
        (λ user proof. record { answer = answer; taken = refl; proof = proof })
        (answer-IsStep s answer k now w)

  abbrev IsGivenIn : Value → ℕ → Connection → World v.client.State → String → Type 0
  IsGivenIn d now k w = IsGiven k.auth.nonce k.auth.timestamp (v.schemas.auth_response d) now w

  parsed-IsStep :
      (s : ℕ) (fs : Option Fields) (d : Value) (now : ℕ) (k : Connection) (w : World v.client.State)
      → IsStep (IsGivenIn d now k w) k.auth (auth_parsed v s fs d now k w).0.auth
  unfolding auth_parsed
  parsed-IsStep s none d now k w = same-IsStep (IsGivenIn d now k w) k.auth
  parsed-IsStep s (some fs) d now k w = answered-IsStep s (v.schemas.auth_response d) now k w

  auth_event-IsStep :
      (s : ℕ) (d : Value) (now : ℕ) (k : Connection) (w : World v.client.State)
      → IsStep (IsGivenIn d now k w) k.auth (auth_event v s d now k w).0.auth
  unfolding auth_event
  auth_event-IsStep s d now k w =
      let counted = record k { rate = count_auth v.limits k.rate } in
      elim (Bool-cases (within_auth_limit v.limits counted.rate)) [
        | inl t ↦ rw t (parsed-IsStep s (is_object d) d now counted w)
        | inr f ↦ rw f (same-IsStep (IsGivenIn d now k w) k.auth)
      ]

  -- An event of a kind that signs in, with an answer as its data.
  abbrev IsSignIn : EventKind → Value → ℕ → Connection → World v.client.State → String → Type 0
  IsSignIn kind d now k w user = (kind ≡ auth_response) × IsGivenIn d now k w user

  dispatch-IsStep :
      (kind : EventKind) (s : ℕ) (d : Value) (fresh : String) (now : ℕ) (k : Connection)
      → (w : World v.client.State)
      → IsStep (IsSignIn kind d now k w) k.auth (dispatch v kind s d fresh now k w).0.auth
  unfolding dispatch
  dispatch-IsStep auth_response s d fresh now k w =
      IsStep-imp (IsGivenIn d now k w) (IsSignIn auth_response d now k w) k.auth
        (auth_event v s d now k w).0.auth (λ user proof. (refl, proof))
        (auth_event-IsStep s d now k w)
  dispatch-IsStep register_key s d fresh now k w =
      same-IsStep (IsSignIn register_key d now k w) k.auth
  dispatch-IsStep send_message s d fresh now k w =
      same-IsStep (IsSignIn send_message d now k w) k.auth
  dispatch-IsStep signal s d fresh now k w = same-IsStep (IsSignIn signal d now k w) k.auth
  dispatch-IsStep get_peers s d fresh now k w = same-IsStep (IsSignIn get_peers d now k w) k.auth
  dispatch-IsStep message_ack s d fresh now k w =
      same-IsStep (IsSignIn message_ack d now k w) k.auth
  dispatch-IsStep message_read s d fresh now k w =
      same-IsStep (IsSignIn message_read d now k w) k.auth
  dispatch-IsStep get_receipts s d fresh now k w =
      same-IsStep (IsSignIn get_receipts d now k w) k.auth
  dispatch-IsStep receipt_ack s d fresh now k w =
      same-IsStep (IsSignIn receipt_ack d now k w) k.auth
  dispatch-IsStep unknown s d fresh now k w = same-IsStep (IsSignIn unknown d now k w) k.auth

  -- A message is an answer to the challenge that signs the user in.
  pub record IsSigning (nonce : String) (opened : ℕ) (m : Option Incoming) (now : ℕ)
      (w : World v.client.State) (user : String) : Type 0 where
    pub message : Incoming
    pub read : m ≡ some message
    pub kind : event_kind message.event ≡ auth_response
    pub given : IsGiven nonce opened (v.schemas.auth_response message.event_data) now w user

  admitted-IsStep :
      (m : Option Incoming) (s : ℕ) (fresh : String) (now : ℕ) (k : Connection)
      → (w : World v.client.State)
      → IsStep
          (IsSigning k.auth.nonce k.auth.timestamp m now w)
          k.auth
          (admit_incoming v m s fresh now k w).0.auth
  unfolding admit_incoming
  admitted-IsStep none s fresh now k w =
      same-IsStep (IsSigning k.auth.nonce k.auth.timestamp none now w) k.auth
  admitted-IsStep (some m) s fresh now k w =
      let admitted = admit_event v.limits m.event now k.event_rates in
      let counted = record k { event_rates = admitted.0 } in
      let P = IsSigning k.auth.nonce k.auth.timestamp (some m) now w in
      elim (Bool-cases admitted.1) [
        | inl t ↦ rw t (
            IsStep-imp (IsSignIn (event_kind m.event) m.event_data now counted w) P k.auth
              (dispatch v (event_kind m.event) s m.event_data fresh now counted w).0.auth
              (λ user proof. record { message = m; read = refl; kind = proof.0; given = proof.1 })
              (dispatch-IsStep (event_kind m.event) s m.event_data fresh now counted w))
        | inr f ↦ rw f (same-IsStep P k.auth)
      ]

  pub message-IsStep :
      (s : ℕ) (f : Frame) (fresh : String) (now : ℕ) (k : Connection) (w : World v.client.State)
      → IsStep
          (IsSigning k.auth.nonce k.auth.timestamp (read_incoming (v.client.parse f.text)) now w)
          k.auth
          (handle_message v s f fresh now k w).0.auth
  unfolding handle_message
  message-IsStep s f fresh now k w =
      let counted = record k { rate = count_message v.limits now k.rate } in
      let m = read_incoming (v.client.parse f.text) in
      let P = IsSigning k.auth.nonce k.auth.timestamp m now w in
      elim (Bool-cases (ltb v.limits.max_message_bytes f.size)) [
        | inl large ↦ rw large (same-IsStep P k.auth)
        | inr small ↦ elim (Bool-cases (within_limit v.limits counted.rate)) [
          | inl t ↦ rw (small, t) (admitted-IsStep m s fresh now counted w)
          | inr g ↦ rw (small, g) (same-IsStep P k.auth)
        ]
      ]
