-- ===== src/Backend/Connection/Verified.antt =====
-- A connection is signed in only as a user whose key verified an answer to its challenge.
use private_communication.Common.{
  ℕ, ◌≡◌, refl, inl, inr, ap, sym, subst, subst₂, present-eq-some, ◌∙◌, String, some,
}
use private_communication.Backend.World.{Server, World, Connection, signed_in}
use private_communication.Backend.Connection.{
  Frame, read_incoming, handle_message, connect, handle_close,
}
use private_communication.Backend.Connection.Signing.{IsSigning, message-IsStep}

-- The life of a connection. Between two of its steps the other connections' handlers may do anything
-- to the shared state, so each step has a state of its own.
pub data Reaches (v : Server) (nonce : String) (opened : ℕ) : Connection → Type 0 where
  connected :
      (s : ℕ) (w : World v.client.State) → Reaches v nonce opened (connect v s nonce opened w).0
  received :
      {k : Connection} (s : ℕ) (f : Frame) (fresh : String) (now : ℕ) (w : World v.client.State)
      → Reaches v nonce opened k
      → Reaches v nonce opened (handle_message v s f fresh now k w).0
  closed :
      {k : Connection} (s : ℕ) (now : ℕ) (w : World v.client.State)
      → Reaches v nonce opened k
      → Reaches v nonce opened (handle_close v s now k w).0

-- A message of this very history signed the user in.
pub data SignedBy (v : Server) (nonce : String) (opened : ℕ) (user : String)
    : (k : Connection) → Reaches v nonce opened k → Type 0 where
  by_message :
      (k : Connection) (s : ℕ) (f : Frame) (fresh : String) (now : ℕ) (w : World v.client.State)
      → (r : Reaches v nonce opened k)
      → IsSigning v nonce opened (read_incoming (v.client.parse f.text)) now w user
      → SignedBy v nonce opened user
          (handle_message v s f fresh now k w).0
          (received s f fresh now w r)
  before_message :
      (k : Connection) (s : ℕ) (f : Frame) (fresh : String) (now : ℕ) (w : World v.client.State)
      → (r : Reaches v nonce opened k) → SignedBy v nonce opened user k r
      → SignedBy v nonce opened user
          (handle_message v s f fresh now k w).0
          (received s f fresh now w r)
  before_close :
      (k : Connection) (s : ℕ) (now : ℕ) (w : World v.client.State) (r : Reaches v nonce opened k)
      → SignedBy v nonce opened user k r
      → SignedBy v nonce opened user (handle_close v s now k w).0 (closed s now w r)

module _ (v : Server) (nonce : String) (opened : ℕ) where
  record IsSound (k : Connection) (r : Reaches v nonce opened k) : Type 0 where
    same_nonce : k.auth.nonce ≡ nonce
    same_time : k.auth.timestamp ≡ opened
    proved : (user : String) → signed_in k.auth ≡ some user → SignedBy v nonce opened user k r

  received-IsSound :
      (k : Connection) (s : ℕ) (f : Frame) (fresh : String) (now : ℕ) (w : World v.client.State)
      → (r : Reaches v nonce opened k) → IsSound k r
      → IsSound (handle_message v s f fresh now k w).0 (received s f fresh now w r)
  received-IsSound k s f fresh now w r h =
      let step = message-IsStep v s f fresh now k w in
      let m = read_incoming (v.client.parse f.text) in
      record {
        same_nonce = step.nonce ∙ h.same_nonce;
        same_time = step.opened ∙ h.same_time;
        proved = λ user e. elim step.signed [
          | inl kept ↦
              before_message k s f fresh now w r (h.proved user (sym (ap signed_in kept) ∙ e))
          | inr (other, now_signed, proof) ↦ by_message k s f fresh now w r (
              subst₂ (λ n t. IsSigning v n t m now w user) h.same_nonce h.same_time
                (subst (IsSigning v k.auth.nonce k.auth.timestamp m now w)
                  (present-eq-some other user (sym now_signed ∙ e)) proof))
        ];
      }

  Reaches-IsSound : (k : Connection) (r : Reaches v nonce opened k) → IsSound k r
  unfolding connect signed_in handle_close
  Reaches-IsSound _ (connected s w) = record {
    same_nonce = refl;
    same_time = refl;
    proved = λ user e. cc;
  }
  Reaches-IsSound _ (received {k} s f fresh now w r) =
      received-IsSound k s f fresh now w r (Reaches-IsSound k r)
  Reaches-IsSound _ (closed {k} s now w r) =
      let h = Reaches-IsSound k r in
      record {
        same_nonce = h.same_nonce;
        same_time = h.same_time;
        proved = λ user e. before_close k s now w r (h.proved user e);
      }

-- However a connection's events and those of the others follow one another: if it is signed in as a
-- user, then one of the messages of its history was an auth_response for this user whose signature of
-- the connection's own challenge was verified when that message came: with the signing key that the
-- server had for the user in the state of that step, or with the answer's own where the user lacked
-- a key, and at a time of that step that the challenge allows.
pub Reaches-verified :
    (v : Server) (nonce : String) (opened : ℕ) (user : String) (k : Connection)
    → (r : Reaches v nonce opened k) → signed_in k.auth ≡ some user
    → SignedBy v nonce opened user k r
Reaches-verified v nonce opened user k r e = (Reaches-IsSound v nonce opened k r).proved user e
