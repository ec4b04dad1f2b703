-- ===== src/Backend/Recovery/Found.antt =====
-- What is recovered of a call that was stored.
use private_communication.Common.{
  ℕ, ◌+◌, ◌*◌, ◌<◌, ◌≡◌, ◌≢◌, refl, ap, ◌∙◌, String, false, Option, none, some, leb, arith, present,
  present-some, str_eq-ne, str_eq_iff, string_key,
}
use private_communication.Pcbk.Value.{Value, nat, get, is_non_empty_string, is_string}
use private_communication.Backend.Events.{CallType, audio, video}
use private_communication.Backend.Redis.{
  Client, Settings, Offer, pending_call_value, active_session_value, set_pending_incoming_call,
  set_active_call_session,
}
use private_communication.Backend.Redis.Keys.{pending_incoming_call, active_call_session}
use private_communication.Backend.Recovery.{
  Fractions, active, pending, bind, read_call_type, read_offer, read_pending_call,
  read_active_session, get_pending_incoming_call, get_active_call_session, recover_call,
}

-- Redis keeps a text that JSON wrote of a value, and JSON reads this value back.
pub record IsKept (c : Client) (key : String) (value : Value) (ttl : ℕ) (r : c.State) : Type 0 where
  pub kept : c.get key (c.set_ex key (c.stringify value) ttl r) ≡ some (c.stringify value)
  pub written : c.stringify value ≢ ""
  pub parsed : c.parse (c.stringify value) ≡ some value

module _ (z : Fractions) where
  read_pending_call-value :
      (sender kind : String) (sdp : Option String) (t : CallType) (created expires : ℕ)
      → sender ≢ ""
      → kind ≢ ""
      → read_pending_call z
          (pending_call_value sender (record { kind = kind; sdp = sdp }) t created expires)
        ≡ some (record {
          sender_id = sender;
          offer = record { kind = kind; sdp = sdp };
          call_type = t;
          created_at = nat created;
          expires_at = nat expires;
        })
  unfolding read_pending_call get read_offer read_call_type is_string is_non_empty_string
  read_pending_call-value sender kind none audio created expires named typed =
      rw (str_eq-ne sender "" named, str_eq-ne kind "" typed) refl
  read_pending_call-value sender kind none video created expires named typed =
      rw (str_eq-ne sender "" named, str_eq-ne kind "" typed) refl
  read_pending_call-value sender kind (some text) audio created expires named typed =
      rw (str_eq-ne sender "" named, str_eq-ne kind "" typed) refl
  read_pending_call-value sender kind (some text) video created expires named typed =
      rw (str_eq-ne sender "" named, str_eq-ne kind "" typed) refl

  read_active_session-value :
      (user peer : String) (t : CallType) (created expires : ℕ)
      → user ≢ ""
      → peer ≢ ""
      → read_active_session z (active_session_value user peer t created expires)
        ≡ some (record {
          user_id = user;
          peer_id = peer;
          call_type = t;
          created_at = nat created;
          expires_at = nat expires;
        })
  unfolding read_active_session get read_call_type is_string is_non_empty_string
  read_active_session-value user peer audio created expires named other =
      rw (str_eq-ne user "" named, str_eq-ne peer "" other) refl
  read_active_session-value user peer video created expires named other =
      rw (str_eq-ne user "" named, str_eq-ne peer "" other) refl

-- A text that is kept is read back.
IsKept-reads :
    (c : Client) (key : String) (value : Value) (ttl : ℕ) (r : c.State)
    → IsKept c key value ttl r
    → bind (present (c.get key (c.set_ex key (c.stringify value) ttl r))) c.parse ≡ some value
IsKept-reads c key value ttl r k =
    ap (λ o. bind (present o) c.parse) k.kept
    ∙ ap (λ o. bind o c.parse) (present-some (c.stringify value) k.written)
    ∙ k.parsed

-- A call session that was stored is recovered as an active call until it expires, when the app asks for
-- the peer of the session.
pub recover_call-active :
    (z : Fractions) (c : Client) (settings : Settings) (user peer : String) (t : CallType)
    → (created now : ℕ) (r : c.State) → user ≢ ""
    → peer ≢ ""
    → now < created + settings.active_call_session_ttl_seconds * 1000
    → IsKept c
        (active_call_session user)
        (active_session_value user peer t created
          (created + settings.active_call_session_ttl_seconds * 1000))
        settings.active_call_session_ttl_seconds
        r
    → (recover_call z c
        (some user)
        peer
        now
        (set_active_call_session c settings user peer t created r)).1
      ≡ active peer t (nat (created + settings.active_call_session_ttl_seconds * 1000))
unfolding recover_call get_active_call_session set_active_call_session
recover_call-active z c settings user peer t created now r named other early k =
    let expires = created + settings.active_call_session_ttl_seconds * 1000 in
    let in_time : leb expires now ≡ false = ground arith in
    let stored =
      IsKept-reads c (active_call_session user) (active_session_value user peer t created expires)
        settings.active_call_session_ttl_seconds r k in
    rw (present-some user named, present-some peer other) rw stored rw
      (read_active_session-value z user peer t created expires named other) rw
      ((str_eq_iff user user).1 refl, in_time, (str_eq_iff peer peer).1 refl) refl

-- An offer that was stored is recovered as a pending call of its sender until it expires, if no call
-- session is stored for the user.
pub recover_call-pending :
    (z : Fractions) (c : Client) (settings : Settings) (user sender : String) (offer : Offer)
    → (t : CallType) (created now : ℕ) (r : c.State) → user ≢ ""
    → sender ≢ ""
    → offer.kind ≡ "offer"
    → now < created + settings.incoming_call_ttl_seconds * 1000
    → IsKept c
        (pending_incoming_call user sender)
        (pending_call_value sender offer t created
          (created + settings.incoming_call_ttl_seconds * 1000))
        settings.incoming_call_ttl_seconds
        r
    → c.get
        (active_call_session user)
        (set_pending_incoming_call c settings user sender offer t created r)
      ≡ none
    → (recover_call z c
        (some user)
        sender
        now
        (set_pending_incoming_call c settings user sender offer t created r)).1
      ≡ pending sender offer t (nat (created + settings.incoming_call_ttl_seconds * 1000))
unfolding recover_call get_active_call_session get_pending_incoming_call set_pending_incoming_call
    present
recover_call-pending z c settings user sender offer t created now r named other is_offer early k
      idle =
    let expires = created + settings.incoming_call_ttl_seconds * 1000 in
    let in_time : leb expires now ≡ false = ground arith in
    let stored =
      IsKept-reads c (pending_incoming_call user sender)
        (pending_call_value sender offer t created expires) settings.incoming_call_ttl_seconds r
        k in
    let typed : offer.kind ≢ "" = λ e. cc (e, is_offer) in
    rw (present-some user named, present-some sender other) rw idle rw stored rw
      (read_pending_call-value z sender offer.kind offer.sdp t created expires other typed) rw
      (in_time, (str_eq_iff offer.kind "offer").1 is_offer) refl
