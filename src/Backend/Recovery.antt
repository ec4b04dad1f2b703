-- ===== src/Backend/Recovery.antt =====
-- The recovery of a call after the app is opened again: backend/src/routes/call.ts, and
-- getPendingIncomingCall and getActiveCallSession of backend/src/services/redis.ts.
pub mod Found
use private_communication.Common.{
  ℕ, String, Bool, true, false, not, Option, none, some, str_eq, leb, present, if◌then◌else◌,
}
use private_communication.Pcbk.Value.{
  Value, Number, nat, neg, real, num, undefined, is_cbor_record, is_non_empty_string, is_string,
}
use private_communication.Backend.Events.{CallType, audio, video}
use private_communication.Backend.Redis.{Client, Offer}
use private_communication.Backend.Redis.Keys.{pending_incoming_call, active_call_session}

-- Doubles that are not whole numbers, by their bits: which of them are finite, and which of those are
-- at most a time.
pub record Fractions : Type 0 where
  pub is_finite : ℕ → Bool
  pub at_most : ℕ → ℕ → Bool

pub record PendingIncomingCall : Type 0 where
  pub sender_id : String
  pub offer : Offer
  pub call_type : CallType
  pub created_at : Number
  pub expires_at : Number

pub record ActiveCallSession : Type 0 where
  pub user_id : String
  pub peer_id : String
  pub call_type : CallType
  pub created_at : Number
  pub expires_at : Number

pub data Recovery : Type 0 where
  active : (peer_id : String) → CallType → (expires_at : Number) → Recovery
  pending : (sender_id : String) → Offer → CallType → (expires_at : Number) → Recovery
  nothing : Recovery
  refused_recovery : (status : ℕ) → (error : String) → Recovery

abbrev pub bind {ℓ κ} : {A : Type ℓ} {B : Type κ} → Option A → (A → Option B) → Option B
bind none f = none
bind (some a) f = f a

unfoldable pub read_call_type : Value → Option CallType
unfolding is_string
read_call_type v =
    bind (is_string v)
      λ s. if str_eq s "audio" then some audio else if str_eq s "video" then some video else none

abbrev pub read_number : Fractions → Value → Option Number
read_number z (num (nat n)) = some (nat n)
read_number z (num (neg n)) = some (neg n)
read_number z (num (real b)) = if z.is_finite b then some (real b) else none
read_number z _ = none

-- A text, or nothing where the property is not there.
abbrev pub read_optional_text : Value → Option (Option String)
read_optional_text undefined = some none
read_optional_text (Value.str s) = some (some s)
read_optional_text _ = none

unfoldable pub read_offer : Value → Option Offer
unfolding is_non_empty_string
read_offer v = bind (is_cbor_record v) λ o.
    bind (is_non_empty_string (o "type"))
      λ kind. bind (read_optional_text (o "sdp")) λ sdp. some (record { kind = kind; sdp = sdp })

-- `expiresAt <= Date.now()`
abbrev pub is_over : Fractions → Number → ℕ → Bool
is_over z (nat n) now = leb n now
is_over z (neg n) now = true
is_over z (real b) now = z.at_most b now

module _ (z : Fractions) where
  unfoldable pub read_pending_call : Value → Option PendingIncomingCall
  unfolding is_non_empty_string
  read_pending_call v = bind (is_cbor_record v) λ o.
      bind (is_non_empty_string (o "senderId")) λ sender. bind (read_offer (o "offer")) λ offer.
        bind (read_call_type (o "callType")) λ call_type.
          bind (read_number z (o "createdAt")) λ created.
            bind (read_number z (o "expiresAt")) λ expires. some (record {
              sender_id = sender;
              offer = offer;
              call_type = call_type;
              created_at = created;
              expires_at = expires;
            })

  unfoldable pub read_active_session : Value → Option ActiveCallSession
  unfolding is_non_empty_string
  read_active_session v = bind (is_cbor_record v) λ o.
      bind (is_non_empty_string (o "userId")) λ user.
        bind (is_non_empty_string (o "peerId")) λ peer.
          bind (read_call_type (o "callType")) λ call_type.
            bind (read_number z (o "createdAt")) λ created.
              bind (read_number z (o "expiresAt")) λ expires. some (record {
                user_id = user;
                peer_id = peer;
                call_type = call_type;
                created_at = created;
                expires_at = expires;
              })

module _ (z : Fractions) (c : Client) where
  -- A call that is over is deleted.
  abbrev pub unless_over :
      Option PendingIncomingCall → String → ℕ → c.State → (c.State × Option PendingIncomingCall)
  unless_over none key now r = (r, none)
  unless_over (some p) key now r =
      if is_over z p.expires_at now then (c.del key r, none) else (r, some p)

  unfoldable pub get_pending_incoming_call :
      (user sender : String) → ℕ → c.State → (c.State × Option PendingIncomingCall)
  get_pending_incoming_call user sender now r =
      let key = pending_incoming_call user sender in
      unless_over (bind (bind (present (c.get key r)) c.parse) (read_pending_call z)) key now r

  abbrev pub own_unless_over :
      Option ActiveCallSession → String → ℕ → c.State → (c.State × Option ActiveCallSession)
  own_unless_over none user now r = (r, none)
  own_unless_over (some s) user now r =
      if not (str_eq s.user_id user)
      then (r, none)
      else if is_over z s.expires_at now
      then (c.del (active_call_session user) r, none)
      else (r, some s)

  unfoldable pub get_active_call_session :
      String → ℕ → c.State → (c.State × Option ActiveCallSession)
  get_active_call_session user now r =
      own_unless_over
        (bind (bind (present (c.get (active_call_session user) r)) c.parse) (read_active_session z))
        user now r

  -- The answer keeps the schema of the response, in which the type of an offer is "offer".
  abbrev pub pending_answer : (c.State × Option PendingIncomingCall) → (c.State × Recovery)
  pending_answer (r, none) = (r, nothing)
  pending_answer (r, some p) = (
    r,
    if str_eq p.offer.kind "offer"
        then pending p.sender_id p.offer p.call_type p.expires_at
        else refused_recovery 500 "Invalid response payload",
  )

  abbrev pub active_answer :
      (c.State × Option ActiveCallSession) → (user peer : String) → ℕ → (c.State × Recovery)
  active_answer (r, none) user peer now = pending_answer (get_pending_incoming_call user peer now r)
  active_answer (r, some s) user peer now =
      if str_eq s.peer_id peer
      then (r, active s.peer_id s.call_type s.expires_at)
      else pending_answer (get_pending_incoming_call user peer now r)

  abbrev pub recover_as : (user peer : Option String) → ℕ → c.State → (c.State × Recovery)
  recover_as none peer now r = (r, refused_recovery 401 "Missing auth user id")
  recover_as (some user) none now r = (r, refused_recovery 400 "Missing peerId")
  recover_as (some user) (some peer) now r =
      active_answer (get_active_call_session user now r) user peer now

  -- GET /recover/:peerId
  unfoldable pub recover_call : (user : Option String) → String → ℕ → c.State → (c.State × Recovery)
  recover_call user peer now r = recover_as (present user) (present (some peer)) now r
