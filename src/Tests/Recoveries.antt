-- ===== src/Tests/Recoveries.antt =====
-- Calls that are stored and recovered, with a Redis that is a map of texts.
use private_communication.Common.{
  ◌≡◌, refl, String, false, none, some, [], arith, string_key, Map, lookup, insert, erase, present,
}
use private_communication.Pcbk.Value.{Value, nat, is_non_empty_string, is_string, get}
use private_communication.Backend.Events.{audio, video}
use private_communication.Backend.Redis.{
  Client, Settings, Offer, pending_call_value, active_session_value, set_pending_incoming_call,
  set_active_call_session,
}
use private_communication.Backend.Recovery.{
  Fractions, active, pending, nothing, recover_call, get_active_call_session,
  get_pending_incoming_call, read_call_type, read_offer, read_pending_call,
}
use private_communication.Backend.Recovery.Found.{IsKept, recover_call-active, recover_call-pending}
use private_communication.Tests.Servers.{server}

abbrev no_fractions : Fractions
no_fractions = record { is_finite = λ b. false; at_most = λ b now. false }

abbrev settings : Settings
settings = server.settings

abbrev pub an_offer : Offer
an_offer = record { kind = "offer"; sdp = some "sdp" }

abbrev pub stored_offer : Value
stored_offer = pending_call_value "alice" an_offer video 5 90005

abbrev stored_session : Value
stored_session = active_session_value "bob" "alice" audio 5 180005

-- JSON's text of the one value is "json".
abbrev pub holding : Value → Client
holding v = record {
  State = Map String String;
  get = λ key r. lookup key r;
  set = λ key value r. insert key value r;
  set_ex = λ key value ttl r. insert key value r;
  exists = λ key r. 0;
  del = λ key r. erase key r;
  expire = λ key ttl r. r;
  pipeline_exists = λ keys r. none;
  sadd = λ key value r. r;
  srem = λ key values r. r;
  smembers = λ key r. [];
  rpush = λ key value r. r;
  lrange = λ key r. [];
  lset = λ key i value r. r;
  lrem = λ key n value r. r;
  hget = λ key value r. none;
  hmget = λ key values r. [];
  hset = λ key name value r. r;
  hdel = λ key names r. r;
  zadd = λ key score value r. r;
  zrem = λ key values r. r;
  zcard = λ key r. 0;
  zrange = λ key r. [];
  zrange_first = λ key n r. [];
  stringify = λ value. "json";
  parse = λ text. some v;
}

session-IsKept : IsKept (holding stored_session) "user:bob:activeCallSession" stored_session 180 []
unfolding lookup insert
session-IsKept = record { kept = refl; written = λ e. cc (e); parsed = refl }

offer-IsKept : IsKept (holding stored_offer) "user:bob:pendingCall:alice" stored_offer 90 []
unfolding lookup insert
offer-IsKept = record { kept = refl; written = λ e. cc (e); parsed = refl }

recover_call-active_example :
    (recover_call no_fractions
      (holding stored_session)
      (some "bob")
      "alice"
      180004
      (set_active_call_session (holding stored_session) settings "bob" "alice" audio 5 [])).1
    ≡ active "alice" audio (nat 180005)
recover_call-active_example =
    recover_call-active no_fractions (holding stored_session) settings "bob" "alice" audio 5 180004
      [] (λ e. cc (e)) (λ e. cc (e)) (omega arith) session-IsKept

no_session :
    (holding stored_offer).get "user:bob:activeCallSession"
      (set_pending_incoming_call (holding stored_offer) settings "bob" "alice" an_offer video 5 [])
    ≡ none
unfolding lookup insert set_pending_incoming_call
no_session = refl

recover_call-pending_example :
    (recover_call no_fractions (holding stored_offer) (some "bob") "alice" 90004 (
      set_pending_incoming_call
        (holding stored_offer)
        settings
        "bob"
        "alice"
        an_offer
        video
        5
        [])).1
    ≡ pending "alice" an_offer video (nat 90005)
recover_call-pending_example =
    recover_call-pending no_fractions (holding stored_offer) settings "bob" "alice" an_offer video 5
      90004 [] (λ e. cc (e)) (λ e. cc (e)) refl (omega arith) offer-IsKept no_session

expired_offer :
    (recover_call no_fractions
      (holding stored_offer)
      (some "bob")
      "alice"
      90005
      (set_pending_incoming_call (holding stored_offer) settings "bob" "alice" an_offer video 5 []))
    ≡ ([], nothing)
unfolding recover_call get_active_call_session get_pending_incoming_call lookup insert erase
    set_pending_incoming_call present read_pending_call read_offer read_call_type
    is_non_empty_string is_string get
expired_offer = refl
