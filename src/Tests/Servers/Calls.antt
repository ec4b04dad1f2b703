-- ===== src/Tests/Servers/Calls.antt =====
-- Offers, answers and the calls that there are.
use private_communication.Common.{
  apart_by, ◌≡◌, refl, inl, String, true, false, none, some, [], ◌∷◌, Map, lookup, insert,
  string_key, number_key, present,
}
use private_communication.Pcbk.Value.{str, is_undefined, checks}
use private_communication.Backend.Events.{answer, offer}
use private_communication.Backend.World.{signed_in, SignalEventData}
use private_communication.Backend.Sessions.{is_connected}
use private_communication.Backend.Calls.Symmetric.{IsSymmetric, set_call_pair-IsSymmetric}
use private_communication.Backend.Calls.{set_call_pair}
use private_communication.Backend.Signals.{handle_signal}
use private_communication.Backend.Signals.Symmetric.{handle_signal-IsSymmetric, offer_keeps_calls}
use private_communication.Backend.Signals.Answers.{answer_takes_over}
use private_communication.Tests.Servers.{server, quiet, both, world, as_alice}

abbrev an_offer : SignalEventData
an_offer = record {
  kind = offer;
  target_id = "bob";
  payload = str "x";
  call_type = none;
  renegotiate = none;
  ice_restart = none;
  force_relay = none;
  reason = none;
}

alice_signed_in : signed_in as_alice ≡ some "alice"
unfolding signed_in present
alice_signed_in = refl

no_pairs : IsSymmetric []
unfolding lookup
no_pairs = record { mutual_peers = λ u p e. cc (e); named = λ u p e. cc (e) }

handle_signal-IsSymmetric_example :
    IsSymmetric (handle_signal server 1 as_alice an_offer 7 (world both [])).peers
handle_signal-IsSymmetric_example =
    handle_signal-IsSymmetric server 1 as_alice an_offer 7 "alice" (world both []) alice_signed_in
      (λ e. cc (e)) (λ e. cc (e)) no_pairs

abbrev in_call : Map String String
in_call = ("bob", "carol") ∷ ("carol", "bob") ∷ []

in_call-IsSymmetric : IsSymmetric in_call
unfolding lookup insert set_call_pair
in_call-IsSymmetric =
    set_call_pair-IsSymmetric "bob" "carol" [] (λ e. cc (e)) (λ e. cc (e)) (inl refl) (inl refl)
      no_pairs

bob_in_call : lookup "bob" in_call ≡ some "carol"
unfolding lookup
bob_in_call = refl

carol_in_call : lookup "carol" in_call ≡ some "bob"
unfolding lookup
carol_in_call = refl

offer_keeps_calls_example :
    lookup "bob" (handle_signal server 1 as_alice an_offer 7 (world both in_call)).peers
    ≡ some "carol"
offer_keeps_calls_example =
    offer_keeps_calls server 1 as_alice an_offer 7 "alice" (world both in_call) "bob" "carol"
      alice_signed_in refl bob_in_call (λ e. cc (e))

abbrev an_answer : SignalEventData
an_answer = record an_offer { kind = answer }

answered_payload : is_undefined an_answer.payload ≡ false
unfolding checks
answered_payload = refl

bob_connected : is_connected "bob" both quiet ≡ true
unfolding is_connected lookup
bob_connected = refl

answer_takes_over_example :
    (lookup "bob" (handle_signal server 1 as_alice an_answer 7 (world both in_call)).peers
      ≡ some "alice")
    × (lookup "carol" (handle_signal server 1 as_alice an_answer 7 (world both in_call)).peers
        ≡ some "bob")
answer_takes_over_example =
    answer_takes_over server 1 as_alice an_answer 7 "alice" "carol" (world both in_call)
      alice_signed_in refl answered_payload bob_connected carol_in_call
      (apart_by "alice" "carol" refl) (apart_by "bob" "carol" refl)
