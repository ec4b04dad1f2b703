-- ===== src/Tests/Servers/Connections.antt =====
-- Connections before and after their challenge is answered.
use private_communication.Common.{
  ◌≡◌, refl, none, some, [], String, Map, lookup, insert, string_key, number_key, present,
}
use private_communication.Pcbk.Value.{checks, get}
use private_communication.Backend.Limits.{
  count_message, within_limit, admit_event, get_event_limit, count_event, within_auth_limit,
  count_auth,
}
use private_communication.Backend.Redis.{Client, get_public_key, get_signing_public_key}
use private_communication.Backend.World.{Server, World, signed_in, AuthResponse, Connection}
use private_communication.Backend.Messages.{is_object}
use private_communication.Backend.Auth.{
  missing_data, handle_auth_response, stored_keys, authenticate,
}
use private_communication.Backend.Connection.{
  Frame, handle_message, admit_incoming, dispatch, auth_event, auth_parsed, auth_answered,
  event_kind, connect, read_incoming,
}
use private_communication.Backend.Connection.Unauthenticated.{
  IsUntouched, IsAnswer, handle_message_unauthenticated,
}
use private_communication.Backend.Connection.Verified.{
  Reaches, SignedBy, connected, received, Reaches-verified,
}
use private_communication.Tests.Recoveries.{holding, stored_offer}
use private_communication.Tests.Servers.{server, both, quiet, world, challenged, connection}

abbrev a_frame : Frame
a_frame = record { size = 4; text = "send" }

not_signed_in : signed_in challenged ≡ none
unfolding signed_in
not_signed_in = refl

no-IsAnswer : ¬ IsAnswer (read_incoming (server.client.parse "send"))
unfolding is_object get checks event_kind
no-IsAnswer e = cc (e)

handle_message_unauthenticated_example :
    IsUntouched
      (world both [])
      (handle_message server 3 a_frame "f" 7 (connection challenged) (world both [])).1
    × (signed_in
          (handle_message server 3 a_frame "f" 7 (connection challenged) (world both [])).0.auth
        ≡ none)
handle_message_unauthenticated_example =
    handle_message_unauthenticated server 3 a_frame "f" 7 (connection challenged) (world both [])
      not_signed_in no-IsAnswer

abbrev forged : AuthResponse
forged = record {
  user_id = "dave";
  signature = "bad";
  encryption_public_key = "e";
  signing_public_key = "k";
}

-- The answer of dave, who has other keys.
abbrev good_answer : AuthResponse
good_answer = record {
  user_id = "dave";
  signature = "good";
  encryption_public_key = "de";
  signing_public_key = "dk";
}

-- A server whose Redis is a map of texts.
abbrev texts : Client
texts = holding stored_offer

abbrev text_server : Server
text_server = record server { client = texts }

abbrev text_world : World (Map String String)
text_world = record {
  manager = both;
  network = quiet;
  peers = [];
  timers = [];
  redis = [];
  pushes = [];
  auth_failures = 0;
  rate_rejections = 0;
}

-- alice's connection from its challenge to its good answer.
abbrev an_answer : Frame
an_answer = record { size = 6; text = "answer" }

answered : Connection
answered =
    (handle_message server 3 an_answer "f" 7 (connect server 3 "n" 0 (world both [])).0
      (world both [])).0

answered_signed_in : signed_in answered.auth ≡ some "alice"
unfolding answered connect handle_message count_message within_limit admit_incoming admit_event
    get_event_limit count_event dispatch event_kind auth_event auth_parsed auth_answered
    within_auth_limit count_auth handle_auth_response missing_data authenticate stored_keys
    get_public_key get_signing_public_key is_object get checks signed_in present lookup insert
answered_signed_in = refl

abbrev answered_life : Reaches server "n" 0 answered
unfolding answered
answered_life = received 3 an_answer "f" 7 (world both []) (connected 3 (world both []))

Reaches-verified_example : SignedBy server "n" 0 "alice" answered answered_life
Reaches-verified_example =
    Reaches-verified server "n" 0 "alice" answered answered_life answered_signed_in
