-- ===== src/Tests/Servers/Limits.antt =====
-- Messages and events in one window.
use private_communication.Common.{◌≤◌, none, [], ◌∷◌, arith, lookup, string_key, number_key}
use private_communication.Backend.Limits.{default_limits, create_rate_state, get_event_limit}
use private_communication.Backend.Limits.Bounds.{
  messages_passed, passed_in_interval, events_passed, events_in_interval, room,
}

passed_in_interval_example :
    messages_passed default_limits (3 ∷ 9 ∷ 9000 ∷ []) (create_rate_state 0) ≤ 120
passed_in_interval_example =
    passed_in_interval default_limits 3 (3 ∷ 9 ∷ 9000 ∷ []) (create_rate_state 0) (omega arith)

events_in_interval_example :
    events_passed default_limits "signal" (("signal", 3) ∷ ("get_peers", 5) ∷ ("signal", 7) ∷ []) []
    ≤ room default_limits "signal" none
unfolding get_event_limit lookup
events_in_interval_example =
    events_in_interval default_limits "signal" 3
      (("signal", 3) ∷ ("get_peers", 5) ∷ ("signal", 7) ∷ []) [] (omega arith)
