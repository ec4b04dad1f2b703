-- ===== src/Backend/Limits.antt =====
-- The rate limits of a connection, in backend/src/websocket/connection-handler.ts.
pub mod Bounds
use private_communication.Common.{
  ℕ, ◌+◌, ◌-◌, String, Bool, true, false, Option, none, some, str_eq, ltb, leb, if◌then◌else◌, Map,
  lookup, insert, string_key,
}

-- The limits are read from the environment when the server starts.
pub record Limits : Type 0 where
  pub window_ms : ℕ
  pub max_messages : ℕ
  pub max_auth : ℕ
  pub max_message_bytes : ℕ
  pub max_default : ℕ
  pub max_send_message : ℕ
  pub max_signal : ℕ
  pub max_auth_response : ℕ

abbrev pub default_limits : Limits
default_limits = record {
  window_ms = 10000;
  max_messages = 60;
  max_auth = 5;
  max_message_bytes = 262144;
  max_default = 30;
  max_send_message = 20;
  max_signal = 40;
  max_auth_response = 5;
}

pub record RateState : Type 0 where
  pub window_start : ℕ
  pub count : ℕ
  pub auth_count : ℕ

pub record EventRateState : Type 0 where
  pub window_start : ℕ
  pub count : ℕ

abbrev pub create_rate_state : ℕ → RateState
create_rate_state now = record { window_start = now; count = 0; auth_count = 0 }

abbrev pub create_event_rate_state : ℕ → EventRateState
create_event_rate_state now = record { window_start = now; count = 0 }

module _ (l : Limits) where
  unfoldable pub get_event_limit : String → ℕ
  get_event_limit event =
      if str_eq event "send_message"
      then l.max_send_message
      else if str_eq event "signal"
      then l.max_signal
      else if str_eq event "auth_response"
      then l.max_auth_response
      else l.max_default

  -- A message is counted, in a new window where the old one is over.
  unfoldable pub count_message : ℕ → RateState → RateState
  count_message now r =
      if ltb l.window_ms (now - r.window_start)
      then record { window_start = now; count = 1; auth_count = 0 }
      else record r { count = r.count + 1 }

  unfoldable pub within_limit : RateState → Bool
  within_limit r = leb r.count l.max_messages

  unfoldable pub count_event : ℕ → EventRateState → EventRateState
  count_event now r =
      if ltb l.window_ms (now - r.window_start)
      then record { window_start = now; count = 1 }
      else record r { count = r.count + 1 }

  -- `eventRates.get(event) ?? createEventRateState()`
  abbrev pub known_rate : Option EventRateState → ℕ → EventRateState
  known_rate none now = create_event_rate_state now
  known_rate (some r) now = r

  -- A state that the map holds is changed in place, whether the event is let through or not; a new
  -- one is stored only where the event is let through.
  abbrev pub stored_rates :
      Option EventRateState
      → Bool
      → String
      → EventRateState
      → Map String EventRateState
      → Map String EventRateState
  stored_rates (some old) allowed event r rates = insert event r rates
  stored_rates none true event r rates = insert event r rates
  stored_rates none false event r rates = rates

  unfoldable pub admit_event :
      String → ℕ → Map String EventRateState → (Map String EventRateState × Bool)
  admit_event event now rates =
      let known = lookup event rates in
      let r = count_event now (known_rate known now) in
      let allowed = leb r.count (get_event_limit event) in
      (stored_rates known allowed event r rates, allowed)

  unfoldable pub count_auth : RateState → RateState
  count_auth r = record r { auth_count = r.auth_count + 1 }

  unfoldable pub within_auth_limit : RateState → Bool
  within_auth_limit r = leb r.auth_count l.max_auth
