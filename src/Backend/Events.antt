-- ===== src/Backend/Events.antt =====
-- backend/src/types/websocket.ts: what the server sends.
use private_communication.Common.{ℕ, String, Bool, Option, List}
use private_communication.Pcbk.Value.{Value}

pub data DeliveryReceiptStatus : Type 0 where
  delivered read queued : DeliveryReceiptStatus

pub data SignalType : Type 0 where
  offer answer candidate hangup : SignalType

pub data CallType : Type 0 where
  audio video : CallType

pub record SignalData : Type 0 where
  pub kind : SignalType
  pub sender_id : String
  pub payload : Value
  pub call_type : Option CallType
  pub renegotiate : Option Bool
  pub ice_restart : Option Bool
  pub force_relay : Option Bool
  pub reason : Option String

pub record SignalFailure : Type 0 where
  pub target_id : String
  pub signal_type : SignalType
  pub retryable : Bool
  pub expires_at : Option ℕ
  pub reason : String

-- The message of `incoming_message` and those of `queued_messages` are the values that are sent.
pub data ServerEvent : Type 0 where
  auth_challenge : String → ℕ → ServerEvent
  auth_success : String → ServerEvent
  auth_failed : String → ServerEvent
  error : String → ServerEvent
  key_registered : Bool → ServerEvent
  incoming_message : Value → ServerEvent
  delivery_receipt : String → DeliveryReceiptStatus → ServerEvent
  signal : SignalData → ServerEvent
  signal_failed : SignalFailure → ServerEvent
  call_busy : String → String → ServerEvent
  peer_online : String → ServerEvent
  peer_offline : String → ServerEvent
  peers_list : List String → ServerEvent
  queued_messages : List Value → ServerEvent
