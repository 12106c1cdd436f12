-- ===== src/Service.antt =====
-- rust/backend/service/src/lib.rs: what the service and the application's engine tell each other.
use stadhouder.Base.{Bool, List, Text, codes}
use stadhouder.Base.Int.{ℤ}

pub record NewConnection : Type 0 where
  pub connection_id : Text
  pub user_id : Text

pub data CloseReason : Type 0 where
  client_disconnected server_idle_timeout engine_requested : CloseReason

unfoldable pub as_str : CloseReason → Text
as_str client_disconnected = codes "client_disconnected"
as_str server_idle_timeout = codes "server_idle_timeout"
as_str engine_requested = codes "engine_requested"

pub record ClosedConnection : Type 0 where
  pub connection_id : Text
  pub reason : CloseReason

pub record InboundMessage (V : Type 0) : Type 0 where
  pub connection_id : Text
  pub message : V

pub record ExpiredTimer (V : Type 0) : Type 0 where
  pub timer_id : Text
  pub expiry_ms : ℤ
  pub payload : V

pub record OutboundMessage (V : Type 0) : Type 0 where
  pub connection_id : Text
  pub message : V

pub record TimerRequest (V : Type 0) : Type 0 where
  pub timer_id : Text
  pub expiry_ms : ℤ
  pub payload : V

pub record EngineOutput (V : Type 0) : Type 0 where
  pub close_connections : List Text
  pub messages : List (OutboundMessage V)
  pub timers : List (TimerRequest V)
  pub cancel_timers : List Text
  pub shutdown : Bool

-- The arguments of one call of `process_messages`.
pub record Batch (V F : Type 0) : Type 0 where
  pub timestamp_ms : ℤ
  pub memory_pct : F
  pub new_connections : List NewConnection
  pub closed_connections : List ClosedConnection
  pub messages : List (InboundMessage V)
  pub expired_timers : List (ExpiredTimer V)

-- An engine with the state `S`; a call returns the new state (`&mut self`).
pub record Engine (V F S : Type 0) : Type 0 where
  pub init : ℤ → S → S
  pub process_messages : Batch V F → S → EngineOutput V × S
  pub shutdown : ℤ → S → S
