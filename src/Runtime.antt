-- ===== src/Runtime.antt =====
-- rust/backend/service/src/runtime.rs: the state of the loop, its constants and its small helpers.
pub mod Names
pub mod Scan
pub mod Drain
pub mod Timers
pub mod Output
pub mod Polls
pub mod Round
pub mod Start
pub mod Run
pub mod Registry
pub mod Roster
pub mod Flag
use stadhouder.Base.{ℕ, zero, ◌-◌, ◌*◌, Bool, Option, none, some, List, Text, codes, Assoc}
use stadhouder.Base.Int.{ℤ, pos, leb_ℤ, sub_i64}
use stadhouder.Text.{strip_prefix, strip_suffix, replace}
use stadhouder.Float.{Float}
use stadhouder.Disk.{Disk}
use stadhouder.State.{delete_connection_profile}
use stadhouder.Pipes.Server.{
  PipeNames, Fifos, InboundServerPipe, OutboundServerPipe, remove_serving_pipes,
}

abbrev pub scan_interval_ms : ℕ
scan_interval_ms = 4000

abbrev pub flag_update_interval_ms : ℕ
flag_update_interval_ms = 20000

abbrev pub flag_stale_ms : ℕ
flag_stale_ms = 2 * 60000

abbrev pub idle_exit_ms : ℕ
idle_exit_ms = 56000

abbrev pub client_inactivity_ms : ℕ
client_inactivity_ms = 2 * 60000

pub record LiveConnection (V : Type 0) : Type 0 where
  pub inbound : InboundServerPipe
  pub outbound : OutboundServerPipe
  pub pipe_names : PipeNames
  pub outbox : List V
  pub last_message_ms : ℤ

pub record PendingTimer (V : Type 0) : Type 0 where
  pub timer_id : Text
  pub expiry_ms : ℤ
  pub payload : V

-- The variables of the loop with the engine's state, and what it changes outside of the process.
pub record Loop (V F S : Type 0) : Type 0 where
  pub connections : Assoc (LiveConnection V)
  pub timers : List (PendingTimer V)
  pub started_ms : ℤ
  pub flag_updated_ms : ℤ
  pub last_scan_ms : ℤ
  pub memory_pct : F
  pub pending_engine_closes : List Text
  pub engine : S
  pub disk : Disk
  pub fifos : Fifos

-- `now - since >= span`
unfoldable pub is_due : ℤ → ℤ → ℕ → Bool
is_due now since span = leb_ℤ (pos span) (sub_i64 now since)

module _ {V : Type 0} where
  unfoldable pub teardown : Text → LiveConnection V → Disk × Fifos → Disk × Fifos
  teardown connection_id connection (disk, fifos) = (
    (delete_connection_profile connection_id disk).1,
    remove_serving_pipes connection.pipe_names fifos,
  )

undashed : Option Text → Option Text
undashed none = none
undashed (some tag) = some (replace b'_' b'-' tag)

suffixless : Option Text → Option Text
suffixless none = none
suffixless (some s) = strip_suffix (codes ".json") s

unfoldable pub connection_id_from_filename : Text → Option Text
unfolding undashed suffixless
connection_id_from_filename name = undashed (suffixless (strip_prefix (codes "connection_") name))

module _ {F : Type 0} (f : Float F) where
  -- `measured` is the process's memory, if the system tells it.
  unfoldable pub memory_pct : Option ℕ → Option ℕ → F
  memory_pct none measured = f.zero
  memory_pct (some limit) none = f.zero
  memory_pct (some limit) (some used) = f.mul (f.div (f.of_u64 used) (f.of_u64 limit)) f.hundred
