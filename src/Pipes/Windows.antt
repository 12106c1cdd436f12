-- ===== src/Pipes/Windows.antt =====
-- The Windows half of rust/backend/common/src/pipes.rs: one instance of a named pipe, reused from
-- episode to episode. What the system's calls answer are arguments.
pub mod Inbound
pub mod Outbound
pub mod Open
use stadhouder.Base.{
  ℕ, zero, Bool, true, false, not, Option, none, some, ◌++◌, Text, codes, Result, ok, err,
  if◌then◌else◌, remove,
}
use stadhouder.Layout.{underscore_uuid}
use stadhouder.Pipes.Server.{PipeNames}

unfoldable pub pipe_names_for : Text → PipeNames
unfolding underscore_uuid
pipe_names_for connection_id =
    let tag = underscore_uuid connection_id in
    record {
      client_to_server = codes "\\\\.\\pipe\\stadhouder\\c2s_" ++ tag;
      server_to_client = codes "\\\\.\\pipe\\stadhouder\\s2c_" ++ tag;
    }

-- Nothing to make before the server types are created, and nothing to remove.
unfoldable pub create_serving_pipes : PipeNames → Result (Unit {0})
create_serving_pipes names = ok tt

unfoldable pub remove_serving_pipes : PipeNames → Unit {0}
remove_serving_pipes names = tt

-- The answers of GetLastError that the code tells apart.
pub data WinError : Type 0 where
  error_broken_pipe error_no_data error_pipe_connected error_pipe_listening : WinError
  error_other : ℕ → WinError

-- ConnectNamedPipe: none for a result that is not zero, else the last error.
abbrev pub Connect : Type 0
Connect = Option WinError

-- PeekNamedPipe: the bytes that wait to be read, or the last error.
pub data Peek : Type 0 where
  waiting_bytes : ℕ → Peek
  peek_failed : WinError → Peek

-- The handle, by its mode (PIPE_WAIT or PIPE_NOWAIT), and whether a client is attached.
pub record Instance : Type 0 where
  pub blocking : Bool
  pub connected : Bool

-- CreateNamedPipeW gives a handle or fails.
unfoldable pub create : Bool → Result Instance
create true = ok (record { blocking = false; connected = false })
create false = err "CreateNamedPipeW failed"

abbrev attach : Instance → Result Bool × Instance
attach i = (ok true, record i { connected = true })

-- A client that has come and gone since the last check counts as attached.
attached : Connect → Instance → Result Bool × Instance
attached none i = attach i
attached (some error_pipe_connected) i = attach i
attached (some error_no_data) i = attach i
attached (some error_pipe_listening) i = (ok false, i)
attached (some error_broken_pipe) i = (err "ConnectNamedPipe failed", i)
attached (some (error_other n)) i = (err "ConnectNamedPipe failed", i)

unfoldable pub check_connected : Connect → Instance → Result Bool × Instance
unfolding attached
check_connected c i = if i.connected then (ok true, i) else attached c i

-- `none` once the client's end is closed and everything has been read.
unfoldable pub available : Peek → Result (Option ℕ)
available (waiting_bytes n) = ok (some n)
available (peek_failed error_broken_pipe) = ok none
available (peek_failed error_no_data) = ok none
available (peek_failed error_pipe_connected) = err "PeekNamedPipe failed"
available (peek_failed error_pipe_listening) = err "PeekNamedPipe failed"
available (peek_failed (error_other n)) = err "PeekNamedPipe failed"

-- Back to listening for the next client.
unfoldable pub disconnect : Instance → Instance
disconnect i = record i { connected = false }

-- SetNamedPipeHandleState may be refused, which nobody looks at: then the mode stays.
unfoldable pub set_blocking : Bool → Bool → Instance → Instance
set_blocking granted blocking i = if granted then record i { blocking = blocking } else i
