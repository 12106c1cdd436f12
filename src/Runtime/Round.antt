-- ===== src/Runtime/Round.antt =====
-- Lines 180 to 454 of runtime.rs: one round of the loop, and its rounds one after the other.
pub mod Exits
pub mod Recent
pub mod Reply
pub mod Ends
use Prim.Native.String.{String}
use stadhouder.Base.{
  ℕ, Bool, not, ◌&&◌, Option, List, [], ◌∷◌, ◌++◌, map, Text, is_empty, Result, ok, err,
  if◌then◌else◌, Assoc,
}
use stadhouder.Base.Int.{ℤ, pos, ltb_ℤ, sub_i64}
use stadhouder.Utf8.{Bytes}
use stadhouder.Json.{Json}
use stadhouder.Float.{Float}
use stadhouder.Disk.{Disk}
use stadhouder.State.{Serde, write_service_flag, remove_service_flag}
use stadhouder.Pipes.Server.{Read, Poller, Fifos}
use stadhouder.Service.{NewConnection, ClosedConnection, engine_requested, Batch, Engine}
use stadhouder.Runtime.{
  LiveConnection, Loop, is_due, flag_update_interval_ms, idle_exit_ms, scan_interval_ms, memory_pct,
  teardown,
}
use stadhouder.Runtime.Scan.{scan}
use stadhouder.Runtime.Drain.{drain_all, silent, drop_inactive}
use stadhouder.Runtime.Timers.{expire}
use stadhouder.Runtime.Output.{call_engine}
use stadhouder.Runtime.Polls.{serve_polls}

-- What the system answers in one round, and what other processes did to the state directory since
-- the round before.
pub record Os : Type 0 where
  pub others : Disk → Disk
  pub now : Result ℤ
  pub memory : Option ℕ
  pub reads : Text → List Read
  pub pollers : Text → Poller
  -- `time::wait_factor(config)` before the sleep
  pub pause : Result (Unit {0})

pub data Exit : Type 0 where
  again finished : Exit
  failed : String → Exit

unfoldable pub clamp_time : ℤ → ℤ → ℤ
clamp_time now_ms t = if ltb_ℤ now_ms t then now_ms else t

module _ {V : Type 0} where
  unfoldable pub clamp_all : ℤ → Assoc (LiveConnection V) → Assoc (LiveConnection V)
  clamp_all now_ms [] = []
  clamp_all now_ms ((id, c) ∷ m) =
      (id, record c { last_message_ms = clamp_time now_ms c.last_message_ms }) ∷ clamp_all now_ms m

unfoldable pub requested : Text → ClosedConnection
requested id = record { connection_id = id; reason = engine_requested }

module _ {V : Type 0} where
  -- Lines 437 to 439.
  unfoldable pub teardown_all : Assoc (LiveConnection V) → Disk × Fifos → Disk × Fifos
  teardown_all [] d = d
  teardown_all ((id, c) ∷ m) d = teardown_all m (teardown id c d)

module _ {V F S : Type 0} where
  -- Lines 183 to 199: baselines that simulated time has left in the future.
  unfoldable pub clamp : ℤ → Loop V F S → Loop V F S
  unfolding clamp_time clamp_all
  clamp now_ms l = record l {
    started_ms = clamp_time now_ms l.started_ms;
    flag_updated_ms = clamp_time now_ms l.flag_updated_ms;
    last_scan_ms =
        if ltb_ℤ now_ms l.last_scan_ms
        then sub_i64 now_ms (pos scan_interval_ms)
        else l.last_scan_ms;
    connections = clamp_all now_ms l.connections;
  }

  unfoldable pub flag_written :
      ℤ → F → Result (Unit {0}) × Disk → Loop V F S → Result (Unit {0}) × Loop V F S
  flag_written now_ms pct (err e, disk) l = (err e, record l { memory_pct = pct; disk = disk })
  flag_written now_ms pct (ok _, disk) l =
      (ok tt, record l { memory_pct = pct; disk = disk; flag_updated_ms = now_ms })

  module _ (f : Float F) (s : Serde F) (limit : Option ℕ) where
    -- Lines 201 to 205.
    unfoldable pub refresh_flag : ℤ → Option ℕ → Loop V F S → Result (Unit {0}) × Loop V F S
    unfolding flag_written
    refresh_flag now_ms memory l =
        if is_due now_ms l.flag_updated_ms flag_update_interval_ms
        then (let pct = memory_pct f limit memory in
            flag_written now_ms pct (write_service_flag s now_ms pct l.disk) l)
        else (ok tt, l)

  -- Lines 207 to 352: the events of this round, and the loop from which they are taken.
  module _ (j : Json V) (s : Serde F) where
    unfoldable pub collect : ℤ → Os → Loop V F S → Batch V F × Loop V F S
    unfolding requested
    collect now_ms os l =
        let deferred = map requested l.pending_engine_closes in
        let (opened, gone, l₁) = scan s now_ms (record l { pending_engine_closes = [] }) in
        let (messages, heard) = drain_all j now_ms os.reads l₁.connections in
        let l₂ : Loop V F S = record l₁ { connections = heard } in
        let (idle, l₃) = drop_inactive (silent now_ms l₂.connections) l₂ in
        let (expired, kept) = expire now_ms l₃.timers in
        (
          record {
            timestamp_ms = now_ms;
            memory_pct = l₃.memory_pct;
            new_connections = opened;
            closed_connections = deferred ++ (gone ++ idle);
            messages = messages;
            expired_timers = expired;
          },
          record l₃ { timers = kept },
        )

  -- Lines 436 to 442.
  unfoldable pub shut_down : Loop V F S → Loop V F S
  unfolding teardown_all
  shut_down l =
      let (disk, fifos) = teardown_all l.connections (l.disk, l.fifos) in
      record l { disk = remove_service_flag disk; fifos = fifos }

  module _ (e : Engine V F S) where
    unfoldable pub idle_exit : ℤ → Loop V F S → Loop V F S
    idle_exit now_ms l = record l {
      engine = e.shutdown now_ms l.engine;
      disk = remove_service_flag l.disk;
    }

    -- Lines 435 to 453.
    unfoldable pub leave : ℤ → Result (Unit {0}) → Bool → Loop V F S → Exit × Loop V F S
    unfolding shut_down idle_exit
    leave now_ms pause shutdown l =
        if shutdown
        then (finished, shut_down l)
        else if is_empty l.connections && is_due now_ms l.started_ms idle_exit_ms
        then (finished, idle_exit now_ms l)
        else elim pause [ ok _ ↦ (again, l) | err m ↦ (failed m, l) ]

  module _ (j : Json V) (f : Float F) (s : Serde F) (limit : Option ℕ) (e : Engine V F S) where
    -- The round from the events on.
    unfoldable pub act : ℤ → Os → Loop V F S → Exit × List (Text × Bytes) × Loop V F S
    act now_ms os l =
        let (batch, l₁) = collect j s now_ms os l in
        let (shutdown, l₂) = call_engine e batch l₁ in
        let (sent, answered) = serve_polls j now_ms os.pollers l₂.connections in
        let (exit, l₃) = leave e now_ms os.pause shutdown (record l₂ { connections = answered }) in
        (exit, sent, l₃)

    -- The flag could not be written: the run ends with the error.
    unfoldable pub flagged :
        ℤ → Os → Result (Unit {0}) × Loop V F S → Exit × List (Text × Bytes) × Loop V F S
    unfolding act
    flagged now_ms os (err m, l) = (failed m, [], l)
    flagged now_ms os (ok _, l) = act now_ms os l

    unfoldable pub round : Os → Loop V F S → Exit × List (Text × Bytes) × Loop V F S
    unfolding flagged
    round os l =
        let seen : Loop V F S = record l { disk = os.others l.disk } in
        elim os.now [
          | err m ↦ (failed m, [], seen)
          | ok now_ms ↦
              flagged now_ms os (refresh_flag f s limit now_ms os.memory (clamp now_ms seen))
        ]

    -- The rounds, as long as the system answers and the loop goes on.
    unfoldable pub rounds : List Os → Loop V F S → Exit × Loop V F S
    unfolding round
    rounds [] l = (again, l)
    rounds (os ∷ rest) l =
        let (exit, sent, l') = round os l in
        elim exit [ again ↦ rounds rest l' | finished ↦ (finished, l') | failed m ↦ (failed m, l') ]
