-- ===== src/Runtime/Start.antt =====
-- Lines 134 to 178 of runtime.rs: a starting instance looks for a live one, and takes over or leaves.
pub mod Laws
pub mod Purge
pub mod Decides
use Prim.Native.String.{String}
use stadhouder.Base.{
  ℕ, Bool, false, ◌&&◌, Option, none, some, List, [], ◌∷◌, Text, Result, ok, err, if◌then◌else◌,
}
use stadhouder.Base.Int.{ℤ, pos, ltb_ℤ, leb_ℤ, sub_i64}
use stadhouder.Utf8.{Bytes}
use stadhouder.Json.{Json}
use stadhouder.Float.{Float}
use stadhouder.Disk.{Disk, remove_file}
use stadhouder.State.{
  Serde, ServiceFlag, read_service_flag, write_service_flag, connection_profile_paths,
}
use stadhouder.Pipes.Server.{Fifos}
use stadhouder.Service.{Engine}
use stadhouder.Runtime.{Loop, flag_stale_ms, scan_interval_ms, memory_pct}
use stadhouder.Runtime.Round.{Os, Exit, again, finished, failed, rounds}

-- `(0..FLAG_STALE_MS).contains(&age_ms)`
unfoldable pub is_fresh : ℤ → ℤ → Bool
is_fresh now_ms updated_ms =
    let age_ms = sub_i64 now_ms updated_ms in
    leb_ℤ (pos 0) age_ms && ltb_ℤ age_ms (pos flag_stale_ms)

unfoldable pub another_lives : {F : Type 0} → ℤ → Option (ServiceFlag F) → Bool
unfolding is_fresh
another_lives now_ms none = false
another_lives now_ms (some flag) = is_fresh now_ms flag.updated_ms

-- The stale profiles are removed, whatever that answers.
unfoldable pub purge : List Text → Disk → Disk
purge [] d = d
purge (name ∷ names) d = purge names (remove_file name d).1

-- How the start ends: it leaves the field, it fails, or it has a loop to run. The engine and the
-- directory are there in each case.
pub data Start (V F S : Type 0) : Type 0 where
  deferred : S → Disk → Start V F S
  aborted : String → S → Disk → Start V F S
  live : Loop V F S → Start V F S

module _ {V F S : Type 0} (f : Float F) (s : Serde F) (limit : Option ℕ) (e : Engine V F S) where
  unfoldable pub took_over : ℤ → F → S → Fifos → Result (Unit {0}) × Disk → Start V F S
  took_over started_ms pct engine fifos (err m, disk) = aborted m engine disk
  took_over started_ms pct engine fifos (ok _, disk) = live (record {
    connections = [];
    timers = [];
    started_ms = started_ms;
    flag_updated_ms = started_ms;
    last_scan_ms = sub_i64 started_ms (pos scan_interval_ms);
    memory_pct = pct;
    pending_engine_closes = [];
    engine = e.init started_ms engine;
    disk = purge (connection_profile_paths disk) disk;
    fifos = fifos;
  })

  unfoldable pub take_over : ℤ → Option ℕ → S → Disk → Fifos → Start V F S
  unfolding took_over
  take_over started_ms memory engine disk fifos =
      let pct = memory_pct f limit memory in
      took_over started_ms pct engine fifos (write_service_flag s started_ms pct disk)

  unfoldable pub with_flag :
      ℤ → Option ℕ → S → Disk → Fifos → Result (Option (ServiceFlag F)) → Start V F S
  unfolding take_over
  with_flag started_ms memory engine disk fifos (err m) = aborted m engine disk
  with_flag started_ms memory engine disk fifos (ok flag) =
      if another_lives started_ms flag
      then deferred engine disk
      else take_over started_ms memory engine disk fifos

  unfoldable pub start : Result ℤ → Option ℕ → S → Disk → Fifos → Start V F S
  unfolding with_flag
  start now memory engine disk fifos = elim now [
    | err m ↦ aborted m engine disk
    | ok started_ms ↦ with_flag started_ms memory engine disk fifos (read_service_flag s disk)
  ]

  module _ (j : Json V) where
    -- `run_loop`, on the answers of the system at the start and in each round.
    unfoldable pub run_loop : Result ℤ → Option ℕ → List Os → S → Disk → Fifos → Exit × S × Disk
    run_loop now memory answers engine disk fifos = elim (start now memory engine disk fifos) [
      | deferred engine' disk' ↦ (finished, engine', disk')
      | aborted m engine' disk' ↦ (failed m, engine', disk')
      | live l ↦ let (exit, l') = rounds j f s limit e answers l in (exit, l'.engine, l'.disk)
    ]
