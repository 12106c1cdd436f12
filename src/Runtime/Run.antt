-- ===== src/Runtime/Run.antt =====
-- `stadhouder_run` of rust/backend/service/src/lib.rs: the configuration, and the loop with it.
use stadhouder.Base.{ℕ, Option, List, Text, Result, ok, err, ◌>>=◌}
use stadhouder.Base.Int.{ℤ}
use stadhouder.Json.{Json}
use stadhouder.Float.{Float}
use stadhouder.Disk.{Disk}
use stadhouder.Layout.{Env, stadhouder_dir}
use stadhouder.Config
use stadhouder.Config.{Config}
use stadhouder.Clock.{now_millis}
use stadhouder.State.{Serde, write_last_run_ms}
use stadhouder.Pipes.Server.{Fifos}
use stadhouder.Service.{Engine}
use stadhouder.Runtime.Round.{Os, Exit, failed}
use stadhouder.Runtime.Start.{run_loop}

module _ {V F S : Type 0} (j : Json V) (f : Float F) (s : Serde F) (e : Engine V F S) where
  -- The loop, once the time of the run has been written down.
  noted :
      Config F
      → Env
      → Result ℤ
      → Option ℕ
      → List Os
      → S
      → Fifos
      → Result (Unit {0}) × Disk
      → Exit × S × Disk
  noted config env now memory answers engine fifos (err m, disk) = (failed m, engine, disk)
  noted config env now memory answers engine fifos (ok _, disk) = elim (stadhouder_dir env) [
    | err m ↦ (failed m, engine, disk)
    | ok dir ↦ run_loop f s config.memory_limit_bytes e j now memory answers engine disk fifos
  ]

  -- The configuration, and the time of the run by it; `cal_ms` is the calendar's time then.
  settings : Env → Option (Result Text) → ℤ → Disk → Result (Config F × ℤ)
  settings env config_file cal_ms disk = do
    config ← Config.load f config_file
    now ← now_millis f config env disk cal_ms
    ok (config, now)

  -- `print` is the decimal print of an `i64`; `now` is what the loop's own first question answers.
  unfoldable pub stadhouder_run :
      (ℤ → Text)
      → Env
      → Option (Result Text)
      → ℤ
      → Result ℤ
      → Option ℕ
      → List Os
      → S
      → Disk
      → Fifos
      → Exit × S × Disk
  unfolding settings noted
  stadhouder_run print env config_file cal_ms now memory answers engine disk fifos =
      elim (settings env config_file cal_ms disk) [
        | err m ↦ (failed m, engine, disk)
        | ok (config, at) ↦
            noted config env now memory answers engine fifos (write_last_run_ms print env at disk)
      ]
