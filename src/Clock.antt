-- ===== src/Clock.antt =====
-- rust/backend/common/src/time.rs
use stadhouder.Base.{◌>>=◌, ℕ, Result, ok, if◌then◌else◌}
use stadhouder.Base.Int.{ℤ, add_i64, sub_i64}
use stadhouder.Layout.{Env}
use stadhouder.Float.{Float}
use stadhouder.Disk.{Disk}
use stadhouder.Config.{Config}
use stadhouder.State.{time_factor, time_factor_start_ms, sim_time_diff_ms}

module _ {F : Type 0} (f : Float F) where
  unfoldable pub simtime : ℤ → ℤ → F → ℤ → ℤ
  simtime cal_ms factor_start_ms factor diff_ms =
      add_i64
        (add_i64 factor_start_ms
          (f.to_i64 (f.mul (f.of_i64 (sub_i64 cal_ms factor_start_ms)) factor)))
        diff_ms

  -- `cal_ms` is the calendar's time at the call.
  unfoldable pub now_millis : Config F → Env → Disk → ℤ → Result ℤ
  unfolding simtime
  now_millis config env d cal_ms =
      if config.test_env
      then (do
        start ← time_factor_start_ms env d
        factor ← time_factor f env d
        diff ← sim_time_diff_ms env d
        ok (simtime cal_ms start factor diff))
      else ok cal_ms

  unfoldable pub wait_factor : Config F → Env → Disk → Result F
  wait_factor config env d = if config.test_env then time_factor f env d else ok f.one

  unfoldable pub scale_wait_ms : ℕ → F → ℕ
  scale_wait_ms engine_ms factor = f.to_u64 (f.max (f.div (f.of_u64 engine_ms) factor) f.one)
