-- ===== src/Tools/CronSim.antt =====
-- tools/cron-sim/src/main.rs: the service is launched at every simulated minute.
use stadhouder.Base.{
  ℕ, Bool, true, false, Option, none, some, List, [], ◌∷◌, ◌++◌, Text, filter, Result, ok, err,
  ◌>>=◌,
}
use stadhouder.Float.{Float}
use stadhouder.Disk.{Disk}
use stadhouder.Layout.{Env}
use stadhouder.Config
use stadhouder.Clock.{wait_factor, scale_wait_ms}

abbrev pub one_simulated_minute_ms : ℕ
one_simulated_minute_ms = 60000

module _ {F : Type 0} (f : Float F) where
  tick_of : Result F → ℕ
  tick_of (ok factor) = scale_wait_ms f one_simulated_minute_ms factor
  tick_of (err e) = one_simulated_minute_ms

  -- The real milliseconds to sleep; a configuration or a factor that cannot be read gives a real
  -- minute.
  unfoldable pub next_tick_ms : Option (Result Text) → Env → Disk → ℕ
  unfolding tick_of
  next_tick_ms file env d = tick_of (do config ← Config.load f file; wait_factor f config env d)

-- `Child::try_wait`
pub data Waited : Type 0 where
  exited running unknown : Waited

remains : Waited → Bool
remains exited = false
remains running = true
remains unknown = true

-- Children are named by their process ids; a launch may fail.
unfoldable pub fire : (ℕ → Waited) → Option ℕ → List ℕ → List ℕ
unfolding remains
fire try_wait launched children =
    let kept = filter (λ pid. remains (try_wait pid)) children in
    elim launched [ some pid ↦ kept ++ pid ∷ [] | none ↦ kept ]

-- The loop, tick by tick, from main's first launch on.
unfoldable pub ticks : List ((ℕ → Waited) × Option ℕ) → List ℕ → List ℕ
unfolding fire
ticks [] children = children
ticks ((try_wait, launched) ∷ rest) children = ticks rest (fire try_wait launched children)
