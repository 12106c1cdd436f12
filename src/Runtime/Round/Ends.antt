-- ===== src/Runtime/Round/Ends.antt =====
-- How a round ends, on every branch.
use Prim.Native.String.{String}
use stadhouder.Base.{ℕ, ◌≡◌, ◌⊎◌, true, Bool, Option, [], Result, ok, err}
use stadhouder.Base.Int.{ℤ, pos, ◌+ℤ◌, ◌≤ℤ◌}
use stadhouder.Json.{Json}
use stadhouder.Float.{Float}
use stadhouder.State.{Serde}
use stadhouder.Service.{Engine}
use stadhouder.Runtime.{Loop, idle_exit_ms}
use stadhouder.Runtime.Output.{call_engine}
use stadhouder.Runtime.Polls.{serve_polls}
use stadhouder.Runtime.Round.{Os, Exit, again, finished, failed, clamp, refresh_flag, collect}

module _ {V F S : Type 0} (j : Json V) (f : Float F) (s : Serde F) (limit : Option ℕ)
    (e : Engine V F S) (os : Os) (l : Loop V F S) where
  -- The loop as the refresh of the flag at `now` leaves it, and its result.
  abbrev pub refreshed : ℤ → Result (Unit {0}) × Loop V F S
  refreshed now =
      refresh_flag f s limit now os.memory (clamp now (record l { disk = os.others l.disk }))

  -- The engine's answer to the events of the round at `now`, and the loop once it is applied.
  abbrev pub answered_by : ℤ → Bool × Loop V F S
  answered_by now = let (b, l₁) = collect j s now os (refreshed now).1 in call_engine e b l₁

  -- The engine orders the end, or no connection is left and the start is 56 seconds ago.
  abbrev pub Leaves : ℤ → Type 0
  Leaves now =
      ((answered_by now).0 ≡ true)
      ⊎ (((answered_by now).1.connections ≡ []) × (l.started_ms +ℤ pos idle_exit_ms ≤ℤ now))

  pub data Ends : Exit → Type 0 where
    no_clock : (m : String) → os.now ≡ err m → Ends (failed m)
    no_flag : (now : ℤ) (m : String) → os.now ≡ ok now → (refreshed now).0 ≡ err m → Ends (failed m)
    leaves : (now : ℤ) → os.now ≡ ok now → (refreshed now).0 ≡ ok tt → Leaves now → Ends finished
    no_pause :
        (now : ℤ) (m : String)
        → os.now ≡ ok now
        → (refreshed now).0 ≡ ok tt
        → ¬ (Leaves now)
        → os.pause ≡ err m
        → Ends (failed m)
    goes_on :
        (now : ℤ)
        → os.now ≡ ok now
        → (refreshed now).0 ≡ ok tt
        → ¬ (Leaves now)
        → os.pause ≡ ok tt
        → Ends again

  -- The loop that the last stage has.
  abbrev polled : ℤ → Loop V F S
  polled now = record (answered_by now).1 {
    connections = (serve_polls j now os.pollers (answered_by now).1.connections).1;
  }
