-- ===== src/Runtime/Flag/Instances.antt =====
-- Instances of the service that start, run and leave in any order over one state directory.
pub mod Alone
use mathlib.Core.Path.{subst}
use stadhouder.Base.{
  ℕ, zero, suc, ◌≤◌, ◌≡◌, refl, ap, sym, ◌∙◌, inl, inr, ◌⊎◌, Option, some, List, [], ◌∷◌, ◌++◌,
  arith, All, length, Result, ok,
}
use stadhouder.Base.Int.{ℤ, pos, ◌+ℤ◌, ◌≤ℤ◌, ◌<ℤ◌, +ℤ_parts, IsTime}
use stadhouder.Utf8.{Bytes}
use stadhouder.Json.{Json}
use stadhouder.Float.{Float}
use stadhouder.Disk.{Disk}
use stadhouder.State.{Serde, RoundTrips, read_service_flag}
use stadhouder.Pipes.Server.{Fifos}
use stadhouder.Service.{Engine}
use stadhouder.Runtime.{Loop, flag_stale_ms, flag_update_interval_ms}
use stadhouder.Runtime.Round.{Os, Exit, again, finished, failed, round}
use stadhouder.Runtime.Start.{Start, deferred, aborted, live, start}
use stadhouder.Runtime.Start.Laws.{defers_iff}
use stadhouder.Runtime.Flag.{
  KeepsFlag, KeepsFlag-refl, KeepsFlag-trans, read_service_flag-KeepsFlag,
}
use stadhouder.Runtime.Flag.Rounds.{Fresh, round-Fresh}
use stadhouder.Runtime.Flag.Singleton.{start-Fresh, le_trans}

-- The directory, the clock, and the instances that run, each with the time of its last round.
pub record System (V F S : Type 0) : Type 0 where
  pub disk : Disk
  pub clock : ℤ
  pub running : List (Loop V F S × ℤ)

abbrev pub idle : {V F S : Type 0} → Disk → ℤ → System V F S
idle d now = record { disk = d; clock = now; running = [] }

module _ {V F S : Type 0} where
  abbrev pub begun : Start V F S → System V F S → System V F S
  begun (live l) y = record y { disk = l.disk; running = (l, y.clock) ∷ y.running }
  begun (deferred t d) y = record y { disk = d }
  begun (aborted m t d) y = record y { disk = d }

  -- The instance between `before` and `after` has done a round.
  abbrev pub ran :
      {A : Type 0}
      → List (Loop V F S × ℤ)
      → List (Loop V F S × ℤ)
      → Exit × A × Loop V F S
      → System V F S
      → System V F S
  ran before after (again, sent, l) y = record y {
    disk = l.disk;
    running = before ++ (l, y.clock) ∷ after;
  }
  ran before after (finished, sent, l) y = record y { disk = l.disk; running = before ++ after }
  ran before after (failed m, sent, l) y = record y { disk = l.disk; running = before ++ after }

module _ {V F S : Type 0} (j : Json V) (f : Float F) (s : Serde F) (limit : Option ℕ)
    (e : Engine V F S) where
  -- An instance is started or does a round on the directory as it now is, other processes change the
  -- directory but for the flag, or the clock goes on, by no more than 100 seconds without a round of a
  -- running instance.
  pub data Step : System V F S → System V F S → Type 0 where
    begin :
        (y : System V F S) (memory : Option ℕ) (t : S) (fifos : Fifos)
        → Step y (begun (start f s limit e (ok y.clock) memory t y.disk fifos) y)
    run :
        (y : System V F S) (before after : List (Loop V F S × ℤ)) (l : Loop V F S) (t : ℤ) (os : Os)
        → y.running ≡ before ++ (l, t) ∷ after
        → os.now ≡ ok y.clock
        → Step y (ran before after (round j f s limit e (record os { others = λ d. y.disk }) l) y)
    change : (y : System V F S) (d : Disk) → KeepsFlag y.disk d → Step y (record y { disk = d })
    pass :
        (y : System V F S) (later : ℤ)
        → IsTime later
        → y.clock ≤ℤ later
        → All (λ r. later ≤ℤ r.1 +ℤ pos 100000) y.running
        → Step y (record y { clock = later })

  pub data Reach (d : Disk) (now : ℤ) : System V F S → Type 0 where
    here : Reach d now (idle d now)
    next : {y z : System V F S} → Reach d now y → Step y z → Reach d now z
