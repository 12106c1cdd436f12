-- ===== src/Tools/TestApp/Registry/Rounds.antt =====
-- The test application's roster and the registry, from the start of the service through its rounds.
use stadhouder.Base.{
  ℕ, ◌≡◌, refl, inl, inr, Option, List, [], ◌∷◌, arith, Text, Result, ok, err, contains_key,
}
use stadhouder.Base.Int.{ℤ}
use stadhouder.Json.{Json}
use stadhouder.Float.{Float}
use stadhouder.Layout.{Env}
use stadhouder.Disk.{Disk}
use stadhouder.State.{Serde}
use stadhouder.Pipes.Server.{Fifos}
use stadhouder.Service.{Batch}
use stadhouder.Runtime.{Loop}
use stadhouder.Runtime.Output.{call_engine}
use stadhouder.Runtime.Polls.{serve_polls}
use stadhouder.Runtime.Round.{Os, again, clamp, refresh_flag, flagged, collect, act, round, rounds}
use stadhouder.Runtime.Round.Exits.{leave-again}
use stadhouder.Runtime.Roster.{clamp_all-keys, Exit-cases}
use stadhouder.Runtime.Registry.Steps.{serve_polls-keys}
use stadhouder.Runtime.Start.{live, start}
use stadhouder.Runtime.Start.Laws.{start-IsFirst}
use stadhouder.Tools.TestApp.{TestEngine, test_engine}
use stadhouder.Tools.TestApp.Registry.{Known, Fresh, stays_Known}

module _ {V F : Type 0} where
  -- Only the ids, the engine and the closes that are still to be reported count.
  same-Known :
      (l l' : Loop V F TestEngine)
      → ((id : Text) → contains_key id l'.connections ≡ contains_key id l.connections)
      → l'.engine ≡ l.engine
      → l'.pending_engine_closes ≡ l.pending_engine_closes
      → Known l
      → Known l'
  same-Known l l' keys engine pending h id = rw (keys id, engine, pending) (h id)

  module _ (j : Json V) (f : Float F) (s : Serde F) (limit : Option ℕ) (print : ℤ → Text)
      (env : Env) where
    clamp-Known : (now : ℤ) (l : Loop V F TestEngine) → Known l → Known (clamp now l)
    unfolding clamp
    clamp-Known now l = same-Known l (clamp now l) (clamp_all-keys now l.connections) refl refl

    refresh_flag-Known :
        (now : ℤ) (memory : Option ℕ) (l : Loop V F TestEngine)
        → Known l
        → Known (refresh_flag f s limit now memory l).1
    unfolding refresh_flag
    refresh_flag-Known now memory l =
        same-Known l (refresh_flag f s limit now memory l).1 (λ id. ground arith) (ground arith)
          (ground arith)

    -- The events that a round finds at `now`.
    abbrev pub events : ℤ → Os → Loop V F TestEngine → Batch V F
    events now os l =
        (collect j s now os
          (refresh_flag f s limit now os.memory
            (clamp now (record l { disk = os.others l.disk }))).1).0

    -- In no round an id comes back in the call that reports the close that the application ordered.
    abbrev pub NoneBack : List Os → Loop V F TestEngine → Type 0
    NoneBack [] l = Unit
    NoneBack (os ∷ rest) l =
        (now : ℤ) × (os.now ≡ ok now)
        × Fresh (events now os l)
        × NoneBack rest (round j f s limit (test_engine j print env) os l).2

    act-Known :
        (now : ℤ) (os : Os) (l : Loop V F TestEngine)
        → Known l
        → Fresh (collect j s now os l).0
        → (act j f s limit (test_engine j print env) now os l).0 ≡ again
        → Known (act j f s limit (test_engine j print env) now os l).2
    unfolding act
    act-Known now os l h fresh more =
        let (b, l₁) = collect j s now os l in
        let l₂ = (call_engine (test_engine j print env) b l₁).1 in
        rw (leave-again (test_engine j print env) now os.pause _ _ more) (
          same-Known l₂
            (record l₂ { connections = (serve_polls j now os.pollers l₂.connections).1 })
            (serve_polls-keys j now os.pollers l₂.connections) refl refl
            (stays_Known j print env s now os l h fresh))

    flagged-Known :
        (now : ℤ) (os : Os) (r : Result (Unit {0})) (l : Loop V F TestEngine)
        → Known l
        → Fresh (collect j s now os l).0
        → (flagged j f s limit (test_engine j print env) now os (r, l)).0 ≡ again
        → Known (flagged j f s limit (test_engine j print env) now os (r, l)).2
    unfolding flagged
    flagged-Known now os (err m) l h fresh more = cc
    flagged-Known now os (ok u) l h fresh more = act-Known now os l h fresh more

    round-Known :
        (now : ℤ) (os : Os) (l : Loop V F TestEngine)
        → os.now ≡ ok now
        → Known l
        → Fresh (events now os l)
        → (round j f s limit (test_engine j print env) os l).0 ≡ again
        → Known (round j f s limit (test_engine j print env) os l).2
    unfolding round
    round-Known now os l told h fresh more =
        let seen : Loop V F TestEngine = record l { disk = os.others l.disk } in
        let (r, l') = refresh_flag f s limit now os.memory (clamp now seen) in
        rw (told, round)
          (flagged-Known now os r l'
            (refresh_flag-Known now os.memory (clamp now seen) (clamp-Known now seen h)) fresh
            (rw (told, round) at more))

    rounds-Known_from :
        (answers : List Os) (l : Loop V F TestEngine)
        → Known l
        → NoneBack answers l
        → (rounds j f s limit (test_engine j print env) answers l).0 ≡ again
        → Known (rounds j f s limit (test_engine j print env) answers l).1
    unfolding rounds
    rounds-Known_from [] l h back more = h
    rounds-Known_from (os ∷ rest) l h (now, told, fresh, back) more =
        elim (Exit-cases (round j f s limit (test_engine j print env) os l).0) [
          | inl going ↦
              rw (going, rounds)
                (rounds-Known_from rest (round j f s limit (test_engine j print env) os l).2
                  (round-Known now os l told h fresh going) back (rw (going, rounds) at more))
          | inr (inl done) ↦ cc (rw (done, rounds) at more)
          | inr (inr (m, bad)) ↦ cc (rw (bad, rounds) at more)
        ]

    start-Known :
        (now : Result ℤ) (memory : Option ℕ) (t : TestEngine) (d : Disk) (fifos : Fifos)
        (l : Loop V F TestEngine)
        → t.roster ≡ []
        → start f s limit (test_engine j print env) now memory t d fifos ≡ live l
        → Known l
    unfolding test_engine contains_key
    start-Known now memory t d fifos l empty started id =
        let (at, _, first) =
          start-IsFirst f s limit (test_engine j print env) now memory t d fifos l started in
        rw (first.connections, first.pending, first.engine, empty) (refl, refl)

    -- A service that took over with the test application, which knew nobody, and has gone through any
    -- number of rounds with any answers of the system: the application knows exactly the connections in
    -- the registry, and none of those that it has closed in the last call is among them, unless in some
    -- round an id was reported as new in the very call that reports its close on the application's order.
    pub rounds-Known :
        (answers : List Os) (now : Result ℤ) (memory : Option ℕ) (t : TestEngine) (d : Disk)
        (fifos : Fifos) (l : Loop V F TestEngine)
        → t.roster ≡ []
        → start f s limit (test_engine j print env) now memory t d fifos ≡ live l
        → NoneBack answers l
        → (rounds j f s limit (test_engine j print env) answers l).0 ≡ again
        → Known (rounds j f s limit (test_engine j print env) answers l).1
    rounds-Known answers now memory t d fifos l empty started back more =
        rounds-Known_from answers l (start-Known now memory t d fifos l empty started) back more
