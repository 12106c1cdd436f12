-- ===== src/Runtime/Roster.antt =====
-- An engine that keeps a roster by what it is told always knows the service's open connections.
use stadhouder.Runtime.Start.Laws.{start-IsFirst}
use Prim.Native.String.{String}
use mathlib.Core.Path.{ap, sym, subst}
use stadhouder.Base.{
  ◌⊎◌, List, ◌∙◌, ◌∷◌, [], inl, inr, refl, Result-cases, ok, err, ℕ, Result, Option, Assoc, ◌≡◌,
  Bool, false, arith, Text, Bool-cases, contains_key,
}
use stadhouder.Base.Int.{ℤ}
use stadhouder.Json.{Json}
use stadhouder.Float.{Float}
use stadhouder.Disk.{Disk}
use stadhouder.State.{Serde}
use stadhouder.Pipes.Server.{Fifos}
use stadhouder.Service.{EngineOutput, Batch, Engine}
use stadhouder.Runtime.{Loop, LiveConnection}
use stadhouder.Runtime.Output.{has_events, apply_output, call_engine}
use stadhouder.Runtime.Polls.{serve_polls}
use stadhouder.Runtime.Round.{
  Os, Exit, again, finished, failed, clamp, clamp_all, refresh_flag, flagged, collect, act, round,
  rounds,
}
use stadhouder.Runtime.Round.Exits.{leave-again}
use stadhouder.Runtime.Start.{live, start}
use stadhouder.Runtime.Registry.{
  Agrees, updated, collect-live, collect-Keeps, close_all-engine, apply_output-Agrees,
}
use stadhouder.Runtime.Registry.Steps.{serve_polls-keys}

-- The engine's roster follows the reports, and is empty at the start.
pub record KeepsRoster {V F S : Type 0} (e : Engine V F S) (roster : S → Text → Bool) : Type 0 where
  pub at_init : (now : ℤ) (t : S) (id : Text) → roster (e.init now t) id ≡ false
  pub at_call :
      (b : Batch V F) (t : S) (id : Text)
      → roster (e.process_messages b t).1 id ≡ updated b (roster t) id

-- A batch that is not worth a call changes no roster.
updated_quiet :
    {V F : Type 0} (b : Batch V F) (roster : Text → Bool) (id : Text)
    → has_events b ≡ false
    → updated b roster id ≡ roster id
unfolding has_events
updated_quiet b roster id h = ground arith

pub apply_output-engine :
    {V F S : Type 0} (o : EngineOutput V) (l : Loop V F S) → (apply_output o l).engine ≡ l.engine
unfolding apply_output
apply_output-engine o l = close_all-engine o.close_connections _

pub clamp_all-keys :
    {V : Type 0} (now : ℤ) (m : Assoc (LiveConnection V)) (id : Text)
    → contains_key id (clamp_all now m) ≡ contains_key id m
unfolding clamp_all contains_key
clamp_all-keys now [] id = refl
clamp_all-keys now ((k, c) ∷ m) id = ground (arith, clamp_all-keys now m id)

pub Exit-cases : (x : Exit) → (x ≡ again) ⊎ ((x ≡ finished) ⊎ ((m : String) × (x ≡ failed m)))
Exit-cases again = inl refl
Exit-cases finished = inr (inl refl)
Exit-cases (failed m) = inr (inr (m, refl))

module _ {V F S : Type 0} (e : Engine V F S) (roster : S → Text → Bool)
    (k : KeepsRoster e roster) where
  called :
      (b : Batch V F) (l : Loop V F S)
      → ((id : Text) → contains_key id l.connections ≡ updated b (roster l.engine) id)
      → l.pending_engine_closes ≡ []
      → let l' = (call_engine e b l).1 in Agrees (roster l'.engine) l'
  unfolding call_engine
  called b l h empty = elim (Bool-cases (has_events b)) [
    | inl told ↦
        let out = (e.process_messages b l.engine).0 in
        let l₀ : Loop V F S = record l { engine = (e.process_messages b l.engine).1 } in
        rw (told, call_engine)
          (subst (λ t. Agrees (roster t) (apply_output out l₀)) (sym (apply_output-engine out l₀))
            (apply_output-Agrees (roster l₀.engine) out l₀
              (λ id. ground (arith, h id, k.at_call b l.engine id, empty))))
    | inr quiet ↦
        rw (quiet, call_engine)
          (λ id. ground (arith, h id, updated_quiet b (roster l.engine) id quiet, empty))
  ]

  -- The registry after the polls have been answered.
  acted :
      (j : Json V) (s : Serde F) (now : ℤ) (os : Os) (l : Loop V F S)
      → Agrees (roster l.engine) l
      → let (b, l₁) = collect j s now os l in
        let l₂ = (call_engine e b l₁).1 in
        Agrees
          (roster l₂.engine)
          (record l₂ { connections = (serve_polls j now os.pollers l₂.connections).1 })
  acted j s now os l h id =
      let b = (collect j s now os l).0 in
      let l₁ = (collect j s now os l).1 in
      let l₂ = (call_engine e b l₁).1 in
      let kept = collect-Keeps j s now os l in
      serve_polls-keys j now os.pollers l₂.connections id
      ∙ called b l₁
          (λ x.
            collect-live j s (roster l.engine) now os l x h
            ∙ ap (λ t. updated b (roster t) x) (sym kept.1))
          kept.0 id

  start-Agrees :
      (f : Float F) (s : Serde F) (limit : Option ℕ) (now : Result ℤ) (memory : Option ℕ) (t : S)
      (disk : Disk) (fifos : Fifos) (l : Loop V F S)
      → start f s limit e now memory t disk fifos ≡ live l
      → Agrees (roster l.engine) l
  unfolding contains_key
  start-Agrees f s limit now memory t disk fifos l h id =
      let (at, _, first) = start-IsFirst f s limit e now memory t disk fifos l h in
      rw (first.connections, first.engine, k.at_init at t id) refl

  module _ (j : Json V) (f : Float F) (s : Serde F) (limit : Option ℕ) where
    act-Agrees :
        (now : ℤ) (os : Os) (l : Loop V F S)
        → Agrees (roster l.engine) l
        → (act j f s limit e now os l).0 ≡ again
        → let l' = (act j f s limit e now os l).2 in Agrees (roster l'.engine) l'
    unfolding act
    act-Agrees now os l h more = rw (leave-again e now os.pause _ _ more) (acted j s now os l h)

    clamp-Agrees :
        (now : ℤ) (l : Loop V F S)
        → Agrees (roster l.engine) l
        → Agrees (roster l.engine) (clamp now l)
    unfolding clamp
    clamp-Agrees now l h id = clamp_all-keys now l.connections id ∙ h id

    refresh_flag-Agrees :
        (now : ℤ) (memory : Option ℕ) (l : Loop V F S)
        → Agrees (roster l.engine) l
        → let l' = (refresh_flag f s limit now memory l).1 in Agrees (roster l'.engine) l'
    unfolding refresh_flag
    refresh_flag-Agrees now memory l h id = ground (arith, h id)

    flagged-Agrees :
        (now : ℤ) (os : Os) (r : Result (Unit {0})) (l : Loop V F S)
        → Agrees (roster l.engine) l
        → (flagged j f s limit e now os (r, l)).0 ≡ again
        → let l' = (flagged j f s limit e now os (r, l)).2 in Agrees (roster l'.engine) l'
    unfolding flagged
    flagged-Agrees now os (err m) l h more = cc
    flagged-Agrees now os (ok t) l h more = act-Agrees now os l h more

    round-Agrees :
        (os : Os) (l : Loop V F S)
        → Agrees (roster l.engine) l
        → (round j f s limit e os l).0 ≡ again
        → let l' = (round j f s limit e os l).2 in Agrees (roster l'.engine) l'
    unfolding round clamp
    round-Agrees os l h more = elim (Result-cases os.now) [
      | inr (m, bad) ↦ cc (rw (bad, round) at more)
      | inl (now, good) ↦
          let seen : Loop V F S = record l { disk = os.others l.disk } in
          let flag = refresh_flag f s limit now os.memory (clamp now seen) in
          let agrees =
            refresh_flag-Agrees now os.memory (clamp now seen) (clamp-Agrees now seen h) in
          rw (good, round) (flagged-Agrees now os flag.0 flag.1 agrees (rw (good, round) at more))
    ]

    rounds-Agrees_from :
        (answers : List Os) (l : Loop V F S)
        → Agrees (roster l.engine) l
        → (rounds j f s limit e answers l).0 ≡ again
        → let l' = (rounds j f s limit e answers l).1 in Agrees (roster l'.engine) l'
    unfolding rounds
    rounds-Agrees_from [] l h more = h
    rounds-Agrees_from (os ∷ rest) l h more = elim (Exit-cases (round j f s limit e os l).0) [
      | inl going ↦
          rw (going, rounds)
            (rounds-Agrees_from rest (round j f s limit e os l).2 (round-Agrees os l h going)
              (rw (going, rounds) at more))
      | inr (inl done) ↦ cc (rw (done, rounds) at more)
      | inr (inr (m, bad)) ↦ cc (rw (bad, rounds) at more)
    ]

    -- A service that took over from any state of the directory, and has gone through any number of
    -- rounds with any answers of the system, has exactly the connections in its registry that the
    -- engine's roster holds, but for those whose close the engine itself ordered in its last call:
    -- these are already out of the registry, and their close is the next one to be reported.
    pub rounds-Agrees :
        (answers : List Os) (now : Result ℤ) (memory : Option ℕ) (t : S) (disk : Disk)
        (fifos : Fifos) (l : Loop V F S)
        → start f s limit e now memory t disk fifos ≡ live l
        → (rounds j f s limit e answers l).0 ≡ again
        → let l' = (rounds j f s limit e answers l).1 in Agrees (roster l'.engine) l'
    rounds-Agrees answers now memory t disk fifos l started more =
        rounds-Agrees_from answers l (start-Agrees f s limit now memory t disk fifos l started) more
