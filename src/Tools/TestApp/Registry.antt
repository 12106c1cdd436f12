-- ===== src/Tools/TestApp/Registry.antt =====
-- The test application in the service's loop: its roster against the registry of connections.
pub mod Rounds
use stadhouder.Base.{
  inr, ap, sym, inl, ◌∙◌, Bool-cases, ◌≡◌, refl, Bool, true, false, not, ◌&&◌, ◌||◌, Option, none,
  some, List, [], ◌∷◌, arith, Text, any, if◌then◌else◌, text_eq, text_eq_iff, lookup, contains_key,
  is_some, contains_key-lookup, holds,
}
use stadhouder.Base.Int.{ℤ}
use stadhouder.Json.{Json}
use stadhouder.Layout.{Env}
use stadhouder.State.{Serde}
use stadhouder.Service.{EngineOutput, ClosedConnection, Batch}
use stadhouder.Runtime.{Loop, LiveConnection}
use stadhouder.Runtime.Round.{Os, collect}
use stadhouder.Runtime.Output.{has_events, apply_output, call_engine}
use stadhouder.Runtime.Output.Outgoing.{lookup-apply_output, with_queued, addressed}
use stadhouder.Runtime.Registry.{
  Agrees, deferred_ids, found_ids, collect-live, collect-Keeps, collect-deferred,
  apply_output-Agrees,
}
use stadhouder.Runtime.Registry.Steps.{new_ids, closed_ids}
use stadhouder.Runtime.Roster.{apply_output-engine}
use stadhouder.Tools.TestApp.{TestEngine, process, test_engine}
use stadhouder.Tools.TestApp.Roster.{process-roster}

closed_ids-split :
    (cs : List ClosedConnection) (id : Text)
    → holds (closed_ids cs) id ≡ (holds (deferred_ids cs) id || holds (found_ids cs) id)
closed_ids-split [] id = refl
closed_ids-split (c ∷ cs) id = ground (arith, closed_ids-split cs id)

any-holds : (ids : List Text) (id : Text) → any (text_eq id) ids ≡ holds ids id
any-holds [] id = refl
any-holds (k ∷ ids) id = ground (arith, any-holds ids id, text_eq_iff k id, text_eq_iff id k)

joins :
    (r p n f : Bool)
    → (p && r) ≡ false
    → (p && n) ≡ false
    → ((((r || p) && not p) || n) && not f) ≡ ((r || n) && not (p || f))
joins r p n f h k = ground arith

-- The test application knows the open connections, and none of those that it has closed is open.
abbrev pub Known : {V F : Type 0} → Loop V F TestEngine → Type 0
Known l =
    (id : Text)
    → (contains_key id l.connections ≡ holds l.engine.roster id)
      × ((holds l.pending_engine_closes id && contains_key id l.connections) ≡ false)

-- No connection is reported as new with the report of an ordered close of the same id.
abbrev pub Fresh : {V F : Type 0} → Batch V F → Type 0
Fresh b =
    (id : Text)
    → (holds (deferred_ids b.closed_connections) id && holds (new_ids b.new_connections) id) ≡ false

is_some-if :
    {V : Type 0} (b : Bool) (o : Option (LiveConnection V)) (vs : List V)
    → is_some (if b then none else with_queued vs o) ≡ (is_some o && not b)
is_some-if true o vs = ground arith
is_some-if false none vs = refl
is_some-if false (some c) vs = refl

quiet_batch :
    {V F : Type 0} (b : Batch V F) (id : Text)
    → has_events b ≡ false
    → (holds (new_ids b.new_connections) id ≡ false)
      × (holds (closed_ids b.closed_connections) id ≡ false)
unfolding has_events
quiet_batch b id h = ground arith

module _ {V F : Type 0} where
  contains_key-apply_output :
      {S : Type 0} (id : Text) (o : EngineOutput V) (l : Loop V F S)
      → contains_key id (apply_output o l).connections
        ≡ (contains_key id l.connections && not (holds o.close_connections id))
  contains_key-apply_output id o l =
      rw
        (
          contains_key-lookup id (apply_output o l).connections,
          lookup-apply_output id o l,
          contains_key-lookup id l.connections,
          ← any-holds o.close_connections id,
        )
        (is_some-if _ (lookup id l.connections) (addressed id o.messages))

  -- An output whose closes the engine has taken off its roster.
  output-Known :
      (o : EngineOutput V) (l : Loop V F TestEngine)
      → l.pending_engine_closes ≡ []
      → ((id : Text)
          → holds l.engine.roster id
            ≡ (contains_key id l.connections && not (holds o.close_connections id)))
      → Known (apply_output o l)
  output-Known o l empty h id =
      let before : Text → Bool = λ k. contains_key k l.connections in
      let agrees = apply_output-Agrees before o l (λ k. rw empty (ground arith)) id in
      (
        contains_key-apply_output id o l
            ∙ sym (h id)
            ∙ ap (λ (e : TestEngine). holds e.roster id) (sym (apply_output-engine o l)),
        ground (arith, agrees),
      )

  module _ (j : Json V) (print : ℤ → Text) (env : Env) where
    called-Known :
        (b : Batch V F) (l : Loop V F TestEngine)
        → l.pending_engine_closes ≡ []
        → ((id : Text)
            → contains_key id l.connections ≡ (
                (holds l.engine.roster id || holds (new_ids b.new_connections) id)
                && not (holds (closed_ids b.closed_connections) id)))
        → Known (call_engine (test_engine j print env) b l).1
    unfolding call_engine test_engine
    called-Known b l empty h = elim (Bool-cases (has_events b)) [
      | inl told ↦
          let out = (process j b l.engine).0 in
          let l₀ : Loop V F TestEngine = record l { engine = (process j b l.engine).1 } in
          rw (told, call_engine)
            (output-Known out l₀ empty (λ id.
              let (closes, roster) = process-roster j b l.engine id in rw (closes, h id) roster))
      | inr quiet ↦
          rw (quiet, call_engine)
            (λ id.
              let (a, c) = quiet_batch b id quiet in (ground (arith, h id, a, c), rw empty refl))
    ]

    -- A round's events and the call of the test application: if it has known the open connections
    -- before the round, it knows them after the call, unless an id that it has just closed is reported
    -- as new again in the same call.
    pub stays_Known :
        (s : Serde F) (now : ℤ) (os : Os) (l : Loop V F TestEngine)
        → Known l
        → let (b, l₁) = collect j s now os l in
          Fresh b → Known (call_engine (test_engine j print env) b l₁).1
    stays_Known s now os l known fresh =
        let b = (collect j s now os l).0 in
        let l₁ = (collect j s now os l).1 in
        let kept = collect-Keeps j s now os l in
        let was : Text → Bool = λ k. holds l.engine.roster k || holds l.pending_engine_closes k in
        called-Known b l₁ kept.0 (λ id.
          let (open_, settled) = known id in
          let agrees : Agrees was l = λ k. ground (arith, known k) in
          let after = collect-live j s was now os l id agrees in
          let noted = collect-deferred j s now os l in
          let told = rw noted at fresh id in
          after
          ∙ rw (kept.1, closed_ids-split b.closed_connections id, noted)
              (joins (holds l.engine.roster id) (holds l.pending_engine_closes id)
                (holds (new_ids b.new_connections) id) (holds (found_ids b.closed_connections) id)
                (rw (← open_) settled) told))
