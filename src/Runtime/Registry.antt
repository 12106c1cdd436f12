-- ===== src/Runtime/Registry.antt =====
-- The registry of connections against the engine's own bookkeeping: what the calls of
-- `process_messages` report is enough to know which connections are open.
pub mod Steps
pub mod Keep
use mathlib.Core.List.{append-nil}
use stadhouder.Base.{
  inr, inl, sym, refl, Bool-cases, text_eq_iff, holds-append, ap, ◌∙◌, ◌++◌, map, arith, ◌≡◌, Bool,
  not, ◌&&◌, ◌||◌, List, [], ◌∷◌, Text, contains_key, holds,
}
use stadhouder.Utf8.{Bytes}
use stadhouder.Json.{Json}
use stadhouder.Float.{Float}
use stadhouder.Disk.{Disk}
use stadhouder.State.{connection_profile_paths, Serde}
use stadhouder.Pipes.Server.{Fifos}
use stadhouder.Service.{
  NewConnection, ClosedConnection, CloseReason, client_disconnected, server_idle_timeout,
  engine_requested, EngineOutput, Batch, Engine,
}
use stadhouder.Runtime.{ℤ, Loop, LiveConnection, is_due, scan_interval_ms}
use stadhouder.Runtime.Scan.{scan, scan_now, pick_up_all, drop_gone, absent_from, ids_on_disk}
use stadhouder.Runtime.Drain.{drain_all, silent, drop_inactive, disconnect}
use stadhouder.Runtime.Timers.{expire}
use stadhouder.Runtime.Output.{has_events, queue_all, close, close_all, apply_output, call_engine}
use stadhouder.Runtime.Polls.{serve_polls}
use stadhouder.Runtime.Round.{
  Os, Exit, again, finished, failed, clamp, refresh_flag, requested, collect, leave, act, round,
  rounds,
}
use stadhouder.Runtime.Start.{Start, live, deferred, aborted, start, run_loop}
use Keep.{
  Keeps, closed_for, pick_up_all-Keeps, drop_gone-Keeps, disconnect-Keeps, drop_inactive-Keeps,
  drop_gone-reasons, drop_inactive-reasons,
}
use Steps.{
  new_ids, closed_ids, new_ids-append, pick_up_all-live, drop_gone-live, disconnect-live,
  drop_inactive-live, drain_all-keys, serve_polls-keys, queue_all-keys,
}

-- Closes that the engine ordered in the call before.
abbrev pub deferred_ids : List ClosedConnection → List Text
deferred_ids [] = []
deferred_ids (c ∷ cs) = elim c.reason [
  | engine_requested ↦ c.connection_id ∷ deferred_ids cs
  | _ ↦ deferred_ids cs
]

-- Closes that the service found in this round.
abbrev pub found_ids : List ClosedConnection → List Text
found_ids [] = []
found_ids (c ∷ cs) = elim c.reason [
  | engine_requested ↦ found_ids cs
  | _ ↦ c.connection_id ∷ found_ids cs
]

-- The roster of an engine after a call, by what the call reports: the closes that it had ordered
-- itself come before the new connections, the others behind them.
abbrev pub updated : {V F : Type 0} → Batch V F → (Text → Bool) → Text → Bool
updated b roster id =
    (roster id && not (holds (deferred_ids b.closed_connections) id)
      || holds (new_ids b.new_connections) id)
    && not (holds (found_ids b.closed_connections) id)

-- The registry holds what the roster holds, less the closes that are yet to be reported.
abbrev pub Agrees : {V F S : Type 0} → (Text → Bool) → Loop V F S → Type 0
Agrees roster l =
    (id : Text)
    → contains_key id l.connections ≡ (roster id && not (holds l.pending_engine_closes id))

deferred_ids-append :
    (xs ys : List ClosedConnection) → deferred_ids (xs ++ ys) ≡ deferred_ids xs ++ deferred_ids ys
deferred_ids-append [] ys = refl
deferred_ids-append (x ∷ xs) ys = ground (arith, deferred_ids-append xs ys)

found_ids-append :
    (xs ys : List ClosedConnection) → found_ids (xs ++ ys) ≡ found_ids xs ++ found_ids ys
found_ids-append [] ys = refl
found_ids-append (x ∷ xs) ys = ground (arith, found_ids-append xs ys)

-- The ids of closes that all have one reason.
reason_ids :
    (ids : List Text)
    → (deferred_ids (map requested ids) ≡ ids)
      × (found_ids (map requested ids) ≡ [])
      × (deferred_ids (map (closed_for client_disconnected) ids) ≡ [])
      × (found_ids (map (closed_for client_disconnected) ids) ≡ ids)
      × (deferred_ids (map (closed_for server_idle_timeout) ids) ≡ [])
      × (found_ids (map (closed_for server_idle_timeout) ids) ≡ ids)
      × (closed_ids (map (closed_for client_disconnected) ids) ≡ ids)
      × (closed_ids (map (closed_for server_idle_timeout) ids) ≡ ids)
unfolding requested
reason_ids [] = (refl, refl, refl, refl, refl, refl, refl, refl)
reason_ids (k ∷ ids) =
    let (a, b, c, d, e, f, g, h) = reason_ids ids in
    (ap (◌∷◌ k) a, b, c, ap (◌∷◌ k) d, e, ap (◌∷◌ k) f, ap (◌∷◌ k) g, ap (◌∷◌ k) h)

module _ {V F S : Type 0} where
  -- An ordered close takes the connection out and notes it for the next call.
  close-Agrees :
      (roster : Text → Bool) (k : Text) (l : Loop V F S)
      → Agrees roster l
      → Agrees roster (close k l)
  unfolding close
  close-Agrees roster k l h id = ground (
    arith,
    h id,
    disconnect-live k l id,
    (disconnect-Keeps k l).pending,
    holds-append l.pending_engine_closes (k ∷ []) id,
    text_eq_iff k id,
  )

  close_all-Agrees :
      (roster : Text → Bool) (ids : List Text) (l : Loop V F S)
      → Agrees roster l
      → Agrees roster (close_all ids l)
  unfolding close_all
  close_all-Agrees roster [] l h = h
  close_all-Agrees roster (k ∷ ids) l h =
      close_all-Agrees roster ids (close k l) (close-Agrees roster k l h)

  close-engine : (k : Text) (l : Loop V F S) → (close k l).engine ≡ l.engine
  unfolding close
  close-engine k l = ground (arith, (disconnect-Keeps k l).engine)

  pub close_all-engine : (ids : List Text) (l : Loop V F S) → (close_all ids l).engine ≡ l.engine
  unfolding close_all
  close_all-engine [] l = refl
  close_all-engine (k ∷ ids) l = close_all-engine ids (close k l) ∙ close-engine k l

  pub apply_output-Agrees :
      (roster : Text → Bool) (o : EngineOutput V) (l : Loop V F S)
      → Agrees roster l
      → Agrees roster (apply_output o l)
  unfolding apply_output
  apply_output-Agrees roster o l h =
      close_all-Agrees roster o.close_connections _
        (λ id. queue_all-keys o.messages l.connections id ∙ h id)

  gone_ids :
      (ids : List Text) (l : Loop V F S)
      → (found_ids (drop_gone ids l).0 ≡ closed_ids (drop_gone ids l).0)
        × (deferred_ids (drop_gone ids l).0 ≡ [])
  gone_ids ids l = let r = reason_ids ids in rw (drop_gone-reasons ids l) (r.3 ∙ sym r.6, r.2)

  idle_ids :
      (ids : List Text) (l : Loop V F S)
      → (found_ids (drop_inactive ids l).0 ≡ closed_ids (drop_inactive ids l).0)
        × (deferred_ids (drop_inactive ids l).0 ≡ [])
  idle_ids ids l = let r = reason_ids ids in rw (drop_inactive-reasons ids l) (r.5 ∙ sym r.7, r.4)

  scan_now-live :
      (s : Serde F) (now : ℤ) (l : Loop V F S) (id : Text)
      → let (ns, cs, l') = scan_now s now l in
        contains_key id l'.connections ≡ (
          (contains_key id l.connections || holds (new_ids ns) id) && not (holds (found_ids cs) id))
  unfolding scan_now
  scan_now-live s now l id =
      let on_disk = ids_on_disk (connection_profile_paths l.disk) in
      let started : Loop V F S = record l { last_scan_ms = now } in
      let l' = (pick_up_all s now on_disk started).1 in
      let gone = absent_from on_disk l' in
      rw ((gone_ids gone l').0) (
        drop_gone-live gone l' id
        ∙ ap (λ b. b && not (holds (closed_ids (drop_gone gone l').0) id))
            (pick_up_all-live s now on_disk started id))

  -- What the scan opens and what it finds gone; no close is reported as the engine's own.
  scan-live :
      (s : Serde F) (now : ℤ) (l : Loop V F S) (id : Text)
      → let (ns, cs, l') = scan s now l in
        contains_key id l'.connections ≡ (
          (contains_key id l.connections || holds (new_ids ns) id) && not (holds (found_ids cs) id))
  unfolding scan
  scan-live s now l id = elim (Bool-cases (is_due now l.last_scan_ms scan_interval_ms)) [
    | inl due ↦ rw (due, scan) (scan_now-live s now l id)
    | inr early ↦ rw (early, scan) (ground arith)
  ]

  scan-deferred : (s : Serde F) (now : ℤ) (l : Loop V F S) → deferred_ids (scan s now l).1 ≡ []
  unfolding scan scan_now
  scan-deferred s now l = elim (Bool-cases (is_due now l.last_scan_ms scan_interval_ms)) [
    | inl due ↦ rw (due, scan) ((gone_ids _ _).1)
    | inr early ↦ rw (early, scan) refl
  ]

  scan-Keeps : (s : Serde F) (now : ℤ) (l : Loop V F S) → Keeps l (scan s now l).2
  unfolding scan scan_now
  scan-Keeps s now l = elim (Bool-cases (is_due now l.last_scan_ms scan_interval_ms)) [
    | inl due ↦
        let k =
          pick_up_all-Keeps s now (ids_on_disk (connection_profile_paths l.disk))
            (record l { last_scan_ms = now }) in
        let d = drop_gone-Keeps _ _ in
        rw (due, scan) (record { pending = d.pending ∙ k.pending; engine = d.engine ∙ k.engine })
    | inr early ↦ rw (early, scan) (record { pending = refl; engine = refl })
  ]

closed_split :
    (pending : List Text) (cs ds : List ClosedConnection)
    → deferred_ids cs ≡ []
    → deferred_ids ds ≡ []
    → (deferred_ids (map requested pending ++ (cs ++ ds)) ≡ pending)
      × (found_ids (map requested pending ++ (cs ++ ds)) ≡ found_ids cs ++ found_ids ds)
closed_split pending cs ds h k =
    let r = reason_ids pending in
    (
      rw
          (
            deferred_ids-append (map requested pending) (cs ++ ds),
            deferred_ids-append cs ds,
            h,
            k,
            r.0,
          )
          (append-nil pending),
      rw (found_ids-append (map requested pending) (cs ++ ds), found_ids-append cs ds, r.1) refl,
    )

merge : (a g d : Bool) → ((a && not g) && not d) ≡ (a && not (g || d))
merge a g d = ground arith

module _ {V F S : Type 0} (j : Json V) (s : Serde F) where
  -- The events of a round and the registry that they leave.
  pub collect-live :
      (roster : Text → Bool) (now : ℤ) (os : Os) (l : Loop V F S) (id : Text)
      → Agrees roster l
      → let (b, l') = collect j s now os l in contains_key id l'.connections ≡ updated b roster id
  unfolding collect
  collect-live roster now os l id h =
      let l₀ : Loop V F S = record l { pending_engine_closes = [] } in
      let cs = (scan s now l₀).1 in
      let l₁ = (scan s now l₀).2 in
      let heard = (drain_all j now os.reads l₁.connections).1 in
      let l₂ : Loop V F S = record l₁ { connections = heard } in
      let quiet = silent now heard in
      let ds = (drop_inactive quiet l₂).0 in
      let split =
        closed_split l.pending_engine_closes cs ds (scan-deferred s now l₀) (idle_ids quiet l₂).1 in
      rw (split.0, split.1, holds-append (found_ids cs) (found_ids ds) id, (idle_ids quiet l₂).0)
        (drop_inactive-live quiet l₂ id
          ∙ ap (λ b. b && not (holds (closed_ids ds) id))
              (drain_all-keys j now os.reads l₁.connections id
                ∙ scan-live s now l₀ id
                ∙ ap
                    (λ b.
                      (b || holds (new_ids (scan s now l₀).0) id) && not (holds (found_ids cs) id))
                    (h id))
          ∙ merge _ _ _)

  pub collect-Keeps :
      (now : ℤ) (os : Os) (l : Loop V F S)
      → let l' = (collect j s now os l).1 in
        (l'.pending_engine_closes ≡ []) × (l'.engine ≡ l.engine)
  unfolding collect
  collect-Keeps now os l =
      let k = scan-Keeps s now (record l { pending_engine_closes = [] }) in
      let d = drop_inactive-Keeps _ _ in (d.pending ∙ k.pending, d.engine ∙ k.engine)

  -- The ordered closes that a round reports are those that were noted.
  pub collect-deferred :
      (now : ℤ) (os : Os) (l : Loop V F S)
      → deferred_ids (collect j s now os l).0.closed_connections ≡ l.pending_engine_closes
  unfolding collect
  collect-deferred now os l =
      let l₀ : Loop V F S = record l { pending_engine_closes = [] } in
      let scanned = scan s now l₀ in
      let heard = (drain_all j now os.reads scanned.2.connections).1 in
      let quiet = silent now heard in
      let l₂ : Loop V F S = record scanned.2 { connections = heard } in
      (closed_split l.pending_engine_closes scanned.1 (drop_inactive quiet l₂).0
        (scan-deferred s now l₀) (idle_ids quiet l₂).1).0
