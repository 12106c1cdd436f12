-- ===== src/Runtime/Round/Recent.antt =====
-- The registry through a round: ids stay unique, and no connection is left whose client has been
-- silent for two minutes.
pub mod Rounds
use stadhouder.Base.{
  Values-remove, Values-insert, Values, Values-lookup, IsMap-remove, IsMap-insert, IsMap, inl, inr,
  List, [], ◌∷◌, ◌++◌, Text, Result, ok, err, Bool-cases, Option-cases, Result-cases, Assoc, lookup,
  contains_key, insert, remove,
}
use stadhouder.Base.Int.{ℤ}
use stadhouder.Json.{Json}
use stadhouder.Float.{Float}
use stadhouder.State.{Serde, ConnectionProfile, load, connection_profile_paths}
use stadhouder.Pipes.Server.{
  PipeNames, Fifos, InboundServerPipe, OutboundServerPipe, Read, Poller, drain_frames,
  try_serve_poll,
}
use stadhouder.Service.{
  NewConnection, ClosedConnection, OutboundMessage, EngineOutput, Batch, Engine,
}
use stadhouder.Runtime.{LiveConnection, Loop, is_due, scan_interval_ms, client_inactivity_ms}
use stadhouder.Runtime.Scan.{
  install, serve, pick_up, pick_up_all, forget, drop_gone, absent_from, ids_on_disk, scan, scan_now,
}
use stadhouder.Runtime.Drain.{received, heard, drain, drain_all, disconnect, silent, drop_inactive}
use stadhouder.Runtime.Drain.Inactive.{silence, overdue, HasTime}
use stadhouder.Runtime.Output.{
  has_events, queue, queue_all, close, close_all, apply_output, call_engine,
}
use stadhouder.Runtime.Polls.{serve_poll, serve_polls}
use stadhouder.Runtime.Round.{clamp_time, clamp_all}

-- Each id once, and each time of a last message as `Q` says.
abbrev pub Holds : {V : Type 0} → (ℤ → Type 0) → Assoc (LiveConnection V) → Type 0
Holds Q m = IsMap m × Values (λ c. Q c.last_message_ms) m

module _ {V : Type 0} (Q : ℤ → Type 0) where
  insert-Holds :
      (id : Text) (c : LiveConnection V) (m : Assoc (LiveConnection V))
      → Q c.last_message_ms
      → Holds Q m
      → Holds Q (insert id c m)
  insert-Holds id c m q (u, h) = (IsMap-insert id c m u, Values-insert _ id c m q h)

  remove-Holds : (id : Text) (m : Assoc (LiveConnection V)) → Holds Q m → Holds Q (remove id m)
  remove-Holds id m (u, h) = (IsMap-remove id m u, Values-remove _ id m h)

  queue-Holds :
      (o : OutboundMessage V) (m : Assoc (LiveConnection V)) → Holds Q m → Holds Q (queue o m)
  unfolding queue
  queue-Holds o m h = elim (Option-cases (lookup o.connection_id m)) [
    | inl e ↦ rw (queue, e) h
    | inr (c, e) ↦
        rw (queue, e)
          (insert-Holds o.connection_id (record c { outbox = c.outbox ++ o.message ∷ [] }) m
            (Values-lookup (λ c. Q c.last_message_ms) o.connection_id m c h.1 e) h)
  ]

  queue_all-Holds :
      (os : List (OutboundMessage V)) (m : Assoc (LiveConnection V))
      → Holds Q m
      → Holds Q (queue_all os m)
  unfolding queue_all
  queue_all-Holds [] m h = h
  queue_all-Holds (o ∷ os) m h = queue_all-Holds os (queue o m) (queue-Holds o m h)

module _ {V F S : Type 0} (Q : ℤ → Type 0) where
  -- The registry of a loop.
  abbrev pub Good : Loop V F S → Type 0
  Good l = Holds Q l.connections

  install-Good :
      (now : ℤ) (id : Text) (p : ConnectionProfile) (names : PipeNames) (fifos : Fifos)
      (r : Result (InboundServerPipe × OutboundServerPipe)) (l : Loop V F S)
      → Q now
      → Good l
      → Good (install now id p names fifos r l).1
  unfolding install
  install-Good now id p names fifos (err e) l q h = h
  install-Good now id p names fifos (ok (i, o)) l q h = insert-Holds Q id _ l.connections q h

  pick_up-Good :
      (s : Serde F) (now : ℤ) (id path : Text) (l : Loop V F S)
      → Q now
      → Good l
      → Good (pick_up s now id path l).1
  unfolding pick_up serve
  pick_up-Good s now id path l q h = elim (Bool-cases (contains_key id l.connections)) [
    | inl old ↦ rw (pick_up, old) h
    | inr new ↦ elim (Result-cases (load s path l.disk)) [
      | inl (p, e) ↦ rw (pick_up, new, e) (install-Good now id p _ _ _ l q h)
      | inr (m, e) ↦ rw (pick_up, new, e) h
    ]
  ]

  pick_up_all-Good :
      (s : Serde F) (now : ℤ) (m : Assoc Text) (l : Loop V F S)
      → Q now
      → Good l
      → Good (pick_up_all s now m l).1
  unfolding pick_up_all
  pick_up_all-Good s now [] l q h = h
  pick_up_all-Good s now ((id, path) ∷ rest) l q h =
      pick_up_all-Good s now rest (pick_up s now id path l).1 q (pick_up-Good s now id path l q h)

  forget-Good : (id : Text) (l : Loop V F S) → Good l → Good (forget id l)
  unfolding forget
  forget-Good id l h = elim (Option-cases (lookup id l.connections)) [
    | inl e ↦ rw (forget, e) h
    | inr (c, e) ↦ rw (forget, e) (remove-Holds Q id l.connections h)
  ]

  drop_gone-Good : (ids : List Text) (l : Loop V F S) → Good l → Good (drop_gone ids l).1
  unfolding drop_gone
  drop_gone-Good [] l h = h
  drop_gone-Good (id ∷ ids) l h = drop_gone-Good ids (forget id l) (forget-Good id l h)

  pub scan-Good : (s : Serde F) (now : ℤ) (l : Loop V F S) → Q now → Good l → Good (scan s now l).2
  unfolding scan scan_now
  scan-Good s now l q h = elim (Bool-cases (is_due now l.last_scan_ms scan_interval_ms)) [
    | inl due ↦
        let on_disk = ids_on_disk (connection_profile_paths l.disk) in
        rw (scan, due)
          (drop_gone-Good _ _
            (pick_up_all-Good s now on_disk (record l { last_scan_ms = now }) q h))
    | inr early ↦ rw (scan, early) h
  ]

  disconnect-Good : (id : Text) (l : Loop V F S) → Good l → Good (disconnect id l)
  unfolding disconnect
  disconnect-Good id l h = elim (Option-cases (lookup id l.connections)) [
    | inl e ↦ rw (disconnect, e) h
    | inr (c, e) ↦ rw (disconnect, e) (remove-Holds Q id l.connections h)
  ]

  pub drop_inactive-Good :
      (ids : List Text) (l : Loop V F S) → Good l → Good (drop_inactive ids l).1
  unfolding drop_inactive
  drop_inactive-Good [] l h = h
  drop_inactive-Good (id ∷ ids) l h =
      drop_inactive-Good ids (disconnect id l) (disconnect-Good id l h)

  close_all-Good : (ids : List Text) (l : Loop V F S) → Good l → Good (close_all ids l)
  unfolding close_all close
  close_all-Good [] l h = h
  close_all-Good (id ∷ ids) l h = elim (Bool-cases (contains_key id l.connections)) [
    | inl there ↦
        rw (close_all, close, there)
          (close_all-Good ids (record (disconnect id l) { pending_engine_closes = _ })
            (disconnect-Good id l h))
    | inr absent ↦ rw (close_all, close, absent) (close_all-Good ids l h)
  ]

  pub call_engine-Good :
      (e : Engine V F S) (b : Batch V F) (l : Loop V F S) → Good l → Good (call_engine e b l).1
  unfolding call_engine apply_output
  call_engine-Good e b l h = elim (Bool-cases (has_events b)) [
    | inl told ↦ rw (call_engine, told) (close_all-Good _ _ (queue_all-Holds Q _ l.connections h))
    | inr quiet ↦ rw (call_engine, quiet) h
  ]
