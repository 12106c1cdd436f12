-- ===== src/Runtime/Drain.antt =====
-- Lines 293 to 336 of runtime.rs: the messages that arrived, and the clients that fell silent.
pub mod Messages
pub mod Inactive
use stadhouder.Base.{
  Option, none, some, List, [], ◌∷◌, ◌++◌, Text, Result, ok, err, if◌then◌else◌, Assoc, lookup,
  remove,
}
use stadhouder.Base.Int.{ℤ}
use stadhouder.Json.{Json}
use stadhouder.Heartbeat.{is_heartbeat}
use stadhouder.Pipes.Server.{Read, InboundServerPipe, drain_frames, Fifos}
use stadhouder.Service.{InboundMessage, ClosedConnection, server_idle_timeout}
use stadhouder.Runtime.{LiveConnection, Loop, is_due, client_inactivity_ms, teardown}
use stadhouder.Disk.{Disk}

module _ {V : Type 0} (j : Json V) where
  -- What a frame is to the engine: nothing if it is no JSON or a heartbeat.
  unfoldable pub message_of : Option V → Option V
  message_of none = none
  message_of (some m) = if is_heartbeat j m then none else some m

  unfoldable pub messages_of : Text → List Text → List (InboundMessage V)
  unfolding message_of
  messages_of id [] = []
  messages_of id (frame ∷ frames) =
      let rest = messages_of id frames in
      elim (message_of (j.from_str frame)) [
        | none ↦ rest
        | some m ↦ record { connection_id = id; message = m } ∷ rest
      ]

  unfoldable pub heard : ℤ → List Text → LiveConnection V → LiveConnection V
  heard now_ms [] c = c
  heard now_ms (frame ∷ frames) c = record c { last_message_ms = now_ms }

  unfoldable pub received :
      ℤ
      → Text
      → LiveConnection V
      → Result (List Text) × InboundServerPipe
      → List (InboundMessage V) × LiveConnection V
  unfolding heard
  received now_ms id c (err e, p) = ([], record c { inbound = p })
  received now_ms id c (ok frames, p) =
      (messages_of id frames, heard now_ms frames (record c { inbound = p }))

  -- One connection's pipe.
  unfoldable pub drain :
      ℤ → (Text → List Read) → Text → LiveConnection V → List (InboundMessage V) × LiveConnection V
  unfolding received
  drain now_ms reads id c = received now_ms id c (drain_frames (reads id) c.inbound)

  unfoldable pub drain_all :
      ℤ
      → (Text → List Read)
      → Assoc (LiveConnection V)
      → List (InboundMessage V) × Assoc (LiveConnection V)
  unfolding drain
  drain_all now_ms reads [] = ([], [])
  drain_all now_ms reads ((id, c) ∷ m) =
      let (ms, c') = drain now_ms reads id c in
      let (rest, m') = drain_all now_ms reads m in (ms ++ rest, (id, c') ∷ m')

module _ {V : Type 0} where
  unfoldable pub silent : ℤ → Assoc (LiveConnection V) → List Text
  silent now_ms [] = []
  silent now_ms ((id, c) ∷ m) =
      let rest = silent now_ms m in
      if is_due now_ms c.last_message_ms client_inactivity_ms then id ∷ rest else rest

module _ {V F S : Type 0} where
  torn : Text → Option (LiveConnection V) → Loop V F S → Loop V F S
  torn id none l = l
  torn id (some c) l =
      let (disk, fifos) = teardown id c (l.disk, l.fifos) in
      record l { connections = remove id l.connections; disk = disk; fifos = fifos }

  -- `if let Some(connection) = connections.remove(&id) { teardown(…) }`
  unfoldable pub disconnect : Text → Loop V F S → Loop V F S
  unfolding torn
  disconnect id l = torn id (lookup id l.connections) l

  unfoldable pub drop_inactive : List Text → Loop V F S → List ClosedConnection × Loop V F S
  unfolding disconnect
  drop_inactive [] l = ([], l)
  drop_inactive (id ∷ ids) l =
      let (cs, l') = drop_inactive ids (disconnect id l) in
      (record { connection_id = id; reason = server_idle_timeout } ∷ cs, l')
