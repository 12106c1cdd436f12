-- ===== src/Runtime/Output.antt =====
-- Lines 354 to 413 of runtime.rs: the call of the engine, and what its output changes.
pub mod Outgoing
use stadhouder.Base.{
  Bool, false, not, ◌||◌, none, some, List, [], ◌∷◌, ◌++◌, Text, is_empty, if◌then◌else◌, Assoc,
  lookup, contains_key, insert,
}
use stadhouder.Service.{OutboundMessage, EngineOutput, Batch, Engine}
use stadhouder.Runtime.{LiveConnection, Loop}
use stadhouder.Runtime.Drain.{disconnect}
use stadhouder.Runtime.Timers.{reschedule}

module _ {V : Type 0} where
  -- Some event is there to tell the engine of.
  unfoldable pub has_events : {F : Type 0} → Batch V F → Bool
  has_events b =
      not (is_empty b.new_connections)
      || not (is_empty b.closed_connections)
      || not (is_empty b.messages)
      || not (is_empty b.expired_timers)

  -- A message to a connection that is not there is dropped.
  unfoldable pub queue : OutboundMessage V → Assoc (LiveConnection V) → Assoc (LiveConnection V)
  queue m cs = elim (lookup m.connection_id cs) [
    | none ↦ cs
    | some c ↦ insert m.connection_id (record c { outbox = c.outbox ++ m.message ∷ [] }) cs
  ]

  unfoldable pub queue_all :
      List (OutboundMessage V) → Assoc (LiveConnection V) → Assoc (LiveConnection V)
  unfolding queue
  queue_all [] cs = cs
  queue_all (m ∷ ms) cs = queue_all ms (queue m cs)

module _ {V F S : Type 0} where
  -- One close that the engine orders.
  unfoldable pub close : Text → Loop V F S → Loop V F S
  close id l =
      if contains_key id l.connections
      then (let l' = disconnect id l in
          record l' { pending_engine_closes = l'.pending_engine_closes ++ id ∷ [] })
      else l

  unfoldable pub close_all : List Text → Loop V F S → Loop V F S
  unfolding close
  close_all [] l = l
  close_all (id ∷ ids) l = close_all ids (close id l)

  unfoldable pub apply_output : EngineOutput V → Loop V F S → Loop V F S
  apply_output output l =
      let queued : Loop V F S = record l {
        connections = queue_all output.messages l.connections;
      } in
      let closed = close_all output.close_connections queued in
      record closed { timers = reschedule output.cancel_timers output.timers closed.timers }

  -- Whether the engine orders the shutdown, and the loop after it.
  unfoldable pub call_engine : Engine V F S → Batch V F → Loop V F S → Bool × Loop V F S
  unfolding has_events apply_output
  call_engine e b l =
      if has_events b
      then (let (output, engine) = e.process_messages b l.engine in
          (output.shutdown, apply_output output (record l { engine = engine })))
      else (false, l)
