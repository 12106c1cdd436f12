-- ===== src/Runtime/Output/Outgoing.antt =====
-- What becomes of the messages that the engine sends.
use mathlib.Core.List.{append-nil, append_assoc}
use stadhouder.Base.{
  ◌≡◌, refl, ap, sym, ◌∙◌, true, Option, none, some, List, [], ◌∷◌, ◌++◌, map, arith, Text, filter,
  any, if◌then◌else◌, text_eq, text_eq_iff, inl, inr, Bool-cases, Option-cases, Assoc, lookup,
  contains_key-lookup, lookup-insert,
}
use stadhouder.Base.Int.{ℤ}
use stadhouder.Json.{Json}
use stadhouder.Pipes.Server.{Poller}
use stadhouder.Service.{OutboundMessage, EngineOutput}
use stadhouder.Runtime.{LiveConnection, Loop}
use stadhouder.Runtime.Drain.Inactive.{lookup-disconnect}
use stadhouder.Runtime.Output.{queue, queue_all, close, close_all, apply_output}
use stadhouder.Runtime.Polls.{serve_polls}
use stadhouder.Runtime.Polls.Answer.{unsent-serve_polls}

module _ {V : Type 0} where
  -- The messages for one connection, in their order.
  abbrev pub addressed : Text → List (OutboundMessage V) → List V
  addressed id ms = map OutboundMessage.message (filter (λ m. text_eq m.connection_id id) ms)

  abbrev pub with_queued : List V → Option (LiveConnection V) → Option (LiveConnection V)
  with_queued vs none = none
  with_queued vs (some c) = some (record c { outbox = c.outbox ++ vs })

  with_queued-nil : (o : Option (LiveConnection V)) → o ≡ with_queued [] o
  with_queued-nil none = refl
  with_queued-nil (some c) = rw (append-nil c.outbox) refl

  with_queued-append :
      (vs ws : List V) (o : Option (LiveConnection V))
      → with_queued ws (with_queued vs o) ≡ with_queued (vs ++ ws) o
  with_queued-append vs ws none = refl
  with_queued-append vs ws (some c) = rw (append_assoc c.outbox vs ws) refl

  lookup-queue :
      (id : Text) (m : OutboundMessage V) (cs : Assoc (LiveConnection V))
      → lookup id (queue m cs)
        ≡ with_queued (if text_eq m.connection_id id then m.message ∷ [] else []) (lookup id cs)
  unfolding queue
  lookup-queue id m cs = elim (Option-cases (lookup m.connection_id cs)) [
    | inl e ↦ elim (Bool-cases (text_eq m.connection_id id)) [
      | inl t ↦ rw (e, queue, t, sym ((text_eq_iff m.connection_id id).0 t), e) refl
      | inr f ↦ rw (e, queue, f) (with_queued-nil (lookup id cs))
    ]
    | inr (c, e) ↦ elim (Bool-cases (text_eq m.connection_id id)) [
      | inl t ↦
          rw
            (
              e,
              queue,
              lookup-insert m.connection_id id (record c { outbox = c.outbox ++ m.message ∷ [] })
                  cs,
              t,
              sym ((text_eq_iff m.connection_id id).0 t),
              e,
            )
            refl
      | inr f ↦
          rw
            (
              e,
              queue,
              lookup-insert m.connection_id id (record c { outbox = c.outbox ++ m.message ∷ [] })
                  cs,
              f,
            )
            (with_queued-nil (lookup id cs))
    ]
  ]

  lookup-queue_all :
      (id : Text) (ms : List (OutboundMessage V)) (cs : Assoc (LiveConnection V))
      → lookup id (queue_all ms cs) ≡ with_queued (addressed id ms) (lookup id cs)
  unfolding queue_all
  lookup-queue_all id [] cs = with_queued-nil (lookup id cs)
  lookup-queue_all id (m ∷ ms) cs =
      lookup-queue_all id ms (queue m cs)
      ∙ ap (with_queued (addressed id ms)) (lookup-queue id m cs)
      ∙ with_queued-append (if text_eq m.connection_id id then m.message ∷ [] else [])
          (addressed id ms) (lookup id cs)
      ∙ ap (λ vs. with_queued vs (lookup id cs)) (ground arith)

module _ {V F S : Type 0} where
  lookup-close :
      (id k : Text) (l : Loop V F S)
      → lookup id (close k l).connections ≡ (if text_eq k id then none else lookup id l.connections)
  unfolding close
  lookup-close id k l =
      ground
        (arith, lookup-disconnect id k l, contains_key-lookup k l.connections, text_eq_iff k id)

  lookup-close_all :
      (id : Text) (ids : List Text) (l : Loop V F S)
      → lookup id (close_all ids l).connections
        ≡ (if any (text_eq id) ids then none else lookup id l.connections)
  unfolding close_all
  lookup-close_all id [] l = refl
  lookup-close_all id (k ∷ ids) l =
      rw (lookup-close_all id ids (close k l), lookup-close id k l)
        (ground (arith, text_eq_iff k id, text_eq_iff id k))

  -- After a call of the engine a connection is there exactly if it was there and the engine does not
  -- close it; it then has, behind what was queued before, the engine's messages to it, in order and
  -- once each.
  pub lookup-apply_output :
      (id : Text) (o : EngineOutput V) (l : Loop V F S)
      → lookup id (apply_output o l).connections ≡ (
          if any (text_eq id) o.close_connections
          then none
          else with_queued (addressed id o.messages) (lookup id l.connections))
  unfolding apply_output
  lookup-apply_output id o l =
      rw
        (
          lookup-close_all id o.close_connections
              (record l { connections = queue_all o.messages l.connections }),
          lookup-queue_all id o.messages l.connections,
        )
        refl

  -- A client whose connection the engine closes gets none of the messages that were queued for it, also
  -- those of the same output: whoever waits on its pipe, the round sends it nothing.
  pub close_drops_messages :
      (j : Json V) (now_ms : ℤ) (pollers : Text → Poller) (id : Text) (o : EngineOutput V)
      (l : Loop V F S)
      → any (text_eq id) o.close_connections ≡ true
      → lookup id (serve_polls j now_ms pollers (apply_output o l).connections).0 ≡ none
  close_drops_messages j now_ms pollers id o l h =
      unsent-serve_polls j now_ms pollers id (apply_output o l).connections
        (rw (lookup-apply_output id o l, h) refl)
