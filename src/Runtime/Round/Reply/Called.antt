-- ===== src/Runtime/Round/Reply/Called.antt =====
-- One connection from the events of a round to the answer of its poll.
use stadhouder.Base.{
  ℕ, ◌≡◌, refl, ap, sym, ◌∙◌, true, false, not, Option, some, List, [], ◌∷◌, ◌++◌, map, arith, Text,
  All, filter, any, ok, text_eq, lookup, contains_key, is_empty,
}
use stadhouder.Base.Int.{ℤ, pos, IsTime, +ℤ_parts}
use stadhouder.Utf8.{Bytes}
use stadhouder.Json.{Json, ReadsBack}
use stadhouder.Float.{Float}
use stadhouder.Heartbeat.{is_heartbeat}
use stadhouder.State.{Serde, connection_profile_paths}
use stadhouder.Pipes.Frame.{read_frame}
use stadhouder.Pipes.Frame.Laws.{Fits, empty_sink}
use stadhouder.Pipes.Stream.{stream}
use stadhouder.Pipes.Server.{arrivals, joined, waiting}
use stadhouder.Service.{Engine, EngineOutput, Batch, InboundMessage}
use stadhouder.Runtime.{LiveConnection, Loop, client_inactivity_ms}
use stadhouder.Runtime.Scan.{scan, ids_on_disk}
use stadhouder.Runtime.Drain.{drain_all, heard}
use stadhouder.Runtime.Drain.Messages.{delivery, from_client}
use stadhouder.Runtime.Drain.Inactive.{silence, overdue}
use stadhouder.Runtime.Output.{has_events, call_engine}
use stadhouder.Runtime.Output.Outgoing.{addressed, lookup-apply_output}
use stadhouder.Runtime.Polls.Answer.{poll_answer}
use stadhouder.Runtime.Registry.{collect-Keeps}
use stadhouder.Runtime.Round.{Os, collect, act}
use stadhouder.Runtime.Round.Recent.{Good, scan-Good}
use stadhouder.Runtime.Round.Recent.Rounds.{Past, drain_all-IsMap, drain_all-Values, Values-HasTime}
use stadhouder.Runtime.Round.Reply.{own, drain_all-own, scan-lookup}

fresh_last :
    {V : Type 0} (now : ℤ) (c : LiveConnection V)
    → c.last_message_ms ≡ now
    → overdue now (some c) ≡ false
fresh_last now c e = rw e (ground (arith, +ℤ_parts now (pos client_inactivity_ms)))

module _ {V F S : Type 0} (j : Json V) (s : Serde F) where
  -- What the round makes of a connection whose client has written `vs`, up to the call of the engine.
  collect-own :
      (now : ℤ) (os : Os) (l : Loop V F S) (id : Text) (c : LiveConnection V) (v : V) (vs : List V)
      (ss : List Bytes)
      → ReadsBack j
      → IsTime now
      → Good (Past now) l
      → lookup id l.connections ≡ some c
      → contains_key id (ids_on_disk (connection_profile_paths l.disk)) ≡ true
      → All Fits (map j.to_string (v ∷ vs))
      → c.inbound.buffer ≡ []
      → os.reads id ≡ arrivals ss
      → joined ss ≡ stream (map j.to_string (v ∷ vs))
      → let (b, l') = collect j s now os l in
        (own id b.messages ≡ map (from_client j id) (filter (λ x. not (is_heartbeat j x)) (v ∷ vs)))
        × (lookup id l'.connections ≡ some (record c { last_message_ms = now }))
  unfolding collect heard
  collect-own now os l id c v vs ss r h g there held fit empty e k =
      let l₀ : Loop V F S = record l { pending_engine_closes = [] } in
      let l₁ = (scan s now l₀).2 in
      let here : Past now now = (h, omega arith) in
      let (u, p) = scan-Good (Past now) s now l₀ here g in
      let (mine, kept) =
        drain_all-own j now os.reads id l₁.connections c u (scan-lookup s now id l₀ c there held) in
      let got = delivery j now os.reads id c (v ∷ vs) ss r fit empty e k in
      let m = (drain_all j now os.reads l₁.connections).1 in
      let l₂ : Loop V F S = record l₁ { connections = m } in
      let now_there : lookup id m ≡ some (record c { last_message_ms = now }) =
        kept ∙ ap (λ x. some x.1) got in
      let still =
        (silence now id l₂ h
          (Values-HasTime now m (drain_all-Values (Past now) j now os.reads l₁.connections here p))
          (drain_all-IsMap (Past now) j now os.reads l₁.connections u)).0 in
      (
        mine ∙ ap (λ x. x.0) got,
        still ∙ rw (now_there, fresh_last now (record c { last_message_ms = now }) refl) refl,
      )

-- What the client reads: what was queued before, and what the engine has just sent.
abbrev pub poll_value : {V : Type 0} → Json V → LiveConnection V → Text → EngineOutput V → V
poll_value j c id o = j.array (c.outbox ++ addressed id o.messages)

own-not_empty :
    {V : Type 0} (id : Text) (ms xs : List (InboundMessage V)) (x : InboundMessage V)
    → own id ms ≡ x ∷ xs
    → is_empty ms ≡ false
own-not_empty id [] xs x h = cc
own-not_empty id (m ∷ ms) xs x h = refl

module _ {V F S : Type 0} (j : Json V) (f : Float F) (s : Serde F) (limit : Option ℕ)
    (e : Engine V F S) where
  -- A message of the connection makes the round call the engine.
  called :
      (b : Batch V F) (l : Loop V F S) (id : Text) (c : LiveConnection V)
      (xs : List (InboundMessage V)) (x : InboundMessage V)
      → own id b.messages ≡ x ∷ xs
      → lookup id l.connections ≡ some c
      → any (text_eq id) (e.process_messages b l.engine).0.close_connections ≡ false
      → lookup id (call_engine e b l).1.connections
        ≡ some (record c {
          outbox = c.outbox ++ addressed id (e.process_messages b l.engine).0.messages;
        })
  unfolding call_engine has_events
  called b l id c xs x mine there open_ =
      let (o, t) = e.process_messages b l.engine in
      let events : has_events b ≡ true = ground (arith, own-not_empty id b.messages xs x mine) in
      rw (events) (lookup-apply_output id o (record l { engine = t }) ∙ rw (open_, there) refl)

  pub act-poll_value :
      (now : ℤ) (os : Os) (l : Loop V F S) (id : Text) (c : LiveConnection V) (v : V) (vs : List V)
      (ss : List Bytes) (o : EngineOutput V)
      → ReadsBack j
      → IsTime now
      → Good (Past now) l
      → lookup id l.connections ≡ some c
      → contains_key id (ids_on_disk (connection_profile_paths l.disk)) ≡ true
      → All Fits (map j.to_string (v ∷ vs))
      → is_heartbeat j v ≡ false
      → c.inbound.buffer ≡ []
      → os.reads id ≡ arrivals ss
      → joined ss ≡ stream (map j.to_string (v ∷ vs))
      → o ≡ (e.process_messages (collect j s now os l).0 l.engine).0
      → any (text_eq id) o.close_connections ≡ false
      → os.pollers id ≡ waiting empty_sink
      → Fits (j.to_string (poll_value j c id o))
      → (own id (collect j s now os l).0.messages
          ≡ map (from_client j id) (filter (λ x. not (is_heartbeat j x)) (v ∷ vs)))
        × (b : Bytes) × (lookup id (act j f s limit e now os l).1 ≡ some b)
        × (read_frame b ≡ ok (j.to_string (poll_value j c id o), []))
        × (j.from_str (j.to_string (poll_value j c id o)) ≡ some (poll_value j c id o))
  unfolding act
  act-poll_value now os l id c v vs ss o r h g there held fit loud empty ek k eo open_ w small =
      let (batch, l₁) = collect j s now os l in
      let (mine, kept) = collect-own j s now os l id c v vs ss r h g there held fit empty ek k in
      let same : o ≡ (e.process_messages batch l₁.engine).0 =
        eo ∙ ap (λ t. (e.process_messages batch t).0) (sym (collect-Keeps j s now os l).1) in
      let c' : LiveConnection V = record c {
        last_message_ms = now;
        outbox = c.outbox ++ addressed id o.messages;
      } in
      let l₂ = (call_engine e batch l₁).1 in
      let at : lookup id l₂.connections ≡ some c' = rw same (
        called batch l₁ id (record c { last_message_ms = now })
          (map (from_client j id) (filter (λ x. not (is_heartbeat j x)) vs)) (from_client j id v)
          (mine ∙ rw loud refl) kept (rw (← same) open_)) in
      let (_, b, sent, reads, back) =
        poll_answer j now os.pollers id l₂.connections c' r at small w in
      (mine, b, sent, reads, back)
