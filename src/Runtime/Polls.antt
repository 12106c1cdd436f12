-- ===== src/Runtime/Polls.antt =====
-- Lines 415 to 433 of runtime.rs: the waiting polls are answered.
pub mod Answer
use stadhouder.Base.{Bool, true, false, List, [], ◌∷◌, ◌++◌, Text, Result, ok, err, Assoc}
use stadhouder.Base.Int.{ℤ}
use stadhouder.Utf8.{Bytes}
use stadhouder.Json.{Json}
use stadhouder.Pipes.Server.{Poller, try_serve_poll}
use stadhouder.Runtime.{LiveConnection}

module _ {V : Type 0} where
  -- What becomes of the connection, and what its poller was sent. `provide` has emptied the outbox
  -- exactly where a poller was there.
  unfoldable pub answered :
      ℤ → Text → LiveConnection V → Result Bool × Bytes → List (Text × Bytes) × LiveConnection V
  answered now_ms id c (ok true, sent) =
      ((id, sent) ∷ [], record c { outbox = []; last_message_ms = now_ms })
  answered now_ms id c (ok false, sent) = ([], c)
  answered now_ms id c (err e, sent) = ([], c)

  module _ (j : Json V) where
    unfoldable pub serve_poll :
        ℤ → (Text → Poller) → Text → LiveConnection V → List (Text × Bytes) × LiveConnection V
    unfolding answered try_serve_poll
    serve_poll now_ms pollers id c =
        answered now_ms id c (try_serve_poll (pollers id) (j.to_string (j.array c.outbox)))

    unfoldable pub serve_polls :
        ℤ
        → (Text → Poller)
        → Assoc (LiveConnection V)
        → List (Text × Bytes) × Assoc (LiveConnection V)
    unfolding serve_poll
    serve_polls now_ms pollers [] = ([], [])
    serve_polls now_ms pollers ((id, c) ∷ m) =
        let (sent, c') = serve_poll now_ms pollers id c in
        let (rest, m') = serve_polls now_ms pollers m in (sent ++ rest, (id, c') ∷ m')
