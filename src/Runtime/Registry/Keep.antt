-- ===== src/Runtime/Registry/Keep.antt =====
-- What the stages of a round leave alone: the engine, and the closes that are yet to be reported.
use stadhouder.Base.{
  ◌≡◌, refl, ap, ◌∙◌, inl, inr, List, [], ◌∷◌, map, arith, Text, Result, ok, err, Bool-cases,
  Result-cases, Assoc, contains_key,
}
use stadhouder.Base.Int.{ℤ}
use stadhouder.State.{Serde, ConnectionProfile, load}
use stadhouder.Pipes.Server.{PipeNames, Fifos, InboundServerPipe, OutboundServerPipe}
use stadhouder.Service.{CloseReason, ClosedConnection, client_disconnected, server_idle_timeout}
use stadhouder.Runtime.{Loop}
use stadhouder.Runtime.Scan.{install, serve, pick_up, pick_up_all, forget, drop_gone}
use stadhouder.Runtime.Drain.{disconnect, drop_inactive}

abbrev pub closed_for : CloseReason → Text → ClosedConnection
closed_for reason id = record { connection_id = id; reason = reason }

pub record Keeps {V F S : Type 0} (l l' : Loop V F S) : Type 0 where
  pub pending : l'.pending_engine_closes ≡ l.pending_engine_closes
  pub engine : l'.engine ≡ l.engine

module _ {V F S : Type 0} where
  Keeps-trans : {l l' l'' : Loop V F S} → Keeps l l' → Keeps l' l'' → Keeps l l''
  Keeps-trans h k = record { pending = k.pending ∙ h.pending; engine = k.engine ∙ h.engine }

  install-Keeps :
      (now : ℤ) (k : Text) (p : ConnectionProfile) (names : PipeNames) (fifos : Fifos)
      (r : Result (InboundServerPipe × OutboundServerPipe)) (l : Loop V F S)
      → Keeps l (install now k p names fifos r l).1
  unfolding install
  install-Keeps now k p names fifos (err e) l = record { pending = refl; engine = refl }
  install-Keeps now k p names fifos (ok (i, o)) l = record { pending = refl; engine = refl }

  pick_up-Keeps :
      (s : Serde F) (now : ℤ) (k path : Text) (l : Loop V F S) → Keeps l (pick_up s now k path l).1
  unfolding pick_up serve
  pick_up-Keeps s now k path l = elim (Bool-cases (contains_key k l.connections)) [
    | inl old ↦ rw (old, pick_up) (record { pending = refl; engine = refl })
    | inr new ↦ elim (Result-cases (load s path l.disk)) [
      | inl (p, e) ↦ rw (new, e, pick_up) (install-Keeps now k p _ _ _ l)
      | inr (m, e) ↦ rw (new, e, pick_up) (record { pending = refl; engine = refl })
    ]
  ]

  pub pick_up_all-Keeps :
      (s : Serde F) (now : ℤ) (m : Assoc Text) (l : Loop V F S) → Keeps l (pick_up_all s now m l).1
  unfolding pick_up_all
  pick_up_all-Keeps s now [] l = record { pending = refl; engine = refl }
  pick_up_all-Keeps s now ((k, path) ∷ m) l =
      Keeps-trans (pick_up-Keeps s now k path l)
        (pick_up_all-Keeps s now m (pick_up s now k path l).1)

  forget-Keeps : (k : Text) (l : Loop V F S) → Keeps l (forget k l)
  unfolding forget
  forget-Keeps k l = ground arith

  pub drop_gone-Keeps : (ids : List Text) (l : Loop V F S) → Keeps l (drop_gone ids l).1
  unfolding drop_gone
  drop_gone-Keeps [] l = record { pending = refl; engine = refl }
  drop_gone-Keeps (k ∷ ids) l = Keeps-trans (forget-Keeps k l) (drop_gone-Keeps ids (forget k l))

  pub disconnect-Keeps : (k : Text) (l : Loop V F S) → Keeps l (disconnect k l)
  unfolding disconnect
  disconnect-Keeps k l = ground arith

  pub drop_inactive-Keeps : (ids : List Text) (l : Loop V F S) → Keeps l (drop_inactive ids l).1
  unfolding drop_inactive
  drop_inactive-Keeps [] l = record { pending = refl; engine = refl }
  drop_inactive-Keeps (k ∷ ids) l =
      Keeps-trans (disconnect-Keeps k l) (drop_inactive-Keeps ids (disconnect k l))

  -- Every close that a stage finds has the reason of that stage.
  pub drop_gone-reasons :
      (ids : List Text) (l : Loop V F S)
      → (drop_gone ids l).0 ≡ map (closed_for client_disconnected) ids
  unfolding drop_gone
  drop_gone-reasons [] l = refl
  drop_gone-reasons (k ∷ ids) l =
      ap (◌∷◌ (closed_for client_disconnected k)) (drop_gone-reasons ids (forget k l))

  pub drop_inactive-reasons :
      (ids : List Text) (l : Loop V F S)
      → (drop_inactive ids l).0 ≡ map (closed_for server_idle_timeout) ids
  unfolding drop_inactive
  drop_inactive-reasons [] l = refl
  drop_inactive-reasons (k ∷ ids) l =
      ap (◌∷◌ (closed_for server_idle_timeout k)) (drop_inactive-reasons ids (disconnect k l))
