-- ===== src/Runtime/Registry/Steps.antt =====
-- Which connections each stage of a round adds to the registry and takes out of it.
use stadhouder.Base.{
  Bool-cases, Result-cases, ◌≡◌, refl, ap, Bool, ◌||◌, List, [], ◌∷◌, ◌++◌, map, Text, contains_key,
  holds, contains_key-insert, contains_key-lookup, contains_key-remove, text_eq_iff, holds-append,
  lookup, inl, inr, Option-cases, Result, ok, err, ◌∙◌, not, ◌&&◌, Assoc, arith, text_eq,
}
use stadhouder.Base.Int.{ℤ}
use stadhouder.Json.{Json}
use stadhouder.State.{Serde, ConnectionProfile, load}
use stadhouder.Pipes.Server.{PipeNames, Fifos, InboundServerPipe, OutboundServerPipe, Read, Poller}
use stadhouder.Service.{NewConnection, ClosedConnection, OutboundMessage}
use stadhouder.Runtime.{LiveConnection, Loop}
use stadhouder.Runtime.Scan.{install, serve, pick_up, pick_up_all, forget, drop_gone}
use stadhouder.Runtime.Drain.{drain_all, disconnect, drop_inactive}
use stadhouder.Runtime.Output.{queue, queue_all}
use stadhouder.Runtime.Polls.{serve_polls}

abbrev pub new_ids : List NewConnection → List Text
new_ids = map λ n. n.connection_id

abbrev pub closed_ids : List ClosedConnection → List Text
closed_ids = map λ c. c.connection_id

pub new_ids-append : (xs ys : List NewConnection) → new_ids (xs ++ ys) ≡ new_ids xs ++ new_ids ys
new_ids-append [] ys = refl
new_ids-append (x ∷ xs) ys = ap (◌∷◌ x.connection_id) (new_ids-append xs ys)

-- The registry holds a connection.
abbrev pub live : {V F S : Type 0} → Loop V F S → Text → Bool
live l id = contains_key id l.connections

module _ {V F S : Type 0} where
  install-live :
      (now : ℤ) (k : Text) (p : ConnectionProfile) (names : PipeNames) (fifos : Fifos)
      (r : Result (InboundServerPipe × OutboundServerPipe)) (l : Loop V F S) (id : Text)
      → live (install now k p names fifos r l).1 id
        ≡ (live l id || holds (new_ids (install now k p names fifos r l).0) id)
  unfolding install
  install-live now k p names fifos (err e) l id = ground arith
  install-live now k p names fifos (ok (i, o)) l id = rw contains_key-insert (ground arith)

  serve-live :
      (now : ℤ) (k : Text) (p : ConnectionProfile) (l : Loop V F S) (id : Text)
      → live (serve now k p l).1 id ≡ (live l id || holds (new_ids (serve now k p l).0) id)
  unfolding serve
  serve-live now k p l id = install-live now k p _ _ _ l id

  pub pick_up-live :
      (s : Serde F) (now : ℤ) (k path : Text) (l : Loop V F S) (id : Text)
      → live (pick_up s now k path l).1 id
        ≡ (live l id || holds (new_ids (pick_up s now k path l).0) id)
  unfolding pick_up
  pick_up-live s now k path l id = elim (Bool-cases (contains_key k l.connections)) [
    | inl old ↦ rw (old, pick_up) (ground arith)
    | inr new ↦ elim (Result-cases (load s path l.disk)) [
      | inl (p, e) ↦ rw (new, e, pick_up) (serve-live now k p l id)
      | inr (m, e) ↦ rw (new, e, pick_up) (ground arith)
    ]
  ]

  pub pick_up_all-live :
      (s : Serde F) (now : ℤ) (m : Assoc Text) (l : Loop V F S) (id : Text)
      → live (pick_up_all s now m l).1 id
        ≡ (live l id || holds (new_ids (pick_up_all s now m l).0) id)
  unfolding pick_up_all
  pick_up_all-live s now [] l id = ground arith
  pick_up_all-live s now ((k, path) ∷ m) l id =
      let (ns, l') = pick_up s now k path l in
      let (ms, l'') = pick_up_all s now m l' in
      rw (new_ids-append ns ms, holds-append (new_ids ns) (new_ids ms) id)
        (ground (arith, pick_up-live s now k path l id, pick_up_all-live s now m l' id))

  forget-live :
      (k : Text) (l : Loop V F S) (id : Text)
      → live (forget k l) id ≡ (live l id && not (text_eq k id))
  unfolding forget
  forget-live k l id = ground (
    arith,
    contains_key-remove k id l.connections,
    contains_key-lookup k l.connections,
    text_eq_iff k id,
  )

  pub drop_gone-live :
      (ids : List Text) (l : Loop V F S) (id : Text)
      → live (drop_gone ids l).1 id ≡ (live l id && not (holds (closed_ids (drop_gone ids l).0) id))
  unfolding drop_gone
  drop_gone-live [] l id = ground arith
  drop_gone-live (k ∷ ids) l id =
      ground (arith, forget-live k l id, drop_gone-live ids (forget k l) id)

  pub disconnect-live :
      (k : Text) (l : Loop V F S) (id : Text)
      → live (disconnect k l) id ≡ (live l id && not (text_eq k id))
  unfolding disconnect
  disconnect-live k l id = ground (
    arith,
    contains_key-remove k id l.connections,
    contains_key-lookup k l.connections,
    text_eq_iff k id,
  )

  pub drop_inactive-live :
      (ids : List Text) (l : Loop V F S) (id : Text)
      → live (drop_inactive ids l).1 id
        ≡ (live l id && not (holds (closed_ids (drop_inactive ids l).0) id))
  unfolding drop_inactive
  drop_inactive-live [] l id = ground arith
  drop_inactive-live (k ∷ ids) l id =
      ground (arith, disconnect-live k l id, drop_inactive-live ids (disconnect k l) id)

module _ {V : Type 0} (j : Json V) where
  pub drain_all-keys :
      (now : ℤ) (reads : Text → List Read) (m : Assoc (LiveConnection V)) (id : Text)
      → contains_key id (drain_all j now reads m).1 ≡ contains_key id m
  unfolding drain_all contains_key
  drain_all-keys now reads [] id = refl
  drain_all-keys now reads ((k, c) ∷ m) id = ground (arith, drain_all-keys now reads m id)

  pub serve_polls-keys :
      (now : ℤ) (pollers : Text → Poller) (m : Assoc (LiveConnection V)) (id : Text)
      → contains_key id (serve_polls j now pollers m).1 ≡ contains_key id m
  unfolding serve_polls contains_key
  serve_polls-keys now pollers [] id = refl
  serve_polls-keys now pollers ((k, c) ∷ m) id = ground (arith, serve_polls-keys now pollers m id)

module _ {V : Type 0} where
  queue-keys :
      (o : OutboundMessage V) (m : Assoc (LiveConnection V)) (id : Text)
      → contains_key id (queue o m) ≡ contains_key id m
  unfolding queue
  queue-keys o m id = elim (Option-cases (lookup o.connection_id m)) [
    | inl e ↦ rw (e, queue) refl
    | inr (c, e) ↦
        rw (e, queue)
          (rw contains_key-insert (
            ground
              (arith, e, contains_key-lookup o.connection_id m, text_eq_iff o.connection_id id)))
  ]

  pub queue_all-keys :
      (os : List (OutboundMessage V)) (m : Assoc (LiveConnection V)) (id : Text)
      → contains_key id (queue_all os m) ≡ contains_key id m
  unfolding queue_all
  queue_all-keys [] m id = refl
  queue_all-keys (o ∷ os) m id = queue_all-keys os (queue o m) id ∙ queue-keys o m id
