-- ===== src/Runtime/Round/Reply.antt =====
-- One connection through the stages of a round.
pub mod Called
pub mod Served
use mathlib.Core.Path.{subst}
use mathlib.Core.List.{append-nil}
use stadhouder.Base.{
  ℕ, ◌≡◌, ◌≢◌, refl, ap, sym, ◌∙◌, inl, inr, Bool, true, false, not, Option, none, some, List, [],
  ◌∷◌, ◌++◌, map, arith, Text, All, All-filter, filter, any, Result, ok, err, if◌then◌else◌,
  text_eq, text_eq_iff, Bool-cases, Option-cases, Result-cases, Assoc, lookup, contains_key,
  contains_key-lookup, lookup-insert, lookup-remove, IsMap, is_empty, insert,
}
use stadhouder.Base.Int.{ℤ, IsTime}
use stadhouder.Json.{Json}
use stadhouder.Float.{Float}
use stadhouder.State.{Serde, ConnectionProfile, connection_profile_paths, load}
use stadhouder.Pipes.Server.{
  PipeNames, Fifos, InboundServerPipe, OutboundServerPipe, Read, drain_frames,
}
use stadhouder.Service.{InboundMessage}
use stadhouder.Runtime.{LiveConnection, Loop, is_due, scan_interval_ms}
use stadhouder.Runtime.Scan.{
  install, serve, pick_up, pick_up_all, forget, drop_gone, absent_from, ids_on_disk, keys, scan,
  scan_now,
}
use stadhouder.Runtime.Drain.{messages_of, message_of, received, drain, drain_all}
use stadhouder.Runtime.Round.{clamp_all, clamp_time}

filter-append {ℓ} :
    {A : Type ℓ} (p : A → Bool) (xs ys : List A) → filter p (xs ++ ys) ≡ filter p xs ++ filter p ys
filter-append p [] ys = refl
filter-append p (x ∷ xs) ys = ground (arith, filter-append p xs ys)

module _ {V : Type 0} where
  -- The connection with the time of its last message held to `now`.
  abbrev pub clamped : ℤ → LiveConnection V → LiveConnection V
  clamped now c = record c { last_message_ms = clamp_time now c.last_message_ms }

  pub lookup-clamp_all :
      (now : ℤ) (id : Text) (m : Assoc (LiveConnection V)) (c : LiveConnection V)
      → lookup id m ≡ some c
      → lookup id (clamp_all now m) ≡ some (clamped now c)
  unfolding clamp_all lookup
  lookup-clamp_all now id [] c h = cc
  lookup-clamp_all now id ((i, d) ∷ m) c h = ground (arith, lookup-clamp_all now id m c)

  -- The messages of one connection.
  abbrev pub own : Text → List (InboundMessage V) → List (InboundMessage V)
  own id ms = filter (λ m. text_eq m.connection_id id) ms

  module _ (j : Json V) where
    messages_of-own :
        (id i : Text) (frames : List Text)
        → own id (messages_of j i frames) ≡ (if text_eq i id then messages_of j i frames else [])
    unfolding messages_of
    messages_of-own id i [] = ground arith
    messages_of-own id i (frame ∷ frames) = elim (Option-cases (message_of j (j.from_str frame))) [
      | inl e ↦ rw (e, messages_of) (messages_of-own id i frames)
      | inr (m, e) ↦ rw (e, messages_of) (ground (arith, messages_of-own id i frames))
    ]

    received-own :
        (now : ℤ) (id i : Text) (c : LiveConnection V) (r : Result (List Text) × InboundServerPipe)
        → own id (received j now i c r).0 ≡ (if text_eq i id then (received j now i c r).0 else [])
    unfolding received
    received-own now id i c (err e, p) = ground arith
    received-own now id i c (ok frames, p) = messages_of-own id i frames

    drain-own :
        (now : ℤ) (reads : Text → List Read) (id i : Text) (c : LiveConnection V)
        → own id (drain j now reads i c).0
          ≡ (if text_eq i id then (drain j now reads i c).0 else [])
    unfolding drain
    drain-own now reads id i c = received-own now id i c (drain_frames (reads i) c.inbound)

    drain_all-other :
        (now : ℤ) (reads : Text → List Read) (id : Text) (m : Assoc (LiveConnection V))
        → contains_key id m ≡ false
        → own id (drain_all j now reads m).0 ≡ []
    unfolding drain_all contains_key
    drain_all-other now reads id [] h = refl
    drain_all-other now reads id ((i, c) ∷ m) h =
        filter-append _ (drain j now reads i c).0 (drain_all j now reads m).0
        ∙ ground (arith, drain-own now reads id i c, drain_all-other now reads id m)

    drain_all-head :
        (now : ℤ) (reads : Text → List Read) (id : Text) (c : LiveConnection V)
        (m : Assoc (LiveConnection V))
        → contains_key id m ≡ false
        → own id (drain_all j now reads ((id, c) ∷ m)).0 ≡ (drain j now reads id c).0
    unfolding drain_all
    drain_all-head now reads id c m u =
        filter-append (λ x. text_eq x.connection_id id) (drain j now reads id c).0
          (drain_all j now reads m).0
        ∙ rw
            (
              drain-own now reads id id c,
              (text_eq_iff id id).1 refl,
              drain_all-other now reads id m u,
            )
            (append-nil (drain j now reads id c).0)

    -- What is drained for one connection, among all the messages and in the registry.
    pub drain_all-own :
        (now : ℤ) (reads : Text → List Read) (id : Text) (m : Assoc (LiveConnection V))
        (c : LiveConnection V)
        → IsMap m
        → lookup id m ≡ some c
        → (own id (drain_all j now reads m).0 ≡ (drain j now reads id c).0)
          × (lookup id (drain_all j now reads m).1 ≡ some (drain j now reads id c).1)
    unfolding drain_all lookup
    drain_all-own now reads id [] c u h = cc
    drain_all-own now reads id ((i, d) ∷ m) c u h = elim (Bool-cases (text_eq i id)) [
      | inl t ↦
          let same = (text_eq_iff i id).0 t in
          let this : d ≡ c = ground (arith, t) in
          (
            rw (same, this) (drain_all-head now reads id c m (rw (← same) u.0)),
            rw (t, same, this) refl,
          )
      | inr f ↦
          let (here, there) = drain_all-own now reads id m c u.1 (ground (arith, f)) in
          (
            filter-append (λ x. text_eq x.connection_id id) (drain j now reads i d).0
                  (drain_all j now reads m).0
                ∙ rw (drain-own now reads id i d, f) here,
            rw f there,
          )
    ]

absent-other :
    (id : Text) (on_disk : Assoc Text) (ids : List Text)
    → contains_key id on_disk ≡ true
    → All (λ i. not (contains_key i on_disk) ≡ true) ids
    → All (λ i. text_eq i id ≡ false) ids
absent-other id on_disk [] held h = tt
absent-other id on_disk (i ∷ ids) held h =
    (ground (arith, h.0, text_eq_iff i id), absent-other id on_disk ids held h.1)

module _ {V F S : Type 0} where
  install-lookup :
      (now : ℤ) (id i : Text) (p : ConnectionProfile) (names : PipeNames) (fifos : Fifos)
      (r : Result (InboundServerPipe × OutboundServerPipe)) (l : Loop V F S)
      → text_eq i id ≡ false
      → lookup id (install now i p names fifos r l).1.connections ≡ lookup id l.connections
  unfolding install
  install-lookup now id i p names fifos (err e) l other = refl
  install-lookup now id i p names fifos (ok (a, b)) l other =
      lookup-insert i id _ l.connections ∙ rw other refl

  module _ (s : Serde F) where
    -- A connection that is there is not touched by the scan's first half.
    pick_up-lookup :
        (now : ℤ) (id i path : Text) (l : Loop V F S) (c : LiveConnection V)
        → lookup id l.connections ≡ some c
        → lookup id (pick_up s now i path l).1.connections ≡ some c
    unfolding pick_up serve
    pick_up-lookup now id i path l c h = elim (Bool-cases (contains_key i l.connections)) [
      | inl old ↦ rw (pick_up, old) h
      | inr new ↦ elim (Result-cases (load s path l.disk)) [
        | inl (p, e) ↦
            let other : text_eq i id ≡ false = ground (
              arith,
              text_eq_iff i id,
              contains_key-lookup i l.connections,
              contains_key-lookup id l.connections,
            ) in
            rw (pick_up, new, e) (install-lookup now id i p _ _ _ l other ∙ h)
        | inr (m, e) ↦ rw (pick_up, new, e) h
      ]
    ]

    pick_up_all-lookup :
        (now : ℤ) (id : Text) (m : Assoc Text) (l : Loop V F S) (c : LiveConnection V)
        → lookup id l.connections ≡ some c
        → lookup id (pick_up_all s now m l).1.connections ≡ some c
    unfolding pick_up_all
    pick_up_all-lookup now id [] l c h = h
    pick_up_all-lookup now id ((i, path) ∷ m) l c h =
        pick_up_all-lookup now id m (pick_up s now i path l).1 c
          (pick_up-lookup now id i path l c h)

  forget-lookup :
      (id i : Text) (l : Loop V F S)
      → text_eq i id ≡ false
      → lookup id (forget i l).connections ≡ lookup id l.connections
  unfolding forget
  forget-lookup id i l other = elim (Option-cases (lookup i l.connections)) [
    | inl e ↦ rw (forget, e) refl
    | inr (c, e) ↦ rw (forget, e) (lookup-remove i id l.connections ∙ rw other refl)
  ]

  drop_gone-lookup :
      (id : Text) (ids : List Text) (l : Loop V F S)
      → All (λ i. text_eq i id ≡ false) ids
      → lookup id (drop_gone ids l).1.connections ≡ lookup id l.connections
  unfolding drop_gone
  drop_gone-lookup id [] l h = refl
  drop_gone-lookup id (i ∷ ids) l h =
      drop_gone-lookup id ids (forget i l) h.1 ∙ forget-lookup id i l h.0

  -- A connection whose profile is in the directory stays as it is.
  pub scan-lookup :
      (s : Serde F) (now : ℤ) (id : Text) (l : Loop V F S) (c : LiveConnection V)
      → lookup id l.connections ≡ some c
      → contains_key id (ids_on_disk (connection_profile_paths l.disk)) ≡ true
      → lookup id (scan s now l).2.connections ≡ some c
  unfolding scan scan_now absent_from
  scan-lookup s now id l c h held = elim (Bool-cases (is_due now l.last_scan_ms scan_interval_ms)) [
    | inl due ↦
        let seen : Loop V F S = record l { last_scan_ms = now } in
        let on_disk = ids_on_disk (connection_profile_paths l.disk) in
        let l' = (pick_up_all s now on_disk seen).1 in
        rw (scan, due)
          (drop_gone-lookup id (absent_from on_disk l') l' (
              absent-other id on_disk (absent_from on_disk l') held
                (All-filter (λ i. not (contains_key i on_disk)) (keys l'.connections)))
            ∙ pick_up_all-lookup s now id on_disk seen c h)
    | inr early ↦ rw (scan, early) h
  ]
