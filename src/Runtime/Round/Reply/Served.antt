-- ===== src/Runtime/Round/Reply/Served.antt =====
-- A client that speaks and waits is told, in the same round, what the engine says to it.
use mathlib.Core.Path.{subst}
use stadhouder.Base.{
  ℕ, ◌≡◌, refl, ap, sym, ◌∙◌, inl, inr, true, false, not, Option, some, List, [], ◌∷◌, map, arith,
  Text, All, filter, any, Result, ok, err, text_eq, text_eq_iff, Bool-cases, Result-cases, Assoc,
  lookup, contains_key, insert,
}
use stadhouder.Base.Int.{ℤ, IsTime}
use stadhouder.Utf8.{Bytes}
use stadhouder.Json.{Json, ReadsBack}
use stadhouder.Float.{Float}
use stadhouder.Heartbeat.{is_heartbeat}
use stadhouder.Disk.{Disk, names_in, write, is_denied}
use stadhouder.State.{
  Serde, flag_name, is_profile_name, connection_profile_paths, write_service_flag,
}
use stadhouder.Pipes.Frame.{read_frame}
use stadhouder.Pipes.Frame.Laws.{Fits, empty_sink}
use stadhouder.Pipes.Stream.{stream}
use stadhouder.Pipes.Server.{arrivals, joined, waiting}
use stadhouder.Service.{Engine, EngineOutput, Batch}
use stadhouder.Runtime.{LiveConnection, Loop, is_due, flag_update_interval_ms, memory_pct}
use stadhouder.Runtime.Scan.{ids_on_disk}
use stadhouder.Runtime.Drain.Messages.{from_client}
use stadhouder.Runtime.Round.{
  Os, again, failed, clamp, refresh_flag, flag_written, flagged, collect, act, round,
}
use stadhouder.Runtime.Round.Recent.{Holds, Good}
use stadhouder.Runtime.Round.Recent.Rounds.{Past, clamp_all-Past, refresh_flag-connections}
use stadhouder.Runtime.Round.Reply.{clamped, lookup-clamp_all, own}
use stadhouder.Runtime.Round.Reply.Called.{poll_value, act-poll_value}

-- The flag is no profile.
names_in-insert :
    (k t : Text) (m : Assoc Text)
    → is_profile_name k ≡ false
    → filter is_profile_name (names_in (insert k t m)) ≡ filter is_profile_name (names_in m)
unfolding insert
names_in-insert k t [] h = rw h refl
names_in-insert k t ((i, u) ∷ m) h = ground (arith, h, text_eq_iff i k, names_in-insert k t m h)

module _ {V F S : Type 0} (j : Json V) (f : Float F) (s : Serde F) (limit : Option ℕ)
    (e : Engine V F S) where
  write_service_flag-paths :
      (now : ℤ) (pct : F) (d : Disk)
      → connection_profile_paths (write_service_flag s now pct d).1 ≡ connection_profile_paths d
  unfolding write_service_flag write connection_profile_paths is_profile_name
  write_service_flag-paths now pct d =
      elim (Result-cases (s.flag_to_string (record { updated_ms = now; memory_pct = pct }))) [
        | inr (m, bad) ↦ rw (bad, write_service_flag) refl
        | inl (t, e) ↦ elim (Bool-cases (is_denied flag_name d)) [
          | inl denied ↦ rw (e, write_service_flag, denied, write) refl
          | inr allowed ↦
              rw (e, write_service_flag, allowed, write) (names_in-insert flag_name t d.files refl)
        ]
      ]

  flag_written-paths :
      (now : ℤ) (pct : F) (r : Result (Unit {0})) (d : Disk) (l : Loop V F S)
      → connection_profile_paths d ≡ connection_profile_paths l.disk
      → (connection_profile_paths (flag_written now pct (r, d) l).1.disk
          ≡ connection_profile_paths l.disk)
        × ((flag_written now pct (r, d) l).1.engine ≡ l.engine)
  unfolding flag_written
  flag_written-paths now pct (err m) d l h = (h, refl)
  flag_written-paths now pct (ok u) d l h = (h, refl)

  refresh_flag-paths :
      (now : ℤ) (memory : Option ℕ) (l : Loop V F S)
      → (connection_profile_paths (refresh_flag f s limit now memory l).1.disk
          ≡ connection_profile_paths l.disk)
        × ((refresh_flag f s limit now memory l).1.engine ≡ l.engine)
  unfolding refresh_flag
  refresh_flag-paths now memory l =
      elim (Bool-cases (is_due now l.flag_updated_ms flag_update_interval_ms)) [
        | inl due ↦
            let pct = memory_pct f limit memory in
            let (r, d) = write_service_flag s now pct l.disk in
            rw (refresh_flag, due)
              (flag_written-paths now pct r d l (write_service_flag-paths now pct l.disk))
        | inr early ↦ rw (refresh_flag, early) (refl, refl)
      ]

  -- The loop when the events of the round are collected, and those events.
  abbrev pub ready : ℤ → Os → Loop V F S → Loop V F S
  ready now os l =
      (refresh_flag f s limit now os.memory (clamp now (record l { disk = os.others l.disk }))).1

  abbrev pub told : ℤ → Os → Loop V F S → Batch V F
  told now os l = (collect j s now os (ready now os l)).0

  flagged-again :
      (now : ℤ) (os : Os) (r : Result (Unit {0})) (l : Loop V F S)
      → (flagged j f s limit e now os (r, l)).0 ≡ again
      → flagged j f s limit e now os (r, l) ≡ act j f s limit e now os l
  unfolding flagged
  flagged-again now os (err m) l more = cc
  flagged-again now os (ok u) l more = refl

  round-flagged :
      (now : ℤ) (os : Os) (l : Loop V F S)
      → os.now ≡ ok now
      → let seen : Loop V F S = record l { disk = os.others l.disk } in
        round j f s limit e os l
        ≡ flagged j f s limit e now os (refresh_flag f s limit now os.memory (clamp now seen))
  unfolding round
  round-flagged now os l clock =
      let seen : Loop V F S = record l { disk = os.others l.disk } in
      ap
        (λ (r : Result ℤ). elim r [
          | err m ↦ (failed m, [], seen)
          | ok t ↦ flagged j f s limit e t os (refresh_flag f s limit t os.memory (clamp t seen))
        ])
        clock

  round-act :
      (now : ℤ) (os : Os) (l : Loop V F S)
      → os.now ≡ ok now
      → (round j f s limit e os l).0 ≡ again
      → round j f s limit e os l ≡ act j f s limit e now os (ready now os l)
  round-act now os l clock more =
      let step = round-flagged now os l clock in
      let seen : Loop V F S = record l { disk = os.others l.disk } in
      step
      ∙ flagged-again now os (refresh_flag f s limit now os.memory (clamp now seen)).0
          (ready now os l) (ap (λ x. x.0) (sym step) ∙ more)

  -- A round in which a client has written messages, the first of them no heartbeat, and waits on a poll:
  -- the engine is told exactly its messages, in order and without the heartbeats, and unless the engine
  -- closes the connection, the client reads in the same round one frame with the array of what was
  -- queued for it before and of what the engine has just sent it. The client's profile is in the
  -- directory, the clock is within bounds and the loop goes on.
  pub round-poll_value :
      (now : ℤ) (os : Os) (l : Loop V F S) (id : Text) (c : LiveConnection V) (v : V) (vs : List V)
      (ss : List Bytes) (o : EngineOutput V)
      → ReadsBack j
      → IsTime now
      → Good IsTime l
      → os.now ≡ ok now
      → (round j f s limit e os l).0 ≡ again
      → lookup id l.connections ≡ some c
      → contains_key id (ids_on_disk (connection_profile_paths (os.others l.disk))) ≡ true
      → All Fits (map j.to_string (v ∷ vs))
      → is_heartbeat j v ≡ false
      → c.inbound.buffer ≡ []
      → os.reads id ≡ arrivals ss
      → joined ss ≡ stream (map j.to_string (v ∷ vs))
      → o ≡ (e.process_messages (told now os l) l.engine).0
      → any (text_eq id) o.close_connections ≡ false
      → os.pollers id ≡ waiting empty_sink
      → Fits (j.to_string (poll_value j c id o))
      → (own id (told now os l).messages
          ≡ map (from_client j id) (filter (λ x. not (is_heartbeat j x)) (v ∷ vs)))
        × (b : Bytes) × (lookup id (round j f s limit e os l).1 ≡ some b)
        × (read_frame b ≡ ok (j.to_string (poll_value j c id o), []))
        × (j.from_str (j.to_string (poll_value j c id o)) ≡ some (poll_value j c id o))
  unfolding clamp
  round-poll_value now os l id c v vs ss o r h g clock more there held fit loud empty ek k eo open_
        w small =
      let seen : Loop V F S = record l { disk = os.others l.disk } in
      let clamped_ = clamp now seen in
      let l₁ = ready now os l in
      let same = refresh_flag-connections j f s limit e now os.memory clamped_ in
      let (paths, engine) = refresh_flag-paths now os.memory clamped_ in
      let good = subst (Holds (Past now)) (sym same) (clamp_all-Past now l.connections h g) in
      let at : lookup id l₁.connections ≡ some (clamped now c) =
        rw same (lookup-clamp_all now id l.connections c there) in
      rw (round-act now os l clock more) (
        act-poll_value j f s limit e now os l₁ id (clamped now c) v vs ss o r h good at
          (rw paths held) fit loud empty ek k (rw engine eo) open_ w small)
