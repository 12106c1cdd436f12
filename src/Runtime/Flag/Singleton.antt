-- ===== src/Runtime/Flag/Singleton.antt =====
-- What another instance makes of the flag that starts while this one runs.
use mathlib.Core.Path.{subst}
use stadhouder.Base.{
  All-filter, filter, lt→ltb, ℕ, ◌≡◌, refl, ap, ◌∙◌, inl, inr, true, false, Option, some, List, [],
  ◌∷◌, arith, Text, All, All-filter, filter, Result, ok, err, Bool-cases, Result-cases,
}
use stadhouder.Base.Int.{ℤ, pos, ◌+ℤ◌, ◌≤ℤ◌, ◌<ℤ◌, +ℤ_parts, -ℤ_parts, IsTime, sub_i64-exact}
use stadhouder.Json.{Json}
use stadhouder.Float.{Float}
use stadhouder.Disk.{Disk, is_denied, names_in}
use stadhouder.Disk.Laws.{with_file}
use stadhouder.State.{
  Serde, RoundTrips, ServiceFlag, flag_name, read_service_flag, connection_profile_paths,
  is_profile_name,
}
use stadhouder.State.Profiles.{write_service_flag-writes}
use stadhouder.Pipes.Server.{Fifos}
use stadhouder.Service.{Engine}
use stadhouder.Runtime.{Loop, is_due, flag_update_interval_ms, flag_stale_ms, memory_pct}
use stadhouder.Runtime.Round.{
  Os, again, clamp, clamp_time, refresh_flag, flagged, collect, act, round, rounds,
}
use stadhouder.Runtime.Round.Exits.{leave-again}
use stadhouder.Runtime.Round.Recent.Rounds.{first-again}
use stadhouder.Runtime.Flag.{
  is_profile_name, connection_profile_paths, KeepsFlag, KeepsFlag-trans,
  read_service_flag-KeepsFlag, collect-Stays, call_engine-Stays, purge-KeepsFlag,
}
use stadhouder.Runtime.Start.{
  deferred, live, start, Start, with_flag, take_over, took_over, another_lives, is_fresh, purge,
}
use stadhouder.Runtime.Start.Laws.{defers_iff}
use stadhouder.Runtime.Flag.Rounds.{Reads, Fresh, round-Fresh, write_service_flag-reads}

-- The clock never goes back from `t` to the last round's time `now`, and the other processes leave the
-- flag alone.
abbrev pub Forward : ℤ → List Os → ℤ → Type 0
Forward t [] now = t ≡ now
Forward t (os ∷ rest) now =
    (at : ℤ) × (os.now ≡ ok at)
    × IsTime at
    × (t ≤ℤ at)
    × ((d : Disk) → KeepsFlag d (os.others d))
    × Forward at rest now

pub le_trans : (a b c : ℤ) → a ≤ℤ b → b ≤ℤ c → a ≤ℤ c
le_trans a b c h k = omega arith

paths-All : (names : List Text) → All (λ n. is_profile_name n ≡ true) (filter is_profile_name names)
paths-All names = All-filter is_profile_name names

module _ {V F S : Type 0} (f : Float F) (s : Serde F) (limit : Option ℕ) (e : Engine V F S)
    (rt : RoundTrips s) where
  loop_or : Loop V F S → Start V F S → Loop V F S
  loop_or l (live l') = l'
  loop_or l _ = l

  took_over-Fresh :
      (now : ℤ) (pct : F) (t : S) (fifos : Fifos) (r : Result (Unit {0})) (d : Disk)
      (l : Loop V F S)
      → IsTime now
      → ((v : Unit {0})
          → r ≡ ok v
          → read_service_flag s d ≡ ok (some (record { updated_ms = now; memory_pct = pct })))
      → took_over f s limit e now pct t fifos (r, d) ≡ live l
      → Fresh s now l
  unfolding took_over connection_profile_paths loop_or
  took_over-Fresh now pct t fifos (err m) d l h reads started = cc
  took_over-Fresh now pct t fifos (ok v) d l h reads started =
      let k = purge-KeepsFlag (connection_profile_paths d) d (paths-All (names_in d.files)) in
      subst (Fresh s now) (ap (loop_or l) started) (record {
        reads = (
          pct,
          read_service_flag-KeepsFlag s d (purge (connection_profile_paths d) d) k ∙ reads v refl,
        );
        time = h;
        past = omega arith;
        young = ground (arith, +ℤ_parts now (pos flag_update_interval_ms));
      })

  pub start-Fresh :
      (now : ℤ) (memory : Option ℕ) (t : S) (d : Disk) (fifos : Fifos) (l : Loop V F S)
      → IsTime now
      → start f s limit e (ok now) memory t d fifos ≡ live l
      → Fresh s now l
  unfolding start take_over
  start-Fresh now memory t d fifos l h started = elim (Result-cases (read_service_flag s d)) [
    | inr (m, bad) ↦ cc (rw (bad, with_flag) at started)
    | inl (flag, e) ↦ elim (Bool-cases (another_lives now flag)) [
      | inl other ↦ cc (rw (e, with_flag, other) at started)
      | inr alone ↦
          let pct = memory_pct f limit memory in
          took_over-Fresh now pct t fifos _ _ l h (write_service_flag-reads s rt now pct d)
            (rw (e, with_flag, alone) at started)
    ]
  ]

module _ {V F S : Type 0} (j : Json V) (f : Float F) (s : Serde F) (limit : Option ℕ)
    (e : Engine V F S) (rt : RoundTrips s) where
  rounds-Fresh :
      (t now : ℤ) (answers : List Os) (l : Loop V F S)
      → Fresh s t l
      → IsTime t
      → Forward t answers now
      → (rounds j f s limit e answers l).0 ≡ again
      → Fresh s now (rounds j f s limit e answers l).1 × IsTime now
  unfolding rounds
  rounds-Fresh t now [] l h k same more = (rw (← same) h, rw (← same) k)
  rounds-Fresh t now (os ∷ rest) l h k (at, told, u, past, others, forward) more =
      let (going, step) = first-again j f s limit e os rest l more in
      let fresh =
        round-Fresh s rt f limit j e at os l u h.time (le_trans _ t at h.past past) h.reads
          (others l.disk) told going in
      rw step (rounds-Fresh at now rest _ fresh u forward (rw step at more))

  -- While an instance runs whose clock does not go back, every other instance that starts within 100
  -- seconds after a round of it leaves the field to it, whatever its engine and the system's answers to
  -- it are, provided the other processes leave the flag alone. Each round that goes on has thus kept
  -- the flag fresh.
  pub others_defer :
      {T : Type 0} (e' : Engine V F T) (t' : T) (first now later : ℤ) (memory memory' : Option ℕ)
      (t : S) (d : Disk) (fifos fifos' : Fifos) (answers : List Os) (l : Loop V F S)
      → IsTime first
      → start f s limit e (ok first) memory t d fifos ≡ live l
      → Forward first answers now
      → (rounds j f s limit e answers l).0 ≡ again
      → IsTime later
      → now ≤ℤ later
      → later ≤ℤ now +ℤ pos 100000
      → let l' = (rounds j f s limit e answers l).1 in
        start f s limit e' (ok later) memory' t' l'.disk fifos' ≡ deferred t' l'.disk
  others_defer e' t' first now later memory memory' t d fifos fifos' answers l h started forward
        more k lo hi =
      let l' = (rounds j f s limit e answers l).1 in
      let (fresh, _) =
        rounds-Fresh first now answers l
          (start-Fresh f s limit e rt first memory t d fifos l h started) h forward more in
      (defers_iff f s limit e' later l'.flag_updated_ms fresh.reads.0 memory' t' l'.disk fifos' k
          fresh.time fresh.reads.1).1
        (
          le_trans _ now later fresh.past lo,
          omega (
            arith,
            fresh.young,
            +ℤ_parts now (pos 100000),
            +ℤ_parts l'.flag_updated_ms (pos flag_update_interval_ms),
            +ℤ_parts l'.flag_updated_ms (pos flag_stale_ms),
          ),
        )

-- After a clamp to a clock that was set back the refresh is not due.
clamp-early :
    (now t : ℤ)
    → IsTime now
    → now <ℤ t
    → is_due now (clamp_time now t) flag_update_interval_ms ≡ false
unfolding clamp_time is_due
clamp-early now t h back =
    rw (lt→ltb _ _ back, sub_i64-exact now now h h) (ground (arith, -ℤ_parts now now))

-- A flag from the future is not fresh.
is_fresh-before :
    (now updated : ℤ) → IsTime now → IsTime updated → now <ℤ updated → is_fresh now updated ≡ false
unfolding is_fresh
is_fresh-before now updated h k before =
    rw (sub_i64-exact now updated h k) (ground (arith, -ℤ_parts now updated))

module _ {V F S : Type 0} (f : Float F) (s : Serde F) (limit : Option ℕ) (e : Engine V F S) where
  pub took_over_ok :
      (now : ℤ) (pct : F) (t : S) (fifos : Fifos) (d : Disk)
      → (l : Loop V F S) × (took_over f s limit e now pct t fifos (ok tt, d) ≡ live l)
  unfolding took_over
  took_over_ok now pct t fifos d = (_, refl)

  -- A start where no live instance is seen, and the flag can be written.
  start_takes_over :
      (now : ℤ) (memory : Option ℕ) (t : S) (d : Disk) (fifos : Fifos)
      (flag : Option (ServiceFlag F)) (text : Text)
      → read_service_flag s d ≡ ok flag
      → another_lives now flag ≡ false
      → s.flag_to_string (record { updated_ms = now; memory_pct = memory_pct f limit memory })
        ≡ ok text
      → is_denied flag_name d ≡ false
      → (l : Loop V F S) × (start f s limit e (ok now) memory t d fifos ≡ live l)
  unfolding start with_flag take_over
  start_takes_over now memory t d fifos flag text read alone prints allowed =
      let pct = memory_pct f limit memory in
      let (l, taken) = took_over_ok now pct t fifos (with_file flag_name text d) in
      (
        l,
        rw (read, with_flag, alone, write_service_flag-writes s now pct text d prints allowed)
            taken,
      )

module _ {V F S : Type 0} (j : Json V) (f : Float F) (s : Serde F) (limit : Option ℕ)
    (e : Engine V F S) where
  act-KeepsFlag :
      (now : ℤ) (os : Os) (l : Loop V F S)
      → (act j f s limit e now os l).0 ≡ again
      → KeepsFlag l.disk (act j f s limit e now os l).2.disk
  unfolding act
  act-KeepsFlag now os l more =
      let (b, l₁) = collect j s now os l in
      rw (leave-again e now os.pause _ _ more)
        (KeepsFlag-trans (collect-Stays j s now os l).flag (call_engine-Stays e b l₁).flag)

  set_back-KeepsFlag :
      (now : ℤ) (os : Os) (l : Loop V F S)
      → IsTime now
      → now <ℤ l.flag_updated_ms
      → KeepsFlag l.disk (os.others l.disk)
      → os.now ≡ ok now
      → (round j f s limit e os l).0 ≡ again
      → KeepsFlag l.disk (round j f s limit e os l).2.disk
  unfolding round clamp clamp_time refresh_flag flagged
  set_back-KeepsFlag now os l h back others told more =
      let seen : Loop V F S = record l { disk = os.others l.disk } in
      let early = clamp-early now l.flag_updated_ms h back in
      rw (told, round, refresh_flag, early, flagged)
        (KeepsFlag-trans others (
          act-KeepsFlag now os (clamp now seen)
            (rw (told, round, refresh_flag, early, flagged) at more)))

  -- An instance whose clock is set back behind the flag that it wrote, and that goes on with its rounds:
  -- an instance that starts at any time before that of the flag takes over beside it, if the flag can be
  -- written; the first has not written its flag anew.
  pub set_back_doubles :
      {T : Type 0} (e' : Engine V F T) (t' : T) (now later : ℤ) (memory' : Option ℕ)
      (fifos' : Fifos) (text : Text) (os : Os) (l : Loop V F S)
      → Reads s l
      → IsTime l.flag_updated_ms
      → IsTime now
      → now <ℤ l.flag_updated_ms
      → KeepsFlag l.disk (os.others l.disk)
      → os.now ≡ ok now
      → (round j f s limit e os l).0 ≡ again
      → IsTime later
      → later <ℤ l.flag_updated_ms
      → s.flag_to_string (record { updated_ms = later; memory_pct = memory_pct f limit memory' })
        ≡ ok text
      → is_denied flag_name l.disk ≡ false
      → let l' = (round j f s limit e os l).2 in
        (other : Loop V F T) × (start f s limit e' (ok later) memory' t' l'.disk fifos'
          ≡ live other)
  unfolding is_denied another_lives
  set_back_doubles e' t' now later memory' fifos' text os l reads u h back others told more k before
        prints allowed =
      let l' = (round j f s limit e os l).2 in
      let keeps = set_back-KeepsFlag now os l h back others told more in
      start_takes_over f s limit e' later memory' t' l'.disk fifos'
        (some (record { updated_ms = l.flag_updated_ms; memory_pct = reads.0 })) text
        (read_service_flag-KeepsFlag s l.disk l'.disk keeps ∙ reads.1)
        (is_fresh-before later l.flag_updated_ms k u before) prints (rw keeps.denied allowed)
