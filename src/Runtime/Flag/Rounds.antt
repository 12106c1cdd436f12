-- ===== src/Runtime/Flag/Rounds.antt =====
-- The flag over any number of rounds, and what another instance makes of it that starts meanwhile.
use stadhouder.Base.{
  ℕ, ◌≡◌, refl, ◌∙◌, inl, inr, false, Option, some, arith, Result, ok, err, Bool-cases,
  Result-cases,
}
use stadhouder.Base.Int.{ℤ, pos, ◌+ℤ◌, ◌≤ℤ◌, ◌<ℤ◌, +ℤ_parts, -ℤ_parts, IsTime, sub_i64-exact}
use stadhouder.Json.{Json}
use stadhouder.Float.{Float}
use stadhouder.Disk.{Disk, is_denied}
use stadhouder.Disk.Laws.{write-denied}
use stadhouder.State.{Serde, RoundTrips, flag_name, read_service_flag, write_service_flag}
use stadhouder.State.Profiles.{flag_round_trip}
use stadhouder.Service.{Engine}
use stadhouder.Runtime.{Loop, is_due, flag_update_interval_ms, memory_pct}
use stadhouder.Runtime.Output.{call_engine}
use stadhouder.Runtime.Round.{
  Os, again, clamp, clamp_time, refresh_flag, flag_written, flagged, collect, act, round,
}
use stadhouder.Runtime.Round.Exits.{leave-again}
use stadhouder.Runtime.Flag.{
  KeepsFlag, read_service_flag-KeepsFlag, Stays, Stays-trans, collect-Stays, call_engine-Stays,
}

module _ {F : Type 0} (s : Serde F) (rt : RoundTrips s) where
  pub write_service_flag-reads :
      (now : ℤ) (pct : F) (d : Disk) (u : Unit {0})
      → (write_service_flag s now pct d).0 ≡ ok u
      → read_service_flag s (write_service_flag s now pct d).1
        ≡ ok (some (record { updated_ms = now; memory_pct = pct }))
  unfolding write_service_flag
  write_service_flag-reads now pct d u h =
      elim (Result-cases (s.flag_to_string (record { updated_ms = now; memory_pct = pct }))) [
        | inr (m, e) ↦ cc (rw (e, write_service_flag) at h)
        | inl (t, e) ↦ elim (Bool-cases (is_denied flag_name d)) [
          | inl denied ↦ cc (rw (e, write_service_flag, write-denied flag_name t d denied) at h)
          | inr allowed ↦ (flag_round_trip s now pct t d rt e allowed).1
        ]
      ]

pub not_due :
    (now t : ℤ) (span : ℕ)
    → IsTime now
    → IsTime t
    → is_due now t span ≡ false
    → now <ℤ t +ℤ pos span
unfolding is_due
not_due now t span h k e =
    ground (arith, rw (sub_i64-exact now t h k) at e, -ℤ_parts now t, +ℤ_parts t (pos span))

module _ {V F S : Type 0} (s : Serde F) where
  -- The flag in the directory is the one that this instance has noted.
  abbrev pub Reads : Loop V F S → Type 0
  Reads l =
      (pct : F) × (read_service_flag s l.disk
        ≡ ok (some (record { updated_ms = l.flag_updated_ms; memory_pct = pct })))

  -- The flag was written, and less than twenty seconds ago.
  pub record Fresh (now : ℤ) (l : Loop V F S) : Type 0 where
    pub reads : Reads l
    pub time : IsTime l.flag_updated_ms
    pub past : l.flag_updated_ms ≤ℤ now
    pub young : now <ℤ l.flag_updated_ms +ℤ pos flag_update_interval_ms

  pub Fresh-Stays : (now : ℤ) (l l' : Loop V F S) → Stays l l' → Fresh now l → Fresh now l'
  Fresh-Stays now l l' h f = record {
    reads = (f.reads.0, read_service_flag-KeepsFlag s l.disk l'.disk h.flag ∙ rw h.time f.reads.1);
    time = rw h.time f.time;
    past = rw h.time f.past;
    young = rw h.time f.young;
  }

  flag_written-Fresh :
      (now : ℤ) (pct : F) (r : Result (Unit {0})) (d : Disk) (l : Loop V F S) (u : Unit {0})
      → IsTime now
      → ((v : Unit {0})
          → r ≡ ok v
          → read_service_flag s d ≡ ok (some (record { updated_ms = now; memory_pct = pct })))
      → (flag_written now pct (r, d) l).0 ≡ ok u
      → Fresh now (flag_written now pct (r, d) l).1
  unfolding flag_written
  flag_written-Fresh now pct (err m) d l u h reads done = cc
  flag_written-Fresh now pct (ok v) d l u h reads done = record {
    reads = (pct, reads v refl);
    time = h;
    past = omega arith;
    young = ground (arith, +ℤ_parts now (pos flag_update_interval_ms));
  }

  module _ (rt : RoundTrips s) (f : Float F) (limit : Option ℕ) where
    refresh_flag-Fresh :
        (now : ℤ) (memory : Option ℕ) (l : Loop V F S) (u : Unit {0})
        → IsTime now
        → IsTime l.flag_updated_ms
        → l.flag_updated_ms ≤ℤ now
        → Reads l
        → (refresh_flag f s limit now memory l).0 ≡ ok u
        → Fresh now (refresh_flag f s limit now memory l).1
    unfolding refresh_flag
    refresh_flag-Fresh now memory l u h k past reads done =
        elim (Bool-cases (is_due now l.flag_updated_ms flag_update_interval_ms)) [
          | inl due ↦
              let pct = memory_pct f limit memory in
              let (r, d) = write_service_flag s now pct l.disk in
              rw (refresh_flag, due)
                (flag_written-Fresh now pct r d l u h (write_service_flag-reads s rt now pct l.disk)
                  (rw (refresh_flag, due) at done))
          | inr early ↦
              rw (refresh_flag, early)
                (record {
                  reads = reads;
                  time = k;
                  past = past;
                  young = not_due now l.flag_updated_ms flag_update_interval_ms h k early;
                })
        ]

    module _ (j : Json V) (e : Engine V F S) where
      act-Fresh :
          (now : ℤ) (os : Os) (l : Loop V F S)
          → Fresh now l
          → (act j f s limit e now os l).0 ≡ again
          → Fresh now (act j f s limit e now os l).2
      unfolding act
      act-Fresh now os l h more =
          let (b, l₁) = collect j s now os l in
          let l₂ = (call_engine e b l₁).1 in
          let k = Stays-trans (collect-Stays j s now os l) (call_engine-Stays e b l₁) in
          rw (leave-again e now os.pause _ _ more) (
            Fresh-Stays now l (record l₂ { connections = _ })
              (record { flag = k.flag; time = k.time; started = k.started }) h)

      flagged-Fresh :
          (now : ℤ) (os : Os) (r : Result (Unit {0})) (l : Loop V F S)
          → ((u : Unit {0}) → r ≡ ok u → Fresh now l)
          → (flagged j f s limit e now os (r, l)).0 ≡ again
          → Fresh now (flagged j f s limit e now os (r, l)).2
      unfolding flagged
      flagged-Fresh now os (err m) l h more = cc
      flagged-Fresh now os (ok u) l h more = act-Fresh now os l (h u refl) more

      clamp-flag :
          (now : ℤ) (l : Loop V F S)
          → l.flag_updated_ms ≤ℤ now
          → (clamp now l).flag_updated_ms ≡ l.flag_updated_ms
      unfolding clamp clamp_time
      clamp-flag now l h = ground arith

      pub round-Fresh :
          (now : ℤ) (os : Os) (l : Loop V F S)
          → IsTime now
          → IsTime l.flag_updated_ms
          → l.flag_updated_ms ≤ℤ now
          → Reads l
          → KeepsFlag l.disk (os.others l.disk)
          → os.now ≡ ok now
          → (round j f s limit e os l).0 ≡ again
          → Fresh now (round j f s limit e os l).2
      unfolding round clamp
      round-Fresh now os l h k past reads others told more =
          let seen : Loop V F S = record l { disk = os.others l.disk } in
          let clamped = clamp now seen in
          let same = clamp-flag now seen past in
          let there = read_service_flag-KeepsFlag s l.disk (os.others l.disk) others in
          let (r, l') = refresh_flag f s limit now os.memory clamped in
          rw (told, round)
            (flagged-Fresh now os r l'
              (λ u.
                refresh_flag-Fresh now os.memory clamped u h (rw same k) (rw same past)
                  (reads.0, there ∙ rw same reads.1))
              (rw (told, round) at more))
