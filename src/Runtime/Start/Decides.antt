-- ===== src/Runtime/Start/Decides.antt =====
-- How a start ends, on every branch, by what it finds of the flag.
use mathlib.Core.Path.{subst}
use Prim.Native.String.{String}
use stadhouder.Base.{
  ◌≢◌, ◌↔◌, ℕ, ◌≡◌, refl, ap, sym, ◌∙◌, ◌⊎◌, inl, inr, true, false, Option, none, some, Text, ok,
  err, Bool-cases, Result-cases,
}
use stadhouder.Base.Int.{ℤ, pos, ◌+ℤ◌, ◌≤ℤ◌, ◌<ℤ◌, IsTime}
use stadhouder.Float.{Float}
use stadhouder.Disk.{Disk, is_denied}
use stadhouder.Disk.Laws.{with_file, write-denied}
use stadhouder.State.{
  Serde, RoundTrips, ServiceFlag, flag_name, read_service_flag, write_service_flag,
}
use stadhouder.State.Profiles.{write_service_flag-writes}
use stadhouder.Pipes.Server.{Fifos}
use stadhouder.Service.{Engine}
use stadhouder.Runtime.{Loop, flag_stale_ms, memory_pct}
use stadhouder.Runtime.Flag.Rounds.{Fresh}
use stadhouder.Runtime.Flag.Singleton.{start-Fresh, took_over_ok}
use stadhouder.Runtime.Start.{
  aborted, deferred, live, start, with_flag, take_over, took_over, another_lives,
}
use stadhouder.Runtime.Start.Laws.{IsFirst, start-IsFirst, is_fresh_iff}

-- A flag that is not from the future, and younger than two minutes.
abbrev pub Lives : {F : Type 0} → ℤ → Option (ServiceFlag F) → Type 0
Lives now none = ⊥
Lives now (some flag) = (flag.updated_ms ≤ℤ now) × (now <ℤ flag.updated_ms +ℤ pos flag_stale_ms)

abbrev IsTimed : {F : Type 0} → Option (ServiceFlag F) → Type 0
IsTimed none = Unit
IsTimed (some flag) = IsTime flag.updated_ms

another_lives_iff :
    {F : Type 0} (now : ℤ) (flag : Option (ServiceFlag F))
    → IsTime now
    → IsTimed flag
    → (another_lives now flag ≡ true) ↔ Lives now flag
unfolding another_lives
another_lives_iff now none h k = (λ e. cc, λ x. absurd x)
another_lives_iff now (some flag) h k = is_fresh_iff now flag.updated_ms h k

write_service_flag-cases :
    {F : Type 0} (s : Serde F) (now : ℤ) (pct : F) (d : Disk)
    → ((m : String) × (write_service_flag s now pct d ≡ (err m, d)))
      ⊎ ((t : Text) × (write_service_flag s now pct d ≡ (ok tt, with_file flag_name t d)))
unfolding write_service_flag
write_service_flag-cases s now pct d =
    elim (Result-cases (s.flag_to_string (record { updated_ms = now; memory_pct = pct }))) [
      | inr (m, e) ↦ inl (m, rw (write_service_flag, e) refl)
      | inl (t, e) ↦ elim (Bool-cases (is_denied flag_name d)) [
        | inl denied ↦
            inl ("failed to write", rw (write_service_flag, e) (write-denied flag_name t d denied))
        | inr allowed ↦ inr (t, write_service_flag-writes s now pct t d e allowed)
      ]
    ]

ok-eq : {A : Type 0} {a b : A} → ok a ≡ ok b → a ≡ b
ok-eq h = cc

true≢false : true ≢ false
true≢false h = cc

module _ {V F S : Type 0} (f : Float F) (s : Serde F) (limit : Option ℕ) (e : Engine V F S)
    (now : ℤ) (memory : Option ℕ) (t : S) (d : Disk) (fifos : Fifos) where
  -- Every start at a time that could be read: the flag could not be read; it lives; or it does not, and
  -- cannot be written, or is written.
  pub data Decides : Type 0 where
    unread :
        (m : String)
        → read_service_flag s d ≡ err m
        → start f s limit e (ok now) memory t d fifos ≡ aborted m t d
        → Decides
    defers :
        (flag : Option (ServiceFlag F))
        → read_service_flag s d ≡ ok flag
        → Lives now flag
        → start f s limit e (ok now) memory t d fifos ≡ deferred t d
        → Decides
    unwritten :
        (flag : Option (ServiceFlag F)) (m : String)
        → read_service_flag s d ≡ ok flag
        → ¬ (Lives now flag)
        → (write_service_flag s now (memory_pct f limit memory) d).0 ≡ err m
        → start f s limit e (ok now) memory t d fifos ≡ aborted m t d
        → Decides
    takes_over :
        (flag : Option (ServiceFlag F)) (l : Loop V F S)
        → read_service_flag s d ≡ ok flag
        → ¬ (Lives now flag)
        → start f s limit e (ok now) memory t d fifos ≡ live l
        → IsFirst e now t l
        → Fresh s now l
        → Decides

  IsFirst-now : (at : ℤ) (l : Loop V F S) → ok now ≡ ok at → IsFirst e at t l → IsFirst e now t l
  IsFirst-now at l same first = subst (λ z. IsFirst e z t l) (sym (ok-eq same)) first

  flag_decides :
      (flag : Option (ServiceFlag F))
      → RoundTrips s
      → IsTime now
      → read_service_flag s d ≡ ok flag
      → IsTimed flag
      → Decides
  unfolding start with_flag take_over took_over
  flag_decides flag rt h read timed =
      let iff = another_lives_iff now flag h timed in
      let pct = memory_pct f limit memory in
      elim (Bool-cases (another_lives now flag)) [
        | inl other ↦ defers flag read (iff.0 other) (rw (read, with_flag, other) refl)
        | inr alone ↦
            let dead : ¬ (Lives now flag) = λ lives. true≢false (sym (iff.1 lives) ∙ alone) in
            elim (write_service_flag-cases s now pct d) [
              | inl (m, w) ↦
                  unwritten flag m read dead (ap (λ x. x.0) w) (rw (read, with_flag, alone, w) refl)
              | inr (text, w) ↦
                  let (l, taken) =
                    took_over_ok f s limit e now pct t fifos (with_file flag_name text d) in
                  let started : start f s limit e (ok now) memory t d fifos ≡ live l =
                    rw (read, with_flag, alone, w) taken in
                  let (at, same, first) =
                    start-IsFirst f s limit e (ok now) memory t d fifos l started in
                  takes_over flag l read dead started (IsFirst-now at l same first)
                    (start-Fresh f s limit e rt now memory t d fifos l h started)
            ]
      ]

  -- What a start of the loop at a time that could be read does, whatever it finds. If the flag cannot be read, it
  -- aborts. If there is a flag that is not from the future and younger than two minutes, it defers. If
  -- not, it aborts where the flag cannot be written, and takes over where it can: it then has no
  -- connection and no timer, has called the engine's `init` and nothing else of it, and the flag of this
  -- moment is in the directory. Where it does not take over, the engine has had no call from it and the
  -- directory is as it was.
  pub start_decides :
      RoundTrips s
      → IsTime now
      → ((flag : ServiceFlag F) → read_service_flag s d ≡ ok (some flag) → IsTime flag.updated_ms)
      → Decides
  unfolding start with_flag
  start_decides rt h timed = elim (Result-cases (read_service_flag s d)) [
    | inr (m, bad) ↦ unread m bad (rw (bad, with_flag) refl)
    | inl (none, read) ↦ flag_decides none rt h read tt
    | inl (some flag, read) ↦ flag_decides (some flag) rt h read (timed flag read)
  ]
