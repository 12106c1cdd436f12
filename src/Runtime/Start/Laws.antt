-- ===== src/Runtime/Start/Laws.antt =====
-- What a start leaves behind: the engine is initialised by the instance that takes over, only.

use stadhouder.Base.{
  ◌↔◌, ◌≢◌, true, ℕ, ◌≡◌, refl, inl, inr, Option, some, [], arith, Result, ok, err, Bool-cases,
}
use stadhouder.Base.Int.{ℤ, -ℤ_parts, +ℤ_parts, sub_i64-exact, ◌<ℤ◌, ◌≤ℤ◌, ◌+ℤ◌, pos, IsTime}
use stadhouder.Float.{Float}
use stadhouder.Disk.{Disk}
use stadhouder.State.{Serde, ServiceFlag, read_service_flag}
use stadhouder.Pipes.Server.{Fifos}
use stadhouder.Service.{Engine}
use stadhouder.Runtime.{Loop, flag_stale_ms}
use stadhouder.Runtime.Start.{
  deferred, live, start, with_flag, take_over, took_over, another_lives, is_fresh,
}

pub is_fresh_iff :
    (now updated : ℤ)
    → IsTime now
    → IsTime updated
    → (is_fresh now updated ≡ true) ↔ ((updated ≤ℤ now) × (now <ℤ updated +ℤ pos flag_stale_ms))
unfolding is_fresh
is_fresh_iff now updated h k =
    rw (sub_i64-exact now updated h k)
      (ground (arith, -ℤ_parts now updated, +ℤ_parts updated (pos flag_stale_ms)))

-- The loop that an instance has when it takes over at `now`.
pub record IsFirst {V F S : Type 0} (e : Engine V F S) (now : ℤ) (t : S) (l : Loop V F S)
    : Type 0 where
  pub connections : l.connections ≡ []
  pub pending : l.pending_engine_closes ≡ []
  pub timers : l.timers ≡ []
  pub started : l.started_ms ≡ now
  pub flagged : l.flag_updated_ms ≡ now
  pub engine : l.engine ≡ e.init now t

module _ {V F S : Type 0} (f : Float F) (s : Serde F) (limit : Option ℕ) (e : Engine V F S) where
  took_over-IsFirst :
      (now : ℤ) (pct : F) (t : S) (fifos : Fifos) (r : Result (Unit {0})) (d : Disk)
      (l : Loop V F S)
      → took_over f s limit e now pct t fifos (r, d) ≡ live l
      → IsFirst e now t l
  unfolding took_over
  took_over-IsFirst now pct t fifos (err m) d l h = cc
  took_over-IsFirst now pct t fifos (ok u) d l h = ground (arith, h)

  with_flag-IsFirst :
      (now : ℤ) (memory : Option ℕ) (t : S) (d : Disk) (fifos : Fifos)
      (r : Result (Option (ServiceFlag F))) (l : Loop V F S)
      → with_flag f s limit e now memory t d fifos r ≡ live l
      → IsFirst e now t l
  unfolding with_flag take_over
  with_flag-IsFirst now memory t d fifos (err m) l h = cc
  with_flag-IsFirst now memory t d fifos (ok flag) l h =
      elim (Bool-cases (another_lives now flag)) [
        | inl other ↦ cc (rw (other, with_flag) at h)
        | inr alone ↦ took_over-IsFirst now _ t fifos _ _ l (rw (alone, with_flag) at h)
      ]

  pub start-IsFirst :
      (now : Result ℤ) (memory : Option ℕ) (t : S) (d : Disk) (fifos : Fifos) (l : Loop V F S)
      → start f s limit e now memory t d fifos ≡ live l
      → (at : ℤ) × (now ≡ ok at) × IsFirst e at t l
  unfolding start
  start-IsFirst (err m) memory t d fifos l h = cc
  start-IsFirst (ok now) memory t d fifos l h =
      (now, refl, with_flag-IsFirst now memory t d fifos (read_service_flag s d) l h)

  took_over-ne-deferred :
      (now : ℤ) (pct : F) (t t' : S) (fifos : Fifos) (r : Result (Unit {0})) (d d' : Disk)
      → took_over f s limit e now pct t fifos (r, d) ≢ deferred t' d'
  unfolding took_over
  took_over-ne-deferred now pct t t' fifos (err m) d d' h = cc
  took_over-ne-deferred now pct t t' fifos (ok u) d d' h = cc

  -- An instance that finds a flag leaves the field exactly if the flag is fresh: not from the
  -- future, and written less than two minutes before. It then leaves everything as it was: the engine
  -- has had no call, not even of `init`, and nothing was written to the directory.
  pub defers_iff :
      (now updated : ℤ) (pct : F) (memory : Option ℕ) (t : S) (d : Disk) (fifos : Fifos)
      → IsTime now
      → IsTime updated
      → read_service_flag s d ≡ ok (some (record { updated_ms = updated; memory_pct = pct }))
      → (start f s limit e (ok now) memory t d fifos ≡ deferred t d)
        ↔ ((updated ≤ℤ now) × (now <ℤ updated +ℤ pos flag_stale_ms))
  unfolding start with_flag another_lives
  defers_iff now updated pct memory t d fifos hn hu flag = (
    λ left. elim (Bool-cases (is_fresh now updated)) [
      | inl yes_ ↦ (is_fresh_iff now updated hn hu).0 yes_
      | inr no_ ↦ absurd (
          took_over-ne-deferred now _ t t fifos _ _ d
            (rw (flag, with_flag, another_lives, no_) at left))
    ],
    λ young.
        let fresh = (is_fresh_iff now updated hn hu).1 young in
        rw (flag, with_flag, another_lives, fresh) refl,
  )
