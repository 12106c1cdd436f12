-- ===== src/Runtime/Round/Recent/Rounds.antt =====
-- Silence over any number of rounds.
use stadhouder.Runtime.Roster.{clamp_all-keys, Exit-cases}
use stadhouder.Base.{
  Values, IsMap, ℕ, ◌≡◌, refl, ◌∙◌, inl, inr, Option, List, [], ◌∷◌, arith, Text, All, Result, ok,
  err, Bool-cases, Assoc,
}
use stadhouder.Base.Int.{ℤ, pos, ◌+ℤ◌, ◌≤ℤ◌, ◌<ℤ◌, ltb_ℤ, IsTime}
use stadhouder.Json.{Json}
use stadhouder.Float.{Float}
use stadhouder.Disk.{Disk}
use stadhouder.State.{Serde}
use stadhouder.Pipes.Server.{InboundServerPipe, Read}
use stadhouder.Service.{Engine}
use stadhouder.Runtime.{LiveConnection, Loop, client_inactivity_ms}
use stadhouder.Runtime.Drain.{received, heard, drain, drain_all}
use stadhouder.Runtime.Drain.Inactive.{HasTime}
use stadhouder.Runtime.Registry.Steps.{drain_all-keys}
use stadhouder.Runtime.Round.{Os, again, clamp_time, clamp_all, refresh_flag, round, rounds}
use stadhouder.Runtime.Round.Recent.{Holds}

module _ {V : Type 0} (Q : ℤ → Type 0) where
  received-last :
      (j : Json V) (now : ℤ) (id : Text) (c : LiveConnection V)
      (r : Result (List Text) × InboundServerPipe)
      → Q now
      → Q c.last_message_ms
      → Q (received j now id c r).1.last_message_ms
  unfolding received heard
  received-last j now id c (err e, p) q h = h
  received-last j now id c (ok [], p) q h = h
  received-last j now id c (ok (f ∷ fs), p) q h = q

  pub drain_all-Values :
      (j : Json V) (now : ℤ) (reads : Text → List Read) (m : Assoc (LiveConnection V))
      → Q now
      → Values (λ c. Q c.last_message_ms) m
      → Values (λ c. Q c.last_message_ms) (drain_all j now reads m).1
  unfolding drain_all drain
  drain_all-Values j now reads [] q h = tt
  drain_all-Values j now reads ((id, c) ∷ m) q h =
      (received-last j now id c _ q h.0, drain_all-Values j now reads m q h.1)

  pub drain_all-IsMap :
      (j : Json V) (now : ℤ) (reads : Text → List Read) (m : Assoc (LiveConnection V))
      → IsMap m
      → IsMap (drain_all j now reads m).1
  unfolding drain_all drain
  drain_all-IsMap j now reads [] u = tt
  drain_all-IsMap j now reads ((id, c) ∷ m) u =
      (drain_all-keys j now reads m id ∙ u.0, drain_all-IsMap j now reads m u.1)

-- A time that a round may reckon with, and one of the last two minutes.
abbrev pub Past : ℤ → ℤ → Type 0
Past now t = IsTime t × (t ≤ℤ now)

abbrev pub Recent : ℤ → ℤ → Type 0
Recent now t = Past now t × (now <ℤ t +ℤ pos client_inactivity_ms)

clamp_time-Past : (now t : ℤ) → IsTime now → IsTime t → Past now (clamp_time now t)
unfolding clamp_time
clamp_time-Past now t h k = elim (Bool-cases (ltb_ℤ now t)) [
  | inl ahead ↦ rw (clamp_time, ahead) (h, omega arith)
  | inr past ↦ rw (clamp_time, past) (k, ground (arith, past))
]

pub clamp_all-Past :
    {V : Type 0} (now : ℤ) (m : Assoc (LiveConnection V))
    → IsTime now
    → Holds IsTime m
    → Holds (Past now) (clamp_all now m)
unfolding clamp_all clamp_time
clamp_all-Past now [] h k = (tt, tt)
clamp_all-Past now ((id, c) ∷ m) h (u, k) =
    let (u', k') = clamp_all-Past now m h (u.1, k.1) in
    ((clamp_all-keys now m id ∙ u.0, u'), (clamp_time-Past now c.last_message_ms h k.0, k'))

pub Values-HasTime :
    {V : Type 0} (now : ℤ) (m : Assoc (LiveConnection V))
    → Values (λ c. Past now c.last_message_ms) m
    → All HasTime m
Values-HasTime now [] h = tt
Values-HasTime now ((id, c) ∷ m) h = (h.0.0, Values-HasTime now m h.1)

-- The clock tells a time that can be reckoned with, if it tells one.
abbrev pub Timely : Os → Type 0
Timely os = (t : ℤ) → os.now ≡ ok t → IsTime t

module _ {V F S : Type 0} (j : Json V) (f : Float F) (s : Serde F) (limit : Option ℕ)
    (e : Engine V F S) where
  pub refresh_flag-connections :
      (now : ℤ) (memory : Option ℕ) (l : Loop V F S)
      → (refresh_flag f s limit now memory l).1.connections ≡ l.connections
  unfolding refresh_flag
  refresh_flag-connections now memory l = ground arith

  pub first-again :
      (os : Os) (rest : List Os) (l : Loop V F S)
      → (rounds j f s limit e (os ∷ rest) l).0 ≡ again
      → ((round j f s limit e os l).0 ≡ again)
        × (rounds j f s limit e (os ∷ rest) l
            ≡ rounds j f s limit e rest (round j f s limit e os l).2)
  unfolding rounds
  first-again os rest l more = elim (Exit-cases (round j f s limit e os l).0) [
    | inl going ↦ (going, rw (going, rounds) refl)
    | inr (inl done) ↦ cc (rw (done, rounds) at more)
    | inr (inr (m, bad)) ↦ cc (rw (bad, rounds) at more)
  ]
