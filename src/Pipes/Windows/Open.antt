-- ===== src/Pipes/Windows/Open.antt =====
-- The client's ends on Windows: the loop that opens a pipe.
use Prim.Native.String.{String}
use stadhouder.Base.{
  ℕ, ◌≤◌, ◌<◌, ◌≡◌, refl, Option, none, some, List, [], ◌∷◌, ◌++◌, arith, Text, All, Result, ok,
  err, ◌>>=◌, leb, if◌then◌else◌,
}
use stadhouder.Utf8.{Bytes}
use stadhouder.Pipes.Frame.{Sink, write_frame, read_frame}
use stadhouder.Float.{Float}
use stadhouder.Pipes.Client.{ClientWaits, client_waits}

-- What one try to open the pipe answers: its handle, another client in it, no pipe of that name, or
-- another error; with the clock's answer to the question that follows a try in vain.
pub data Attempt (H : Type 0) : Type 0 where
  attached : H → Attempt H
  pipe_busy not_found : ℕ → Attempt H
  refused : Attempt H

module _ {H : Type 0} where
  -- The loop of tries; `none` while it goes on.
  unfoldable pub open_client : ClientWaits → List (Attempt H) → Option (Result H)
  open_client waits [] = none
  open_client waits (attached h ∷ rest) = some (ok h)
  open_client waits (pipe_busy now ∷ rest) =
      let later = open_client waits rest in
      if leb waits.busy_deadline now
      then some (err "stadhouder service is busy (pipe timeout)")
      else later
  open_client waits (not_found now ∷ rest) =
      let later = open_client waits rest in
      if leb waits.not_found_deadline now
      then some (err "stadhouder service is not running (pipe not found)")
      else later
  open_client waits (refused ∷ rest) = some (err "failed to open service pipe")

module _ {F : Type 0} (f : Float F) where
  -- `now` is the clock's answer at the start.
  unfoldable pub client_send : Text → F → ℕ → List (Attempt Sink) → Option (Result Sink)
  client_send frame time_factor now tries =
      elim (open_client (client_waits f now time_factor) tries) [
        | none ↦ none
        | some r ↦ some (r >>= write_frame frame)
      ]

  -- The handle gives what the service writes into the pipe.
  unfoldable pub client_receive : F → ℕ → List (Attempt Bytes) → Option (Result Text)
  client_receive time_factor now tries = elim (open_client (client_waits f now time_factor) tries) [
    | none ↦ none
    | some r ↦ some (r >>= λ s. read_frame s >>= λ (t, rest). ok t)
  ]

-- A try in vain that does not end the loop.
abbrev pub Early : {H : Type 0} → ClientWaits → Attempt H → Type 0
Early waits (pipe_busy now) = now < waits.busy_deadline
Early waits (not_found now) = now < waits.not_found_deadline
Early waits _ = ⊥

-- The error that an attempt ends the loop with, if it ends it with one.
abbrev pub Fatal : {H : Type 0} → ClientWaits → Attempt H → String → Type 0
Fatal waits (attached h) e = ⊥
Fatal waits (pipe_busy now) e =
    (waits.busy_deadline ≤ now) × (e ≡ "stadhouder service is busy (pipe timeout)")
Fatal waits (not_found now) e =
    (waits.not_found_deadline ≤ now) × (e ≡ "stadhouder service is not running (pipe not found)")
Fatal waits refused e = e ≡ "failed to open service pipe"

module _ {H : Type 0} where
  -- Each kind of failure has a deadline of its own: a pipe that is found busy is tried until the later
  -- deadline, one that is not there until the earlier, in any order in which the two come, and the
  -- error names the kind of the last try.
  pub open_client_fails :
      (waits : ClientWaits) (before : List (Attempt H)) (a : Attempt H) (after : List (Attempt H))
      (e : String)
      → All (Early waits) before
      → Fatal waits a e
      → open_client waits (before ++ a ∷ after) ≡ some (err e)
  unfolding open_client
  open_client_fails waits [] (attached h) after e early fatal = absurd fatal
  open_client_fails waits [] (pipe_busy now) after e early fatal = ground arith
  open_client_fails waits [] (not_found now) after e early fatal = ground arith
  open_client_fails waits [] refused after e early fatal = rw fatal refl
  open_client_fails waits (attached h ∷ before) a after e early fatal = absurd early.0
  open_client_fails waits (refused ∷ before) a after e early fatal = absurd early.0
  open_client_fails waits (pipe_busy now ∷ before) a after e early fatal =
      ground (arith, open_client_fails waits before a after e early.1 fatal, early.0)
  open_client_fails waits (not_found now ∷ before) a after e early fatal =
      ground (arith, open_client_fails waits before a after e early.1 fatal, early.0)
