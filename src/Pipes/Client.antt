-- ===== src/Pipes/Client.antt =====
-- The client's ends of a connection's pipes: the Unix half of pipes.rs.
use Prim.Native.String.{String}
use stadhouder.Base.{
  err≢err, arith, ◌≢◌, Bool-cases, inl, inr, refl, ap, ◌∷◌, ℕ, ◌+◌, ◌≤◌, ◌<◌, ◌≡◌, Option, none,
  some, List, [], ◌++◌, Text, All, Result, ok, err, ◌>>=◌, leb, if◌then◌else◌,
}
use stadhouder.Utf8.{Bytes}
use stadhouder.Float.{Float}
use stadhouder.Clock.{scale_wait_ms}
use stadhouder.Pipes.Frame.{Sink, write_all, write_frame, read_frame}

-- Real milliseconds: the sleep between two tries, and the instants at which a client gives up.
pub record ClientWaits : Type 0 where
  pub retry : ℕ
  pub not_found_deadline : ℕ
  pub busy_deadline : ℕ

module _ {F : Type 0} (f : Float F) where
  unfoldable pub client_waits : ℕ → F → ClientWaits
  client_waits now time_factor = record {
    retry = scale_wait_ms f 50 time_factor;
    not_found_deadline = now + scale_wait_ms f 6000 time_factor;
    busy_deadline = now + scale_wait_ms f 10000 time_factor;
  }

-- What one try to open the write end answers: the pipe, no reader or no FIFO yet, or an error; with
-- the clock's answer to the question that follows a try in vain.
pub data Try : Type 0 where
  opened : Sink → Try
  not_yet : ℕ → Try
  broken : Try

-- The loop of tries; `none` while it goes on.
unfoldable pub try_send : ℕ → Text → List Try → Option (Result Sink)
try_send deadline frame [] = none
try_send deadline frame (opened w ∷ rest) = some (write_frame frame w)
try_send deadline frame (broken ∷ rest) = some (err "failed to open")
try_send deadline frame (not_yet now ∷ rest) =
    let later = try_send deadline frame rest in
    if leb deadline now
    then some (err "stadhouder service is not running (no reader on the pipe)")
    else later

-- What the wait for the FIFO meets: it is there, with the bytes that the service then writes into it
-- (none if it cannot be opened), or not, with the clock's answer.
pub data Wait : Type 0 where
  there : Option Bytes → Wait
  missing : ℕ → Wait

abbrev opened_read : Option Bytes → Result Text
opened_read none = err "failed to open"
opened_read (some s) = read_frame s >>= λ (t, rest). ok t

unfoldable pub try_receive : ℕ → List Wait → Option (Result Text)
try_receive deadline [] = none
try_receive deadline (there s ∷ rest) = some (opened_read s)
try_receive deadline (missing now ∷ rest) =
    let later = try_receive deadline rest in
    if leb deadline now
    then some (err "stadhouder service is not running (pipe not found)")
    else later

module _ {F : Type 0} (f : Float F) where
  unfoldable pub client_send : Text → F → ℕ → List Try → Option (Result Sink)
  unfolding try_send
  client_send frame time_factor now tries =
      try_send (ClientWaits.not_found_deadline (client_waits f now time_factor)) frame tries

  unfoldable pub client_receive : F → ℕ → List Wait → Option (Result Text)
  unfolding try_receive
  client_receive time_factor now waits =
      try_receive (ClientWaits.not_found_deadline (client_waits f now time_factor)) waits

-- A try in vain before the deadline.
abbrev pub Early : ℕ → Try → Type 0
Early deadline (not_yet now) = now < deadline
Early deadline _ = ⊥

abbrev no_reader : String
no_reader = "stadhouder service is not running (no reader on the pipe)"

write_frame-error : (m : Text) (w : Sink) → write_frame m w ≢ err no_reader
unfolding write_frame write_all
write_frame-error m w h = ground (
  arith,
  err≢err Sink "message exceeds the frame limit" no_reader refl,
  err≢err Sink "pipe write failed" no_reader refl,
)

some-eq : {A : Type 0} (a b : A) → some a ≡ some b → a ≡ b
some-eq a b e = cc

-- A client that gives up has met its deadline, after tries in vain that were all before it.
pub gives_up_late :
    (deadline : ℕ) (frame : Text) (tries : List Try)
    → try_send deadline frame tries
      ≡ some (err "stadhouder service is not running (no reader on the pipe)")
    → (before : List Try) × (now : ℕ) × (after : List Try) × (tries ≡ before ++ not_yet now ∷ after)
      × All (Early deadline) before
      × (deadline ≤ now)
unfolding try_send
gives_up_late deadline frame [] h = cc
gives_up_late deadline frame (opened w ∷ rest) h =
    absurd (write_frame-error frame w (some-eq _ _ h))
gives_up_late deadline frame (broken ∷ rest) h =
    absurd (err≢err Sink "failed to open" no_reader refl (some-eq _ _ h))
gives_up_late deadline frame (not_yet now ∷ rest) h = elim (Bool-cases (leb deadline now)) [
  | inl late ↦ ([], now, rest, refl, tt, ground (arith, late))
  | inr early ↦
      let (before, at, after, e, all, late) = gives_up_late deadline frame rest (rw early at h) in
      (
        not_yet now ∷ before,
        at,
        after,
        ap (◌∷◌ (not_yet now)) e,
        (ground (arith, early), all),
        late,
      )
]

-- Once a try in vain has met the deadline, the loop is over: the client never hangs on a service that
-- does not serve its pipe.
pub try_send_ends :
    (deadline : ℕ) (frame : Text) (before after : List Try) (now : ℕ)
    → deadline ≤ now
    → try_send deadline frame (before ++ not_yet now ∷ after) ≢ none
unfolding try_send
try_send_ends deadline frame [] after now h = ground arith
try_send_ends deadline frame (opened w ∷ before) after now h = ground arith
try_send_ends deadline frame (broken ∷ before) after now h = ground arith
try_send_ends deadline frame (not_yet t ∷ before) after now h =
    ground (arith, try_send_ends deadline frame before after now h)
