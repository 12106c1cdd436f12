-- ===== src/Pipes/Windows/Inbound.antt =====
-- The service's end of a client-to-server pipe on Windows.
use Prim.Native.String.{String}
use mathlib.Core.List.{append_assoc, append-nil}
use stadhouder.Base.{
  sym, ◌∙◌, All, ℕ, zero, suc, ◌≡◌, refl, ap, Bool, true, false, Option, none, some, List, [], ◌∷◌,
  ◌++◌, Text, length, take, Result, ok, err, ◌>>=◌,
}
use stadhouder.Utf8.{Bytes}
use stadhouder.Pipes.Frame.{next_frame, extract_loop, extract_frames}
use stadhouder.Pipes.Frame.Laws.{Fits}
use stadhouder.Pipes.Stream.{stream, extract_frames-stream}
use stadhouder.Pipes.Windows.{
  Instance, Connect, Peek, waiting_bytes, peek_failed, error_broken_pipe, check_connected,
  available, disconnect,
}
use stadhouder.Pipes.Windows

pub record InboundServerPipe : Type 0 where
  pub instance_ : Instance
  pub buffer : Bytes

unfoldable pub create : Bool → Result InboundServerPipe
create made = Windows.create made >>= λ i. ok (record { instance_ = i; buffer = [] })

-- One turn of the loop: what the peek answers, and what a read that follows would give (none if it
-- fails).
pub record Turn : Type 0 where
  pub peek : Peek
  pub chunk : Option Bytes

-- How the loop ended: an error, no more bytes now, or the client gone.
pub data Ending : Type 0 where
  failed : String → Ending
  idle episode_over : Ending

-- A read of `n` bytes into the buffer, which gives at most as many.
read_chunk : ℕ → Option Bytes → Bytes → Option Bytes
read_chunk n none buffer = none
read_chunk n (some s) buffer = some (buffer ++ take n s)

-- The loop of one call. It ends at the latest with the list, when the system has no more to give.
unfoldable pub read_turns : Bytes → List Turn → Ending × Bytes
unfolding read_chunk available
read_turns buffer [] = (idle, buffer)
read_turns buffer (t ∷ ts) = elim (available t.peek) [
  | err e ↦ (failed e, buffer)
  | ok none ↦ (episode_over, buffer)
  | ok (some zero) ↦ (idle, buffer)
  | ok (some (suc n)) ↦ elim (read_chunk (suc n) t.chunk buffer) [
    | none ↦ (failed "pipe read failed", buffer)
    | some longer ↦ read_turns longer ts
  ]
]

-- What follows the loop.
after_loop : Ending × Bytes → Instance → Result (List Text) × InboundServerPipe
after_loop (failed e, s) i = (err e, record { instance_ = i; buffer = s })
after_loop (idle, s) i =
    let (r, rest) = extract_frames s in (r, record { instance_ = i; buffer = rest })
after_loop (episode_over, s) i =
    ((extract_frames s).0, record { instance_ = disconnect i; buffer = [] })

listened : List Turn → Bytes → Result Bool × Instance → Result (List Text) × InboundServerPipe
listened turns s (err e, i) = (err e, record { instance_ = i; buffer = s })
listened turns s (ok false, i) = (ok [], record { instance_ = i; buffer = s })
listened turns s (ok true, i) = after_loop (read_turns s turns) i

unfoldable pub drain_frames :
    Connect → List Turn → InboundServerPipe → Result (List Text) × InboundServerPipe
unfolding check_connected read_turns disconnect after_loop listened
drain_frames c turns p = listened turns p.buffer (check_connected c p.instance_)

-- The turns that bring the pieces of an episode, none of them empty, and then its end.
abbrev pub turn_of : Bytes → Turn
turn_of s = record { peek = waiting_bytes (length s); chunk = some s }

abbrev pub gone : Turn
gone = record { peek = peek_failed error_broken_pipe; chunk = none }

abbrev pub episode : List (ℕ × Bytes) → List Turn
episode [] = gone ∷ []
episode ((b, s) ∷ ss) = turn_of (b ∷ s) ∷ episode ss

abbrev pub sent : List (ℕ × Bytes) → Bytes
sent [] = []
sent ((b, s) ∷ ss) = (b ∷ s) ++ sent ss

take-length : (s : Bytes) → take (length s) s ≡ s
take-length [] = refl
take-length (b ∷ s) = ap (◌∷◌ b) (take-length s)

read_turns-episode :
    (buffer : Bytes) (ss : List (ℕ × Bytes))
    → read_turns buffer (episode ss) ≡ (episode_over, buffer ++ sent ss)
unfolding read_turns
read_turns-episode buffer [] = rw (append-nil buffer) refl
read_turns-episode buffer ((b, s) ∷ ss) =
    rw (take-length s, ← append_assoc buffer (b ∷ s) (sent ss))
      (read_turns-episode (buffer ++ b ∷ s) ss)

-- A client is attached, or is found to be.
abbrev pub Heard : Connect → Instance → Type 0
Heard c i = (check_connected c i).0 ≡ ok true

listened-true :
    (turns : List Turn) (s : Bytes) (r : Result Bool × Instance)
    → r.0 ≡ ok true
    → listened turns s r ≡ after_loop (read_turns s turns) r.1
unfolding listened after_loop
listened-true turns s (r, i) h = rw (h, listened) refl

-- A whole episode of an attached client, cut into any pieces: the answer is that of the bytes that
-- were there followed by those that it sent, and afterwards, whatever the bytes were, the pipe listens
-- for the next client with an empty buffer.
pub episode_ends :
    (c : Connect) (ss : List (ℕ × Bytes)) (p : InboundServerPipe)
    → Heard c p.instance_
    → let (r, q) = drain_frames c (episode ss) p in
      (r ≡ (extract_frames (p.buffer ++ sent ss)).0)
      × (q.buffer ≡ [])
      × (q.instance_.connected ≡ false)
unfolding drain_frames after_loop disconnect
episode_ends c ss p h =
    rw
      (
        listened-true (episode ss) p.buffer (check_connected c p.instance_) h,
        read_turns-episode p.buffer ss,
      )
      (refl, refl, refl)

extract_frames-whole : (ms : List Text) → All Fits ms → (extract_frames (stream ms)).0 ≡ ok ms
unfolding extract_frames extract_loop next_frame
extract_frames-whole ms h =
    ap (λ s. (extract_frames s).0) (sym (append-nil (stream ms)))
    ∙ ap (λ (x : Result (List Text) × Bytes). x.0) (extract_frames-stream ms [] h)
    ∙ ap ok (append-nil ms)

-- Whatever an episode has brought, half a frame or one that is not allowed among them, once its client
-- is gone the next client's messages are not touched by it: all of them come out, in order.
pub recovers :
    (c d : Connect) (ss ts : List (ℕ × Bytes)) (p : InboundServerPipe) (ms : List Text)
    → Heard c p.instance_
    → let q = (drain_frames c (episode ss) p).1 in
      Heard d q.instance_
      → All Fits ms
      → sent ts ≡ stream ms
      → (drain_frames d (episode ts) q).0 ≡ ok ms
recovers c d ss ts p ms h k fits e =
    let q = (drain_frames c (episode ss) p).1 in
    (episode_ends d ts q k).0
    ∙ ap (λ s. (extract_frames (s ++ sent ts)).0) (episode_ends c ss p h).1
    ∙ ap (λ s. (extract_frames s).0) e
    ∙ extract_frames-whole ms fits
