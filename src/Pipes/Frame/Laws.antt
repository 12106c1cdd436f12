-- ===== src/Pipes/Frame/Laws.antt =====
-- The frames that are written are the frames that are read.
use mathlib.Core.List.{append_assoc}
use Prim.Native.Nat.{◌%◌, ◌/◌}
use stadhouder.Base.{
  refl, ◌<◌, ◌∷◌, err, ◌≢◌, ok, false, [], ℕ, ◌≤◌, ◌≡◌, ◌++◌, arith, Text, length, All,
  length-append, take_all, drop_all,
}
use stadhouder.Utf8.{Bytes, IsChar, encode}
use stadhouder.Utf8.Laws.{decode-encode}
use stadhouder.Pipes.Frame.{
  partial, extract_frames, write_frame, read_frame, Sink, max_frame_bytes, to_le_bytes,
  from_le_bytes, frame, next_frame,
}

-- A message that a frame can carry: a Rust string within the limit.
pub record Fits (m : Text) : Type 0 where
  pub chars : All IsChar m
  pub small : length (encode m) ≤ max_frame_bytes

-- The bytes of a frame.
unfoldable pub frame_bytes : Text → Bytes
unfolding to_le_bytes
frame_bytes m = to_le_bytes (length (encode m)) ++ encode m

le_bytes_round :
    (n : ℕ)
    → n ≤ max_frame_bytes
    → from_le_bytes (n % 256) (n / 256 % 256) (n / 65536 % 256) (n / 16777216 % 256) ≡ n
unfolding from_le_bytes
le_bytes_round n h = omega arith

pub next_frame-frame_bytes :
    (m : Text) (s : Bytes) → Fits m → next_frame (frame_bytes m ++ s) ≡ frame m s
unfolding next_frame frame_bytes
next_frame-frame_bytes m s h = ground (
  arith,
  le_bytes_round (length (encode m)) h.small,
  length-append (encode m) s,
  take_all (encode m) s,
  drop_all (encode m) s,
  decode-encode m h.chars,
)

-- A whole frame at the front of a stream is read as its message, and no byte behind it is touched.
pub read_frame-frame_bytes :
    (m : Text) (s : Bytes) → Fits m → read_frame (frame_bytes m ++ s) ≡ ok (m, s)
unfolding read_frame frame_bytes
read_frame-frame_bytes m s h = ground (
  arith,
  le_bytes_round (length (encode m)) h.small,
  length-append (encode m) s,
  take_all (encode m) s,
  drop_all (encode m) s,
  decode-encode m h.chars,
)

pub write_frame-frame_bytes :
    (m : Text) (w : Sink)
    → Fits m
    → w.broken ≡ false
    → write_frame m w ≡ ok (record w { written = w.written ++ frame_bytes m })
unfolding write_frame frame_bytes
write_frame-frame_bytes m w h open_ =
    ground (arith, h.small, append_assoc w.written (to_le_bytes (length (encode m))) (encode m))

abbrev pub empty_sink : Sink
empty_sink = record { written = []; broken = false }

-- A message within the frame limit is written without an error, and the other end, whatever else
-- follows in the pipe, reads that same message and leaves exactly what follows.
pub read_frame-write_frame :
    (m : Text) (s : Bytes)
    → Fits m
    → (w : Sink) × (write_frame m empty_sink ≡ ok w) × (read_frame (w.written ++ s) ≡ ok (m, s))
read_frame-write_frame m s h = (
  record { written = frame_bytes m; broken = false },
  write_frame-frame_bytes m empty_sink h refl,
  read_frame-frame_bytes m s h,
)

-- A message whose bytes pass the limit is refused by the writer, and a length field over the limit
-- by both readers, before they look at any byte of the message.
pub oversized :
    (m : Text) (a b c d : ℕ) (w : Sink) (s : Bytes)
    → max_frame_bytes < length (encode m)
    → max_frame_bytes < from_le_bytes a b c d
    → (write_frame m w ≡ err "message exceeds the frame limit")
      × (read_frame (a ∷ b ∷ c ∷ d ∷ s) ≡ err "frame exceeds the frame limit")
      × (extract_frames (a ∷ b ∷ c ∷ d ∷ s)
          ≡ (err "frame exceeds the frame limit", a ∷ b ∷ c ∷ d ∷ s))
unfolding write_frame read_frame extract_frames
oversized m a b c d w s h k = (ground arith, ground arith, ground arith)

-- A frame that has not wholly arrived: the reader of a closed pipe has an error, and the service
-- finds no frame yet.
pub truncated :
    (m : Text) (p q : Bytes)
    → Fits m
    → p ++ q ≡ frame_bytes m
    → q ≢ []
    → (read_frame p ≡ err "pipe read failed") × (next_frame p ≡ partial)
unfolding read_frame next_frame frame_bytes
truncated m [] q h e more = ground arith
truncated m (a ∷ []) q h e more = ground arith
truncated m (a ∷ b ∷ []) q h e more = ground arith
truncated m (a ∷ b ∷ c ∷ []) q h e more = ground arith
truncated m (a ∷ b ∷ c ∷ d ∷ r) q h e more =
    ground (arith, le_bytes_round (length (encode m)) h.small, h.small, length-append r q)
