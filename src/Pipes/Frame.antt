-- ===== src/Pipes/Frame.antt =====
-- The frames of pipes.rs: a length of four bytes, the lowest first, then the bytes of the message.
pub mod Laws
pub mod Sound
use Prim.Native.String.{String}
use stadhouder.Base.{
  ℕ, zero, suc, ◌+◌, ◌*◌, ◌/◌, ◌%◌, Option, none, some, List, [], ◌∷◌, ◌++◌, ltb, if◌then◌else◌,
  Text, length, take, drop, Result, ok, err, ◌>>=◌, Bool, true, false,
}
use stadhouder.Utf8.{Bytes, encode, decode}

-- MAX_FRAME_BYTES
abbrev pub max_frame_bytes : ℕ
max_frame_bytes = 16 * 1024 * 1024

unfoldable pub to_le_bytes : ℕ → Bytes
to_le_bytes n = n % 256 ∷ n / 256 % 256 ∷ n / 65536 % 256 ∷ n / 16777216 % 256 ∷ []

unfoldable pub from_le_bytes : ℕ → ℕ → ℕ → ℕ → ℕ
from_le_bytes a b c d = a + 256 * b + 65536 * c + 16777216 * d

-- The other end of a pipe as a writer: what it was given, and whether it takes no more.
pub record Sink : Type 0 where
  pub written : Bytes
  pub broken : Bool

unfoldable pub write_all : Bytes → Sink → Result Sink
write_all s w =
    if w.broken then err "pipe write failed" else ok (record w { written = w.written ++ s })

unfoldable pub write_frame : Text → Sink → Result Sink
unfolding write_all to_le_bytes
write_frame message w =
    let bytes = encode message in
    if ltb max_frame_bytes (length bytes)
    then err "message exceeds the frame limit"
    else do w' ← write_all (to_le_bytes (length bytes)) w; write_all bytes w'

-- `read_exact`: the bytes asked for, and the rest of the stream.
unfoldable pub read_exact : ℕ → Bytes → Result (Bytes × Bytes)
read_exact n r = if ltb (length r) n then err "pipe read failed" else ok (take n r, drop n r)

unfoldable pub length_of : Bytes → ℕ
unfolding from_le_bytes
length_of (a ∷ b ∷ c ∷ d ∷ _) = from_le_bytes a b c d
length_of _ = 0

text_of : Option Text → Bytes → Result (Text × Bytes)
text_of none r = err "pipe frame is not UTF-8"
text_of (some t) r = ok (t, r)

-- The message, and what the reader has left unread.
unfoldable pub read_frame : Bytes → Result (Text × Bytes)
unfolding read_exact length_of text_of
read_frame r = read_exact 4 r >>= λ (len_bytes, r').
    let len = length_of len_bytes in
    if ltb max_frame_bytes len
    then err "frame exceeds the frame limit"
    else read_exact len r' >>= λ (buf, r''). text_of (decode buf) r''

-- What stands at the front of a buffer.
pub data Front : Type 0 where
  partial : Front
  bad : String → Front
  frame : Text → Bytes → Front

front_of : Option Text → Bytes → Front
front_of none rest = bad "pipe frame is not UTF-8"
front_of (some t) rest = frame t rest

-- The body of the loop of `extract_frames`, behind the length of the frame.
unfoldable pub front_at : ℕ → Bytes → Front
unfolding front_of
front_at len rest =
    if ltb max_frame_bytes len
    then bad "frame exceeds the frame limit"
    else if ltb (length rest) len
    then partial
    else front_of (decode (take len rest)) (drop len rest)

unfoldable pub next_frame : Bytes → Front
unfolding front_at
next_frame (a ∷ b ∷ c ∷ d ∷ rest) = front_at (from_le_bytes a b c d) rest
next_frame _ = partial

-- The loop: the frames found so far, and the buffer.
unfoldable pub extract_loop : ℕ → List Text → Bytes → Result (List Text) × Bytes
extract_loop zero frames buffer = (ok frames, buffer)
extract_loop (suc fuel) frames buffer = elim (next_frame buffer) [
  | partial ↦ (ok frames, buffer)
  | bad m ↦ (err m, buffer)
  | frame t rest ↦ extract_loop fuel (frames ++ t ∷ []) rest
]

-- A frame takes at least four bytes off the buffer, so its length is fuel enough.
unfoldable pub extract_frames : Bytes → Result (List Text) × Bytes
unfolding extract_loop next_frame from_le_bytes
extract_frames buffer = extract_loop (suc (length buffer)) [] buffer
