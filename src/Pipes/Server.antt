-- ===== src/Pipes/Server.antt =====
-- The service's ends of a connection's pipes: the Unix half of pipes.rs.
use Prim.Native.String.{String}
use mathlib.Core.List.{append_assoc, append-nil}
use stadhouder.Base.{
  ap, ◌∙◌, ◌≡◌, refl, Bool, true, false, not, ◌||◌, List, [], ◌∷◌, ◌++◌, Text, codes, filter, any,
  Result, ok, err, if◌then◌else◌, text_eq,
}
use stadhouder.Layout.{join, underscore_uuid}
use stadhouder.Utf8.{Bytes}
use stadhouder.Pipes.Frame.{next_frame, bad, Sink, write_frame, extract_frames}
use stadhouder.Pipes.Stream.{go_on, extract_frames-append, extract_frames-bad}

pub record PipeNames : Type 0 where
  pub client_to_server : Text
  pub server_to_client : Text

unfoldable pub pipe_names_for : Text → Text → PipeNames
unfolding join underscore_uuid
pipe_names_for stadhouder_dir connection_id =
    let tag = underscore_uuid connection_id in
    let pipes_dir = join stadhouder_dir (codes "pipes") in
    record {
      client_to_server = join pipes_dir (codes "c2s_" ++ tag);
      server_to_client = join pipes_dir (codes "s2c_" ++ tag);
    }

-- The FIFOs that exist, by name, and the names at which the system makes none.
pub record Fifos : Type 0 where
  pub present : List Text
  pub refused : List Text

unfoldable pub exists : Text → Fifos → Bool
exists name d = any (text_eq name) d.present

-- `fs::remove_file`, its result dropped.
unfoldable pub remove_file : Text → Fifos → Fifos
remove_file name d = record d { present = filter (λ n. not (text_eq name n)) d.present }

unfoldable pub mkfifo : Text → Fifos → Result (Unit {0}) × Fifos
unfolding exists
mkfifo name d =
    if any (text_eq name) d.refused || exists name d
    then (err "mkfifo failed", d)
    else (ok tt, record d { present = name ∷ d.present })

-- The loop over both names, which stops at the first failure.
unfoldable pub make_pipes : List Text → Fifos → Result (Unit {0}) × Fifos
unfolding mkfifo remove_file
make_pipes [] d = (ok tt, d)
make_pipes (name ∷ names) d =
    let (r, d') = mkfifo name (remove_file name d) in
    elim r [ ok _ ↦ make_pipes names d' | err e ↦ (err e, d') ]

unfoldable pub create_serving_pipes : PipeNames → Fifos → Result (Unit {0}) × Fifos
unfolding make_pipes
create_serving_pipes names d = make_pipes (names.client_to_server ∷ names.server_to_client ∷ []) d

unfoldable pub remove_serving_pipes : PipeNames → Fifos → Fifos
unfolding remove_file
remove_serving_pipes names d =
    remove_file names.server_to_client (remove_file names.client_to_server d)

pub record InboundServerPipe : Type 0 where
  pub path : Text
  pub buffer : Bytes

-- Opening the read end fails where there is no such FIFO.
unfoldable pub create_inbound : Text → Fifos → Result InboundServerPipe
unfolding exists
create_inbound name d =
    if exists name d then ok (record { path = name; buffer = [] }) else err "failed to open"

-- What one non-blocking read answers: bytes, the end (no writer now), no bytes yet, or an error.
pub data Read : Type 0 where
  bytes : Bytes → Read
  nothing would_block failed : Read

-- The loop of reads of one call: whether it ended without an error, and the buffer. It ends at the
-- latest with the list, when the system has no more to give.
unfoldable pub read_all : Bytes → List Read → Bool × Bytes
read_all buffer [] = (true, buffer)
read_all buffer (bytes s ∷ rs) = read_all (buffer ++ s) rs
read_all buffer (nothing ∷ rs) = (true, buffer)
read_all buffer (would_block ∷ rs) = (true, buffer)
read_all buffer (failed ∷ rs) = (false, buffer)

abbrev pub with_buffer :
    InboundServerPipe → Result (List Text) × Bytes → Result (List Text) × InboundServerPipe
with_buffer p (r, s) = (r, record p { buffer = s })

unfoldable pub drain_frames : List Read → InboundServerPipe → Result (List Text) × InboundServerPipe
unfolding read_all
drain_frames reads p =
    let (fine, s) = read_all p.buffer reads in
    if fine
    then with_buffer p (extract_frames s)
    else (err "pipe read failed", record p { buffer = s })

pub record OutboundServerPipe : Type 0 where
  pub path : Text

unfoldable pub create_outbound : Text → Result OutboundServerPipe
create_outbound name = ok (record { path = name })

-- What the non-blocking open of the write end answers: a waiting reader, none (ENXIO), or an error.
pub data Poller : Type 0 where
  waiting : Sink → Poller
  absent unreachable : Poller

abbrev pub received : Sink → Result Sink → Bytes
received w (ok w') = w'.written
received w (err e) = w.written

-- The answer, and the bytes in the poller's pipe. The result of the write is dropped.
unfoldable pub try_serve_poll : Poller → Text → Result Bool × Bytes
try_serve_poll (waiting w) provide = (ok true, received w (write_frame provide w))
try_serve_poll absent provide = (ok false, [])
try_serve_poll unreachable provide = (err "failed to open", [])

-- The reads that bring the pieces of `arrived` and then find no more.
abbrev pub arrivals : List Bytes → List Read
arrivals [] = would_block ∷ []
arrivals (s ∷ ss) = bytes s ∷ arrivals ss

abbrev pub joined : List Bytes → Bytes
joined [] = []
joined (s ∷ ss) = s ++ joined ss

read_all-arrivals :
    (buffer : Bytes) (ss : List Bytes) → read_all buffer (arrivals ss) ≡ (true, buffer ++ joined ss)
unfolding read_all
read_all-arrivals buffer [] = rw (append-nil buffer) refl
read_all-arrivals buffer (s ∷ ss) =
    rw (← append_assoc buffer s (joined ss)) (read_all-arrivals (buffer ++ s) ss)

pub drain_frames-arrivals :
    (ss : List Bytes) (p : InboundServerPipe)
    → drain_frames (arrivals ss) p ≡ with_buffer p (extract_frames (p.buffer ++ joined ss))
unfolding drain_frames
drain_frames-arrivals ss p = rw (read_all-arrivals p.buffer ss) refl

-- A bad frame at the front of the buffer (a length over the limit, or bytes that are not UTF-8)
-- stays there: whatever arrives, each call fails and yields no frame, and nothing leaves the buffer.
pub bad_frame_stays :
    (p : InboundServerPipe) (ss : List Bytes) (m : String)
    → next_frame p.buffer ≡ bad m
    → drain_frames (arrivals ss) p ≡ (err m, record p { buffer = p.buffer ++ joined ss })
bad_frame_stays p ss m h =
    drain_frames-arrivals ss p
    ∙ ap (with_buffer p) (
        extract_frames-append p.buffer (joined ss)
        ∙ ap (λ x. go_on x (joined ss)) (extract_frames-bad p.buffer m h))

-- What two calls yield against one call that finds the same bytes.
abbrev pub Cut :
    Result (List Text)
    → Result (List Text) × InboundServerPipe
    → Result (List Text) × InboundServerPipe
    → Type 0
Cut first (second, q) (ok gs, p) =
    (fs : List Text) × (hs : List Text) × (first ≡ ok fs)
    × (second ≡ ok hs)
    × (fs ++ hs ≡ gs)
    × (q ≡ p)
Cut first (second, q) (err m, p) = (second ≡ err m) × (q ≡ p)
