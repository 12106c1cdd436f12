-- ===== src/Pipes/Channel.antt =====
-- The client's writes and the service's drains of one pipe, in any order: the Unix half of pipes.rs.
use mathlib.Core.List.{append_assoc, append-nil}
use stadhouder.Base.{
  if◌then◌else◌, ◌≡◌, refl, ap, sym, ◌∙◌, Bool, true, false, List, [], ◌∷◌, ◌++◌, Text, All, Result,
  ok, err,
}
use stadhouder.Utf8.{Bytes}
use stadhouder.Pipes.Frame.{extract_frames}
use stadhouder.Pipes.Frame.Laws.{Fits}
use stadhouder.Pipes.Stream.{
  stream, prepend, prepend-nil, prepend-append, go_on, extract_frames-append, extract_frames-bad,
  extract_frames-err, extract_frames-stream_only,
}
use stadhouder.Pipes.Server.{
  InboundServerPipe, Read, bytes, nothing, would_block, failed, read_all, drain_frames, joined,
  with_buffer,
}

-- How the reads of one call of `drain_frames` end: no bytes yet, no writer now, or an error.
pub data Stop : Type 0 where
  dry closed broken : Stop

abbrev last_read : Stop → Read
last_read dry = would_block
last_read closed = nothing
last_read broken = failed

abbrev fine : Stop → Bool
fine dry = true
fine closed = true
fine broken = false

abbrev pub reads_of : List Bytes → Stop → List Read
reads_of [] stop = last_read stop ∷ []
reads_of (s ∷ ss) stop = bytes s ∷ reads_of ss stop

-- The pipe with what was ever written into it and taken out of it, and the frames that the service has
-- got from its calls.
pub record Channel : Type 0 where
  pub sent : Bytes
  pub taken : Bytes
  pub pipe : Bytes
  pub server : InboundServerPipe
  pub got : List Text

abbrev frames_of : Result (List Text) → List Text
frames_of (ok fs) = fs
frames_of (err m) = []

abbrev pub wrote : Bytes → Channel → Channel
wrote s c = record c { sent = c.sent ++ s; pipe = c.pipe ++ s }

abbrev pub after : Bytes → Bytes → Result (List Text) × InboundServerPipe → Channel → Channel
after taken rest (r, p) c = record c {
  taken = c.taken ++ taken;
  pipe = rest;
  server = p;
  got = c.got ++ frames_of r;
}

abbrev pub drained : List Bytes → Stop → Bytes → Channel → Channel
drained ss stop rest c = after (joined ss) rest (drain_frames (reads_of ss stop) c.server) c

-- A write may stop within a frame. A call of `drain_frames` takes some of what the pipe holds, in
-- whatever pieces.
pub data Step : Channel → Channel → Type 0 where
  write : (c : Channel) (s : Bytes) → Step c (wrote s c)
  drain :
      (c : Channel) (ss : List Bytes) (stop : Stop) (rest : Bytes)
      → c.pipe ≡ joined ss ++ rest
      → Step c (drained ss stop rest c)

abbrev pub fresh : Text → Channel
fresh path = record {
  sent = [];
  taken = [];
  pipe = [];
  server = record { path = path; buffer = [] };
  got = [];
}

pub data Reach (path : Text) : Channel → Type 0 where
  here : Reach path (fresh path)
  next : {c d : Channel} → Reach path c → Step c d → Reach path d

-- No byte is lost, and what was got and what is in the buffer are what the bytes taken so far hold.
pub record Inv (c : Channel) : Type 0 where
  pub bytes_kept : c.taken ++ c.pipe ≡ c.sent
  pub frames_kept : extract_frames c.taken ≡ prepend c.got (extract_frames c.server.buffer)

read_all-reads_of :
    (buffer : Bytes) (ss : List Bytes) (stop : Stop)
    → read_all buffer (reads_of ss stop) ≡ (fine stop, buffer ++ joined ss)
unfolding read_all
read_all-reads_of buffer [] dry = rw (append-nil buffer) refl
read_all-reads_of buffer [] closed = rw (append-nil buffer) refl
read_all-reads_of buffer [] broken = rw (append-nil buffer) refl
read_all-reads_of buffer (s ∷ ss) stop =
    rw (← append_assoc buffer s (joined ss)) (read_all-reads_of (buffer ++ s) ss stop)

go_on-prepend :
    (fs : List Text) (x : Result (List Text) × Bytes) (more : Bytes)
    → go_on (prepend fs x) more ≡ prepend fs (go_on x more)
go_on-prepend fs (ok gs, r) more = prepend-append fs gs (extract_frames (r ++ more))
go_on-prepend fs (err m, r) more = refl

-- The bytes taken later continue what is in the buffer.
extract_frames-taken :
    (taken more buffer : Bytes) (got : List Text)
    → extract_frames taken ≡ prepend got (extract_frames buffer)
    → extract_frames (taken ++ more) ≡ prepend got (extract_frames (buffer ++ more))
extract_frames-taken taken more buffer got h =
    extract_frames-append taken more
    ∙ ap (λ x. go_on x more) h
    ∙ go_on-prepend got (extract_frames buffer) more
    ∙ ap (prepend got) (sym (extract_frames-append buffer more))

-- What a call has left yields nothing more by itself.
extract_frames-rest :
    (s : Bytes) (x : Result (List Text) × Bytes)
    → extract_frames s ≡ x
    → x ≡ prepend (frames_of x.0) (extract_frames x.1)
extract_frames-rest s (ok fs, r) h =
    sym h
    ∙ ap extract_frames (sym (append-nil s))
    ∙ extract_frames-append s []
    ∙ ap (λ x. go_on x []) h
    ∙ ap (λ b. prepend fs (extract_frames b)) (append-nil r)
extract_frames-rest s (err m, r) h =
    ap (prepend []) (sym (extract_frames-bad r m (extract_frames-err s r m h)))

-- The frames and the buffer after a call, by what its reads brought.
drain_frames-kept :
    (p : InboundServerPipe) (ss : List Bytes) (stop : Stop)
    → let (r, q) = drain_frames (reads_of ss stop) p in
      extract_frames (p.buffer ++ joined ss) ≡ prepend (frames_of r) (extract_frames q.buffer)
unfolding drain_frames
drain_frames-kept p ss stop = rw (read_all-reads_of p.buffer ss stop) (kept (fine stop))
  where
    s : Bytes
    s = p.buffer ++ joined ss

    kept :
        (b : Bool)
        → let (r, q) =
            if b
            then with_buffer p (extract_frames s)
            else (err "pipe read failed", record p { buffer = s }) in
          extract_frames s ≡ prepend (frames_of r) (extract_frames q.buffer)
    kept true = extract_frames-rest s (extract_frames s) refl
    kept false = prepend-nil (extract_frames s)

Step-Inv : {c d : Channel} → Step c d → Inv c → Inv d
Step-Inv (write c s) h = record {
  bytes_kept = sym (append_assoc c.taken c.pipe s) ∙ ap (λ x. x ++ s) h.bytes_kept;
  frames_kept = h.frames_kept;
}
Step-Inv (drain c ss stop rest e) h =
    let (r, q) = drain_frames (reads_of ss stop) c.server in
    record {
      bytes_kept =
          append_assoc c.taken (joined ss) rest ∙ ap (λ x. c.taken ++ x) (sym e) ∙ h.bytes_kept;
      frames_kept =
          extract_frames-taken c.taken (joined ss) c.server.buffer c.got h.frames_kept
          ∙ ap (prepend c.got) (drain_frames-kept c.server ss stop)
          ∙ sym (prepend-append c.got (frames_of r) (extract_frames q.buffer));
    }

pub Reach-Inv : {path : Text} {c : Channel} → Reach path c → Inv c
Reach-Inv here = record { bytes_kept = refl; frames_kept = prepend-nil (extract_frames []) }
Reach-Inv (next r st) = Step-Inv st (Reach-Inv r)

-- What makes a whole sequence of frames with the frames `got` begins with them.
begins :
    (got ms : List Text) (x : Result (List Text) × Bytes)
    → ◌≡◌ {A = Result (List Text) × Bytes} (ok ms, []) (prepend got x)
    → (rest : List Text) × (got ++ rest ≡ ms)
begins got ms (ok fs, r) h = (fs, cc (ap (λ (y : Result (List Text) × Bytes). y.0) h))
begins got ms (err m, r) h = cc (ap (λ (y : Result (List Text) × Bytes). y.0) h)

-- In whatever way a client's writes, which may stop within a frame, and the service's calls of
-- `drain_frames`, failed ones among them, follow one another: as long as what was written begins the
-- frames of some messages, the service has got the first of these messages, in order and once each.
pub got_in_order :
    {path : Text} {c : Channel} (ms : List Text) (more : Bytes)
    → Reach path c
    → All Fits ms
    → c.sent ++ more ≡ stream ms
    → (rest : List Text) × (c.got ++ rest ≡ ms)
got_in_order {c} ms more r fit e =
    let h = Reach-Inv r in
    begins c.got ms (extract_frames (c.server.buffer ++ (c.pipe ++ more))) (
      sym (extract_frames-stream_only ms fit)
      ∙ ap extract_frames
          (sym e ∙ ap (λ x. x ++ more) (sym h.bytes_kept) ∙ append_assoc c.taken c.pipe more)
      ∙ extract_frames-taken c.taken (c.pipe ++ more) c.server.buffer c.got h.frames_kept)

all_there :
    (got ms : List Text) (x : Result (List Text) × Bytes)
    → ◌≡◌ {A = Result (List Text) × Bytes} (ok ms, []) (prepend got x)
    → (got ++ frames_of x.0 ≡ ms) × (x.1 ≡ [])
all_there got ms (ok fs, r) h = (
  cc (ap (λ (y : Result (List Text) × Bytes). y.0) h),
  ap (λ (y : Result (List Text) × Bytes). y.1) (sym h),
)
all_there got ms (err m, r) h = cc (ap (λ (y : Result (List Text) × Bytes). y.0) h)

-- Once the frames of some messages were written whole, in whatever way writes and calls have followed
-- one another until then, one call that reads all that is in the pipe without an error leaves the
-- service with exactly these messages, in order and once each, and with an empty buffer.
pub all_got :
    {path : Text} {c : Channel} (ms : List Text) (ss : List Bytes)
    → Reach path c
    → All Fits ms
    → c.sent ≡ stream ms
    → c.pipe ≡ joined ss
    → let d = drained ss dry [] c in (d.got ≡ ms) × (d.server.buffer ≡ [])
unfolding drain_frames
all_got {c} ms ss r fit e k =
    let h = Reach-Inv r in
    rw (read_all-reads_of c.server.buffer ss dry) (
      all_there c.got ms (extract_frames (c.server.buffer ++ joined ss)) (
        sym (extract_frames-stream_only ms fit)
        ∙ ap extract_frames (sym e ∙ sym h.bytes_kept ∙ ap (λ x. c.taken ++ x) k)
        ∙ extract_frames-taken c.taken (joined ss) c.server.buffer c.got h.frames_kept))
