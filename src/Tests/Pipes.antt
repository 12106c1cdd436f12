-- ===== src/Tests/Pipes.antt =====
-- The theorems on frames and pipes at concrete messages.
use stadhouder.Base.{◌≤◌, ℕ, ◌≡◌, refl, List, [], ◌∷◌, ◌++◌, arith, Text, codes, ok, err, All, inl}
use stadhouder.Utf8.{Bytes, encode, encode_char, decode}
use stadhouder.Pipes.Frame.{
  Sink, partial, write_frame, read_frame, extract_frames, front_at, next_frame, from_le_bytes,
}
use stadhouder.Pipes.Frame.Laws.{Fits, empty_sink, read_frame-write_frame, frame_bytes}
use stadhouder.Pipes.Frame.Sound.{IsByte, extract_frames-Sound}
use stadhouder.Pipes.Stream.{stream}
use stadhouder.Pipes.Server.{InboundServerPipe, drain_frames, arrivals, bad_frame_stays}
use stadhouder.Pipes.Channel.{
  Channel, Reach, here, next, write, drain, dry, drained, wrote, fresh, got_in_order, all_got,
}
use stadhouder.Pipes.Client.{Try, not_yet, try_send, Early, gives_up_late}

-- "hé", of three bytes.
abbrev he : Text
he = 104 ∷ 233 ∷ []

he-Fits : Fits he
unfolding encode encode_char
he-Fits = record { chars = (inl (omega arith), (inl (omega arith), tt)); small = omega arith }

read_frame-write_frame_example :
    (w : Sink) × (write_frame he empty_sink ≡ ok w)
    × (read_frame (w.written ++ 7 ∷ []) ≡ ok (he, 7 ∷ []))
read_frame-write_frame_example = read_frame-write_frame he (7 ∷ []) he-Fits

-- A frame of "hé", and the beginning of the next one.
abbrev arriving : Bytes
arriving = 3 ∷ 0 ∷ 0 ∷ 0 ∷ 104 ∷ 195 ∷ 169 ∷ 5 ∷ 0 ∷ []

arriving-IsByte : All IsByte arriving
arriving-IsByte = (
  omega arith,
  (
    omega arith,
    (
      omega arith,
      (omega arith, (omega arith, (omega arith, (omega arith, (omega arith, (omega arith, tt)))))),
    ),
  ),
)

extract_frames-arriving : extract_frames arriving ≡ (ok (he ∷ []), 5 ∷ 0 ∷ [])
unfolding extract_frames decode
extract_frames-arriving = refl

extract_frames-Sound_example :
    All Fits (he ∷ [])
    × (stream (he ∷ []) ++ 5 ∷ 0 ∷ [] ≡ arriving)
    × (next_frame (5 ∷ 0 ∷ []) ≡ partial)
extract_frames-Sound_example =
    extract_frames-Sound arriving (he ∷ []) (5 ∷ 0 ∷ []) arriving-IsByte extract_frames-arriving

abbrev inbound : Bytes → InboundServerPipe
inbound s = record { path = codes "c2s"; buffer = s }

bad_frame_stays_example :
    drain_frames (arrivals ((3 ∷ []) ∷ [])) (inbound (1 ∷ 0 ∷ 0 ∷ 0 ∷ 255 ∷ []))
    ≡ (err "pipe frame is not UTF-8", inbound (1 ∷ 0 ∷ 0 ∷ 0 ∷ 255 ∷ 3 ∷ []))
unfolding next_frame front_at from_le_bytes decode
bad_frame_stays_example =
    bad_frame_stays (inbound (1 ∷ 0 ∷ 0 ∷ 0 ∷ 255 ∷ [])) ((3 ∷ []) ∷ []) "pipe frame is not UTF-8"
      refl

gives_up_late_example :
    (before : List Try) × (now : ℕ) × (after : List Try) × ((not_yet 10 ∷ not_yet 60 ∷ [])
      ≡ before ++ not_yet now ∷ after)
    × All (Early 50) before
    × (50 ≤ now)
unfolding try_send
gives_up_late_example = gives_up_late 50 he (not_yet 10 ∷ not_yet 60 ∷ []) refl

-- The frame of "hé" in two writes, with a call of the service between them.
abbrev half : Channel
half = drained ((3 ∷ 0 ∷ 0 ∷ []) ∷ []) dry [] (wrote (3 ∷ 0 ∷ 0 ∷ []) (fresh (codes "c2s")))

abbrev whole_frame : Channel
whole_frame = wrote (0 ∷ 104 ∷ 195 ∷ 169 ∷ []) half

half-Reach : Reach (codes "c2s") half
half-Reach =
    next (next here (write _ (3 ∷ 0 ∷ 0 ∷ []))) (drain _ ((3 ∷ 0 ∷ 0 ∷ []) ∷ []) dry [] refl)

got_in_order_example : (rest : List Text) × (half.got ++ rest ≡ he ∷ [])
unfolding frame_bytes encode encode_char
got_in_order_example =
    got_in_order (he ∷ []) (0 ∷ 104 ∷ 195 ∷ 169 ∷ []) half-Reach (he-Fits, tt) refl

all_got_example :
    let d = drained ((0 ∷ []) ∷ (104 ∷ 195 ∷ 169 ∷ []) ∷ []) dry [] whole_frame in
    (d.got ≡ he ∷ []) × (d.server.buffer ≡ [])
unfolding frame_bytes encode encode_char
all_got_example =
    all_got (he ∷ []) ((0 ∷ []) ∷ (104 ∷ 195 ∷ 169 ∷ []) ∷ [])
      (next half-Reach (write half (0 ∷ 104 ∷ 195 ∷ 169 ∷ []))) (he-Fits, tt) refl refl
