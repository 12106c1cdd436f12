-- ===== src/Tests/Windows.antt =====
-- The theorems on the Windows pipes at concrete episodes.
use stadhouder.Base.{◌≡◌, refl, inl, true, false, none, some, [], ◌∷◌, arith, ok}
use stadhouder.Utf8.{encode, encode_char}
use stadhouder.Pipes.Frame.Laws.{Fits, frame_bytes, empty_sink}
use stadhouder.Pipes.Windows.{Instance, error_no_data, waiting_bytes, check_connected}
use stadhouder.Pipes.Windows.Inbound.{InboundServerPipe, drain_frames, episode, recovers}
use stadhouder.Pipes.Windows.Outbound.{Calls, Sound, try_serve_poll, try_serve_poll-Sound}

abbrev listening : Instance
listening = record { blocking = false; connected = false }

abbrev a_Fits : Fits (97 ∷ [])
unfolding encode encode_char
a_Fits = record { chars = (inl (omega arith), tt); small = omega arith }

abbrev empty_pipe : InboundServerPipe
empty_pipe = record { instance_ = listening; buffer = [] }

-- Half a length, and then another client's whole message in two pieces.
recovers_example :
    (drain_frames none
      (episode ((1, 0 ∷ 0 ∷ []) ∷ (0, 97 ∷ []) ∷ []))
      (drain_frames (some error_no_data) (episode ((9, 9 ∷ []) ∷ [])) empty_pipe).1).0
    ≡ ok ((97 ∷ []) ∷ [])
unfolding check_connected frame_bytes encode drain_frames
recovers_example =
    recovers (some error_no_data) none ((9, 9 ∷ []) ∷ []) ((1, 0 ∷ 0 ∷ []) ∷ (0, 97 ∷ []) ∷ [])
      empty_pipe ((97 ∷ []) ∷ []) refl refl (a_Fits, tt) refl

-- The write and the flush block for a second in all, and both switches are granted.
abbrev granted : Calls
granted = record { to_wait = true; to_nowait = true; writing = 300; flushing = 700 }

try_serve_poll-Sound_example : Sound granted (
    try_serve_poll granted none
      (waiting_bytes 0)
      empty_sink
      (97 ∷ [])
      (waiting_bytes 0 ∷ [])
      (record { instance_ = listening }))
try_serve_poll-Sound_example =
    try_serve_poll-Sound granted none (waiting_bytes 0) empty_sink (97 ∷ []) (waiting_bytes 0 ∷ [])
      (record { instance_ = listening }) refl
