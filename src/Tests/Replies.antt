-- ===== src/Tests/Replies.antt =====
-- A client that writes "hi" and waits, with an engine that sends each message back.
use mathlib.Core.List.{append-nil}
use stadhouder.Base.{
  ℕ, ◌≡◌, refl, true, false, Bool, none, some, [], ◌∷◌, map, arith, Text, codes, ok, lookup, insert,
  contains_key,
}
use stadhouder.Base.Int.{pos, sub_i64, wrap_i64, ◌-ℤ◌}
use stadhouder.Utf8.{Bytes, encode, encode_char, decode}
use stadhouder.Json.{Json}
use stadhouder.Pipes.Frame.{read_frame, extract_frames}
use stadhouder.Pipes.Frame.Laws.{Fits, frame_bytes}
use stadhouder.Pipes.Stream.{stream}
use stadhouder.Pipes.Server.{arrivals, drain_frames}
use stadhouder.Service.{Engine, EngineOutput}
use stadhouder.Runtime.{Loop, is_due, connection_id_from_filename}
use stadhouder.Runtime.Drain.Messages.{from_client}
use stadhouder.Runtime.Round.{
  Os, round, again, refresh_flag, clamp, clamp_all, clamp_time, leave, collect,
}
use stadhouder.Runtime.Output.{has_events, call_engine, apply_output, close_all, queue_all}
use stadhouder.Runtime.Scan.{scan, ids_on_disk}
use stadhouder.Runtime.Drain.{messages_of, drain_all, silent, drop_inactive}
use stadhouder.Runtime.Timers.{expire}
use stadhouder.Runtime.Polls.{serve_polls}
use stadhouder.State.{connection_profile_paths, is_profile_name}
use stadhouder.Text.{starts_with, ends_with, strip_prefix, strip_suffix, replace}
use stadhouder.Heartbeat.{is_heartbeat}
use stadhouder.Runtime.Round.Reply.{own}
use stadhouder.Runtime.Round.Reply.Served.{told, round-poll_value}
use stadhouder.Tests.{texts, texts-ReadsBack, naturals, plain}
use stadhouder.Tests.Loops.{
  loop_of, xs_one, served, connection, hi, short-Fits, ascii-IsChar, small_time, all_wait,
}

abbrev echoing : Engine Text ℕ (Text → Bool)
echoing = record {
  init = λ now t. t;
  process_messages = λ b t. (
    record {
      close_connections = [];
      messages =
          map (λ m. record { connection_id = m.connection_id; message = m.message }) b.messages;
      timers = [];
      cancel_timers = [];
      shutdown = false;
    },
    t,
  );
  shutdown = λ now t. t;
}

abbrev speaks : Os
speaks = record {
  others = λ d. d;
  now = ok (pos 500);
  memory = none;
  reads = λ id. arrivals (stream (hi ∷ []) ∷ []);
  pollers = all_wait;
  pause = ok tt;
}

-- "m,hi"
abbrev answer : Text
answer = 109 ∷ 44 ∷ hi

answer-Fits : Fits answer
unfolding encode encode_char
answer-Fits = record { chars = ascii-IsChar answer refl; small = omega arith }

abbrev before : Loop Text ℕ (Text → Bool)
before = loop_of xs_one (pos 0) served

abbrev echoed : EngineOutput Text
echoed = record {
  close_connections = [];
  messages = record { connection_id = codes "x"; message = hi } ∷ [];
  timers = [];
  cancel_timers = [];
  shutdown = false;
}

goes_on : (round texts naturals plain none echoing speaks before).0 ≡ again
unfolding round refresh_flag is_due sub_i64 wrap_i64 ◌-ℤ◌ clamp clamp_all clamp_time leave
    call_engine collect scan drop_inactive silent drain_all messages_of drain_frames extract_frames
    decode expire has_events apply_output queue_all close_all serve_polls encode encode_char
    frame_bytes is_heartbeat lookup insert
goes_on = refl

says_back :
    echoed
    ≡ (echoing.process_messages
        (told texts naturals plain none echoing (pos 500) speaks before)
        before.engine).0
unfolding refresh_flag is_due sub_i64 wrap_i64 ◌-ℤ◌ clamp clamp_all clamp_time collect scan
    drop_inactive silent drain_all messages_of drain_frames extract_frames decode expire encode
    encode_char frame_bytes is_heartbeat lookup
says_back = refl

held : contains_key (codes "x") (ids_on_disk (connection_profile_paths served)) ≡ true
unfolding contains_key ids_on_disk connection_profile_paths is_profile_name starts_with ends_with
    connection_id_from_filename strip_prefix strip_suffix replace insert
held = refl

round-poll_value_example :
    (own (codes "x") (told texts naturals plain none echoing (pos 500) speaks before).messages
      ≡ from_client texts (codes "x") hi ∷ [])
    × (b : Bytes) × (lookup (codes "x") (round texts naturals plain none echoing speaks before).1
        ≡ some b)
    × (read_frame b ≡ ok (answer, []))
    × (Json.from_str texts answer ≡ some answer)
unfolding is_heartbeat lookup contains_key
round-poll_value_example =
    round-poll_value texts naturals plain none echoing (pos 500) speaks before (codes "x")
      (connection (codes "m" ∷ []) (pos 0)) hi [] (stream (hi ∷ []) ∷ []) echoed texts-ReadsBack
      (small_time 500 (omega arith)) ((refl, tt), (small_time 0 (omega arith), tt)) refl goes_on
      refl held (short-Fits.0, tt) refl refl refl (append-nil (stream (hi ∷ []))) says_back refl
      refl answer-Fits
