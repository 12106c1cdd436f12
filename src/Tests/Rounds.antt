-- ===== src/Tests/Rounds.antt =====
-- A service that a client joins, with an engine that keeps a roster.
use stadhouder.Runtime.Scan.{
  scan, scan_now, ids_on_disk, pick_up_all, pick_up, drop_gone, absent_from, install, serve,
  open_pipes,
}
use stadhouder.Runtime.{connection_id_from_filename, is_due, Loop, memory_pct}
use stadhouder.State.{
  connection_profile_paths, is_profile_name, load, write_service_flag, ConnectionProfile,
  read_service_flag,
}
use stadhouder.Text.{
  trim, trim_start, is_whitespace, starts_with, ends_with, strip_prefix, strip_suffix, replace,
}
use stadhouder.Base.{
  false, arith, insert, remove, ℕ, refl, true, Bool, none, List, [], ◌∷◌, Text, codes, ok, lookup,
  contains_key, Result, ◌≡◌,
}
use stadhouder.Pipes.Server.{create_serving_pipes, create_inbound, create_outbound, drain_frames}
use stadhouder.Tests.{
  trim, flag_text, put_text, get_text, profile_text, put_int, get_int, texts, naturals, plain,
  ok_eq,
}
use stadhouder.Runtime.Output.{has_events, call_engine, apply_output, close_all, queue_all}
use stadhouder.Runtime.Round.{
  round, collect, clamp_all, clamp_time, refresh_flag, Os, clamp, leave, rounds, round, again,
}
use stadhouder.Base.Int.{◌-ℤ◌, wrap_i64, sub_i64, ℤ, pos, IsTime}
use stadhouder.Disk.{write, read_to_string, Disk, is_denied, exists}
use stadhouder.Runtime.Drain.{drain_all, silent, drop_inactive}
use stadhouder.Runtime.Timers.{expire}
use stadhouder.Runtime.Polls.{serve_polls}
use stadhouder.Runtime.Start.{another_lives, start, Start, live, deferred, aborted, purge}
use stadhouder.Runtime.Registry.{Agrees}
use stadhouder.Runtime.Roster.{rounds-Agrees}
use stadhouder.Runtime.Flag.{KeepsFlag-refl}
use stadhouder.Runtime.Flag.Singleton.{set_back_doubles}
use stadhouder.Runtime.Round.Recent.Rounds.{Recent}
use mathlib.Core.Path.{subst}
use stadhouder.Pipes.Frame.{extract_frames}
use stadhouder.Utf8.{decode}
use stadhouder.Tests.Loops.{
  rosters, disk_of, no_fifos, loop_of, some_reads, all_wait, rosters-KeepsRoster,
}

abbrev pub first_loop : Start Text ℕ (Text → Bool) → Loop Text ℕ (Text → Bool)
first_loop (live l) = l
first_loop (aborted m t d) = loop_of [] (pos 0) d
first_loop (deferred t d) = loop_of [] (pos 0) d

abbrev started : Start Text ℕ (Text → Bool)
started = start naturals plain none rosters (ok (pos 1000)) none (λ id. true) (disk_of []) no_fifos

abbrev pub x_profile : ConnectionProfile
x_profile = record {
  connection_id = codes "x";
  user_id = codes "u";
  client_to_server_pipe = codes "c2s_x";
  server_to_client_pipe = codes "s2c_x";
  established_ms = pos 1;
  established_sim_ms = none;
}

-- A client comes.
abbrev pub arrival : Disk → Disk
arrival d = record d { files = (codes "connection_x.json", profile_text x_profile) ∷ d.files }

abbrev pub answer_of : (Disk → Disk) → ℤ → Os
answer_of others now = record {
  others = others;
  now = ok now;
  memory = none;
  reads = some_reads;
  pollers = all_wait;
  pause = ok tt;
}

-- The client comes in the first round, the engine closes its connection at once, and is told so in the
-- second.
abbrev pub two_answers : List Os
two_answers = answer_of arrival (pos 1000) ∷ answer_of (λ d. d) (pos 2000) ∷ []

first_lives :
    start naturals plain none rosters (ok (pos 1000)) none (λ id. true) (disk_of []) no_fifos
    ≡ live (first_loop started)
unfolding start read_service_flag exists contains_key another_lives write_service_flag write put_int
    is_denied insert purge connection_profile_paths is_profile_name
first_lives = refl

goes_on : (rounds texts naturals plain none rosters two_answers (first_loop started)).0 ≡ again
unfolding rounds start read_service_flag exists contains_key another_lives write_service_flag write
    refresh_flag is_due sub_i64 wrap_i64 ◌-ℤ◌ clamp clamp_time clamp_all leave call_engine collect
    scan scan_now ids_on_disk pick_up_all pick_up drop_gone absent_from connection_id_from_filename
    connection_profile_paths is_profile_name starts_with ends_with strip_prefix strip_suffix replace
    insert lookup remove install serve open_pipes create_serving_pipes create_inbound
    create_outbound load read_to_string put_text get_text put_int get_int is_denied drain_all silent
    drop_inactive expire has_events apply_output serve_polls purge close_all queue_all drain_frames
    extract_frames decode
goes_on = refl

rounds-Agrees_example :
    let l = (rounds texts naturals plain none rosters two_answers (first_loop started)).1 in
    Agrees l.engine l
rounds-Agrees_example =
    rounds-Agrees rosters (λ t. t) rosters-KeepsRoster texts naturals plain none two_answers
      (ok (pos 1000)) none (λ id. true) (disk_of []) no_fifos (first_loop started) first_lives
      goes_on

pub timely_at : (z : ℤ) → IsTime z → (t : ℤ) → ◌≡◌ {A = Result ℤ} (ok z) (ok t) → IsTime t
timely_at z h t e = subst IsTime (ok_eq e) h

abbrev pub second_time : IsTime (pos 2000)
second_time = record { low = omega arith; high = omega arith }

abbrev pub first_time : IsTime (pos 1000)
first_time = record { low = omega arith; high = omega arith }

-- A loop without connections whose flag says 9000.
abbrev ahead : Loop Text ℕ (Text → Bool)
ahead = loop_of [] (pos 9000) (
    disk_of
      ((codes "service_flag", flag_text (record { updated_ms = pos 9000; memory_pct = 3 })) ∷ []))

set_back_doubles_example :
    let l = (round texts naturals plain none rosters (answer_of (λ d. d) (pos 1000)) ahead).2 in
    (other : Loop Text ℕ (Text → Bool)) × (start naturals plain none rosters
        (ok (pos 2000))
        none
        (λ id. false)
        l.disk
        no_fifos
      ≡ live other)
unfolding round read_service_flag exists contains_key read_to_string lookup trim trim_start
    is_whitespace put_int get_int write_service_flag is_denied refresh_flag is_due sub_i64 wrap_i64
    ◌-ℤ◌ clamp clamp_time clamp_all leave call_engine collect scan drain_all silent drop_inactive
    expire has_events serve_polls scan_now pick_up_all ids_on_disk connection_profile_paths
    drop_gone memory_pct
set_back_doubles_example =
    set_back_doubles texts naturals plain none rosters rosters (λ id. false) (pos 1000) (pos 2000)
      none no_fifos (flag_text (record { updated_ms = pos 2000; memory_pct = 0 }))
      (answer_of (λ d. d) (pos 1000)) ahead (3, refl)
      (record { low = omega arith; high = omega arith }) first_time (omega arith)
      (KeepsFlag-refl ahead.disk) refl refl second_time (omega arith) refl refl
