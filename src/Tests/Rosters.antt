-- ===== src/Tests/Rosters.antt =====
-- The theorem on the test application's roster, from a start through two rounds.
use stadhouder.Runtime.Scan.{
  scan, scan_now, ids_on_disk, pick_up_all, pick_up, drop_gone, absent_from, install, serve,
  open_pipes,
}
use stadhouder.Runtime.{connection_id_from_filename, is_due, Loop}
use stadhouder.State.{
  connection_profile_paths, is_profile_name, load, write_service_flag, read_service_flag,
}
use stadhouder.Text.{starts_with, ends_with, strip_prefix, strip_suffix, replace}
use stadhouder.Base.{insert, remove, ℕ, refl, none, [], Text, ok, lookup, contains_key, ◌≡◌}
use stadhouder.Pipes.Server.{create_serving_pipes, create_inbound, create_outbound, drain_frames}
use stadhouder.Tests.{put_text, get_text, put_int, get_int, texts, naturals, plain}
use stadhouder.Runtime.Output.{has_events, call_engine, apply_output, close_all, queue_all}
use stadhouder.Runtime.Round.{
  collect, clamp_all, clamp_time, refresh_flag, clamp, leave, rounds, again,
}
use stadhouder.Base.Int.{◌-ℤ◌, wrap_i64, sub_i64, pos}
use stadhouder.Disk.{write, read_to_string, is_denied, exists}
use stadhouder.Runtime.Drain.{drain_all, silent, drop_inactive, messages_of}
use stadhouder.Runtime.Timers.{expire, reschedule}
use stadhouder.Runtime.Polls.{serve_polls}
use stadhouder.Runtime.Start.{another_lives, start, Start, live, deferred, aborted, purge}
use stadhouder.Pipes.Frame.{extract_frames}
use stadhouder.Utf8.{decode}
use stadhouder.Tests.Loops.{disk_of, no_fifos}
use stadhouder.Heartbeat.{is_heartbeat}
use stadhouder.Layout.{Env}
use stadhouder.Tools.TestApp.{TestEngine, test_engine, new_engine}
use stadhouder.Tools.TestApp.Registry.{Known}
use stadhouder.Tools.TestApp.Registry.Rounds.{NoneBack, rounds-Known}
use stadhouder.Tests.Rounds.{two_answers}

no_env : Env
no_env = record { document_root = none; server_name = none; server_port = none; https = none }

abbrev app_of : Start Text ℕ TestEngine → Loop Text ℕ TestEngine
app_of (live l) = l
app_of (aborted m t d) = record {
  connections = [];
  timers = [];
  started_ms = pos 0;
  flag_updated_ms = pos 0;
  last_scan_ms = pos 0;
  memory_pct = 0;
  pending_engine_closes = [];
  engine = t;
  disk = d;
  fifos = no_fifos;
}
app_of (deferred t d) = record {
  connections = [];
  timers = [];
  started_ms = pos 0;
  flag_updated_ms = pos 0;
  last_scan_ms = pos 0;
  memory_pct = 0;
  pending_engine_closes = [];
  engine = t;
  disk = d;
  fifos = no_fifos;
}

abbrev app_loop : Loop Text ℕ TestEngine
app_loop = app_of (
    start naturals plain none (test_engine texts (λ z. []) no_env) (ok (pos 1000)) none
      (new_engine (disk_of [])) (disk_of []) no_fifos)

app_lives :
    start naturals plain none
      (test_engine texts (λ z. []) no_env)
      (ok (pos 1000))
      none
      (new_engine (disk_of []))
      (disk_of [])
      no_fifos
    ≡ live app_loop
unfolding start read_service_flag exists contains_key another_lives write_service_flag write put_int
    is_denied insert purge connection_profile_paths is_profile_name
app_lives = refl

app_goes_on :
    (rounds texts naturals plain none (test_engine texts (λ z. []) no_env) two_answers app_loop).0
    ≡ again
unfolding rounds start read_service_flag exists contains_key another_lives write_service_flag write
    refresh_flag is_due sub_i64 wrap_i64 ◌-ℤ◌ clamp clamp_time clamp_all leave call_engine collect
    scan scan_now ids_on_disk pick_up_all pick_up drop_gone absent_from connection_id_from_filename
    connection_profile_paths is_profile_name starts_with ends_with strip_prefix strip_suffix replace
    insert lookup remove install serve open_pipes create_serving_pipes create_inbound
    create_outbound load read_to_string put_text get_text put_int get_int is_denied drain_all silent
    drop_inactive expire has_events apply_output serve_polls purge close_all queue_all drain_frames
    extract_frames decode test_engine new_engine messages_of is_heartbeat reschedule
app_goes_on = refl

none_back : NoneBack texts naturals plain none (λ z. []) no_env two_answers app_loop
unfolding rounds start read_service_flag exists contains_key another_lives write_service_flag write
    refresh_flag is_due sub_i64 wrap_i64 ◌-ℤ◌ clamp clamp_time clamp_all leave call_engine collect
    scan scan_now ids_on_disk pick_up_all pick_up drop_gone absent_from connection_id_from_filename
    connection_profile_paths is_profile_name starts_with ends_with strip_prefix strip_suffix replace
    insert lookup remove install serve open_pipes create_serving_pipes create_inbound
    create_outbound load read_to_string put_text get_text put_int get_int is_denied drain_all silent
    drop_inactive expire has_events apply_output serve_polls purge close_all queue_all drain_frames
    extract_frames decode test_engine new_engine messages_of is_heartbeat
none_back = (pos 1000, refl, λ id. refl, (pos 2000, refl, λ id. refl, tt))

rounds-Known_example :
    Known
      (rounds texts naturals plain none (test_engine texts (λ z. []) no_env) two_answers app_loop).1
unfolding new_engine
rounds-Known_example =
    rounds-Known texts naturals plain none (λ z. []) no_env two_answers (ok (pos 1000)) none
      (new_engine (disk_of [])) (disk_of []) no_fifos app_loop refl app_lives none_back app_goes_on
