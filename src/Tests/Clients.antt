-- ===== src/Tests/Clients.antt =====
-- The theorems on the client program at concrete requests.
use mathlib.Core.Path.{subst}
use stadhouder.Tests.{
  ok_eq, get_text, put_text, get_int, put_int, array_of, arrays, arrays-ReadsBack,
  as_array-array_of, texts, naturals, plain-RoundTrips, plain,
}
use stadhouder.Disk.{read_to_string, exists, write, rename, Disk, is_denied, remove_file}
use stadhouder.Layout.{underscore_uuid, stadhouder_dir, Env}
use stadhouder.Text.{replace, ends_with, lines, trim, starts_with, split_once}
use stadhouder.State.{
  connection_profile_paths, is_profile_name, load, state_dir, tmp_name, ConnectionProfile,
  ServiceFlag, profile_name, read_service_flag, save, delete_connection_profile,
}
use stadhouder.Runtime.{is_due, Loop}
use stadhouder.Base.{
  ℕ, ◌≡◌, refl, Bool, true, false, Option, none, some, List, [], ◌∷◌, arith, Text, codes, ok, err,
  lookup, contains_key, insert, remove, holds,
}
use stadhouder.Base.Int.{pos, ◌-ℤ◌, wrap_i64, sub_i64}
use stadhouder.Pipes.Server.{pipe_names_for, arrivals, absent}
use stadhouder.Client.Closed.{close-reported}
use stadhouder.Client.{close, new_profile, admit, Surroundings, Episode, connect, receive_until}
use stadhouder.Service.{client_disconnected}
use stadhouder.Runtime.Output.{has_events}
use stadhouder.Runtime.Registry.Keep.{closed_for}
use stadhouder.Runtime.Round.{Os, collect}
use mathlib.Core.List.{Mem}
use stadhouder.Tests.Loops.{connection, loop_of, no_fifos}
use stadhouder.Client.PickedUp.{connect-picked_up}
use stadhouder.Runtime.Scan.{scan}
use stadhouder.Runtime.Scan.Found.{CanOpen}
use stadhouder.Runtime.Registry.Steps.{new_ids}
use stadhouder.Json.{Json}
use stadhouder.Cookie.{has_cookie}
use stadhouder.Config
use stadhouder.Config.{Config, read_limit}
use stadhouder.Pipes.Client.{there, client_receive}
use stadhouder.Pipes.Frame.{read_frame}
use stadhouder.Utf8.{encode, decode}
use stadhouder.Pipes.Frame.Laws.{frame_bytes}
use stadhouder.Client.Connect.{connect_guards, MemoryFits, HasCookie, IsUser}
use stadhouder.Client.Poll.{ReadsArrays, poll_first_messages, poll_ends}

abbrev site : Env
site = record {
  document_root = some (codes "/home/site");
  server_name = some (codes "host");
  server_port = some (codes "80");
  https = none;
}

-- A configuration that names a cookie.
abbrev around : Option Text → Surroundings
around cookie_header = record {
  env = site;
  cookie_header = cookie_header;
  config_file = some (ok (codes "COOKIE_NAME=sid"));
  calendar_ms = pos 7;
  uuid = codes "a-b";
  fetch = λ url cookies. err "no such host";
}

abbrev no_files : Disk
no_files = record { files = []; denied = [] }

connect_guards_example :
    (config : Config ℕ) × (flag : Option (ServiceFlag ℕ)) × (p : ConnectionProfile) × (Config.load
        naturals
        (some (ok (codes "COOKIE_NAME=sid")))
      ≡ ok config)
    × (read_service_flag plain no_files ≡ ok flag)
    × MemoryFits texts naturals config flag
    × HasCookie texts naturals config.cookie_name (some (codes "sid=1"))
    × IsUser texts naturals config
        (around (some (codes "sid=1")))
        config.user_id_url
        (codes "u")
        p.user_id
    × (p.connection_id ≡ codes "a-b")
    × ((save plain p no_files).0 ≡ ok tt)
    × ((connect texts naturals plain (around (some (codes "sid=1"))) (codes "u") no_files).1
        ≡ (save plain p no_files).2)
unfolding connect new_profile Config.load lookup lines trim starts_with split_once insert admit
    state_dir stadhouder_dir read_service_flag exists contains_key has_cookie save write rename
    tmp_name profile_name remove
connect_guards_example =
    connect_guards texts naturals plain (around (some (codes "sid=1"))) (codes "u") no_files
      (connect texts naturals plain (around (some (codes "sid=1"))) (codes "u") no_files).1
      (codes "connection_id") refl

abbrev site_config : Config ℕ
site_config = record {
  test_env = false;
  cookie_name = some (codes "sid");
  user_id_url = none;
  user_id_json = none;
  memory_limit_bytes = none;
  memory_reject_pct = 100;
}

abbrev one_file : Disk
one_file = record { files = (codes "connection_a_b.json", []) ∷ []; denied = [] }

arrays-ReadsArrays : ReadsArrays arrays
arrays-ReadsArrays = record { as_array-array = as_array-array_of }

-- The service answers with the messages after `over` ms.
abbrev answered_with : List Text → ℕ → Episode
answered_with vs over = record {
  start = 0;
  waits = there (some (frame_bytes (Json.array arrays vs))) ∷ [];
  over = over;
}

poll_first_messages_example :
    receive_until arrays naturals 1 50
      (answered_with [] 10 ∷ answered_with (codes "m" ∷ []) 20 ∷ [])
    ≡ some (ok (Json.array arrays (codes "m" ∷ [])))
unfolding client_receive frame_bytes read_frame encode array_of decode
poll_first_messages_example =
    poll_first_messages arrays naturals 1 50 (answered_with [] 10 ∷ [])
      (answered_with (codes "m" ∷ []) 20) [] (codes "m") [] arrays-ReadsBack arrays-ReadsArrays
      ((refl, omega arith), tt) refl

poll_ends_example :
    receive_until arrays naturals 1 50 (answered_with [] 10 ∷ answered_with [] 60 ∷ [])
    ≡ some (ok (Json.array arrays []))
unfolding client_receive frame_bytes read_frame encode array_of decode
poll_ends_example =
    poll_ends arrays naturals 1 50 (answered_with [] 10 ∷ []) (answered_with [] 60) []
      arrays-ReadsBack arrays-ReadsArrays ((refl, omega arith), tt) refl (omega arith)

abbrev connected : Disk
connected = (connect texts naturals plain (around (some (codes "sid=1"))) (codes "u") no_files).1

abbrev idle_loop : Loop Text ℕ (Text → Bool)
idle_loop = loop_of [] (pos 0) connected

opens_all :
    (p : ConnectionProfile)
    → load plain (profile_name (codes "a-b")) connected ≡ ok p
    → CanOpen p no_fifos
unfolding connect new_profile Config.load lookup lines trim starts_with split_once insert admit
    is_denied state_dir stadhouder_dir read_service_flag exists contains_key has_cookie save write
    rename tmp_name load read_to_string profile_name remove underscore_uuid replace get_text
    put_text get_int put_int pipe_names_for
opens_all p e =
    subst (λ x. CanOpen x no_fifos) (ok_eq e) (record { differ = refl; up = refl; down = refl })

connect-picked_up_example :
    (holds (new_ids (scan plain (pos 4000) idle_loop).0) (codes "a-b") ≡ true)
    × (contains_key (codes "a-b") (scan plain (pos 4000) idle_loop).2.connections ≡ true)
unfolding connect new_profile Config.load lookup lines trim starts_with split_once insert admit
    is_denied state_dir stadhouder_dir read_service_flag exists contains_key has_cookie save write
    rename tmp_name connection_profile_paths is_profile_name ends_with is_due sub_i64 wrap_i64 ◌-ℤ◌
    remove profile_name underscore_uuid replace
connect-picked_up_example =
    connect-picked_up texts naturals plain (around (some (codes "sid=1"))) (codes "u") no_files
      (codes "connection_id") (pos 4000) idle_loop plain-RoundTrips (refl, (refl, (refl, tt))) refl
      refl refl ((λ e. refl), tt) opens_all refl refl

-- The profile that the client of "a-b" closes, and the service that has its connection.
abbrev open_files : Disk
open_files = record { files = (codes "connection_a_b.json", []) ∷ []; denied = [] }

abbrev busy : Loop Text ℕ (Text → Bool)
busy =
    loop_of ((codes "a-b", connection [] (pos 3000)) ∷ []) (pos 0)
      (close texts (around none).env (codes "a-b") open_files).1

abbrev quiet : Os
quiet = record {
  others = λ d. d;
  now = ok (pos 4000);
  memory = none;
  reads = λ id. arrivals [];
  pollers = λ id. absent;
  pause = ok tt;
}

close-reported_example :
    let (b, l') = collect texts plain (pos 4000) quiet busy in
    Mem (closed_for client_disconnected (codes "a-b")) b.closed_connections
    × (contains_key (codes "a-b") l'.connections ≡ false)
    × (has_events b ≡ true)
unfolding close state_dir stadhouder_dir is_denied contains_key remove profile_name underscore_uuid
    replace connection_profile_paths is_profile_name starts_with ends_with is_due sub_i64 wrap_i64
    ◌-ℤ◌ delete_connection_profile remove_file
close-reported_example =
    close-reported texts plain (around none).env (codes "a-b") open_files (codes "closed")
      (pos 4000) quiet busy refl refl tt refl refl
