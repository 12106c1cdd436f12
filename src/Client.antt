-- ===== src/Client.antt =====
-- rust/backend/api/src/bin/client.rs: the CGI program that answers one request of a client.
pub mod Connect
pub mod PickedUp
pub mod Closed
pub mod Poll
pub mod Request
use stadhouder.Base.{
  ℕ, ◌+◌, Bool, true, false, not, Option, none, some, List, [], ◌∷◌, Text, codes, is_empty,
  if◌then◌else◌, leb, Result, ok, err, or_fail, ◌>>=◌, ◌>>◌,
}
use stadhouder.Base.Int.{ℤ, pos_part}
use stadhouder.Utf8.{Bytes}
use stadhouder.Json.{Json}
use stadhouder.Float.{Float}
use stadhouder.Disk
use stadhouder.Disk.{Disk}
use stadhouder.Layout.{Env, stadhouder_dir}
use stadhouder.Config
use stadhouder.Config.{Config}
use stadhouder.Clock.{now_millis, wait_factor, scale_wait_ms}
use stadhouder.Cookie.{has_cookie}
use stadhouder.Identity.{verify_user}
use stadhouder.Request.{same_host_url}
use stadhouder.Heartbeat.{message}
use stadhouder.State
use stadhouder.State.{
  Serde, ServiceFlag, ConnectionProfile, state_dir, read_service_flag, delete_connection_profile,
  profile_name, save,
}
use stadhouder.Pipes.Frame.{Sink}
use stadhouder.Pipes.Server.{PipeNames, pipe_names_for}
use stadhouder.Pipes.Client.{Try, Wait, client_send, client_receive}

-- What the process has from its surroundings: the environment, the request's Cookie header, what reading
-- the configuration's file answers, the calendar, a fresh UUID, and the HTTP request of the ureq library.
pub record Surroundings : Type 0 where
  pub env : Env
  pub cookie_header : Option Text
  pub config_file : Option (Result Text)
  pub calendar_ms : ℤ
  pub uuid : Text
  pub fetch : Text → Option Text → Result Text

module _ {F : Type 0} (s : Serde F) where
  unfoldable pub profile_for : Env → Text → Disk → Result ConnectionProfile
  profile_for env connection_id d = do
    dir ← state_dir env
    if Disk.exists (profile_name connection_id) d
        then State.load s (profile_name connection_id) d
        else err "unknown connection"

-- `connect`: the service's memory.
module _ {F : Type 0} (f : Float F) where
  unfoldable pub check_memory : Config F → Option (ServiceFlag F) → Result (Unit {0})
  check_memory config none = ok tt
  check_memory config (some flag) =
      if f.geb flag.memory_pct config.memory_reject_pct
      then err "service memory limit exceeded"
      else ok tt

-- `connect`: the cookie.
unfoldable pub check_cookie : Option Text → Option Text → Result (Unit {0})
check_cookie none cookie_header = ok tt
check_cookie (some name) cookie_header =
    if has_cookie cookie_header name then ok tt else err "missing required cookie"

signed_in : Option Text → Result Text
signed_in none = err "not signed in"
signed_in (some verified) = ok verified

module _ {V F : Type 0} (j : Json V) where
  -- `connect`: the user's id, verified where the configuration says how.
  unfoldable pub user_of : Config F → Surroundings → Option Text → Text → Result Text
  unfolding signed_in
  user_of config w none user_id = ok user_id
  user_of config w (some user_id_url) user_id = do
    field_path ← or_fail config.user_id_json "USER_ID_URL is configured but USER_ID_JSON is not"
    url ← same_host_url w.env user_id_url
    verified ← verify_user j w.fetch url w.cookie_header field_path
    signed_in verified

module _ {V F : Type 0} (j : Json V) (f : Float F) (s : Serde F) where
  -- All that must hold before a connection is made; the user's id.
  unfoldable pub admit : Config F → Surroundings → Text → Disk → Result Text
  unfolding check_memory check_cookie user_of
  admit config w user_id d = do
    dir ← state_dir w.env
    flag ← read_service_flag s d
    check_memory f config flag
    check_cookie config.cookie_name w.cookie_header
    user_of j config w config.user_id_url user_id

  established_sim : Config F → Surroundings → Disk → Result (Option ℤ)
  established_sim config w d =
      if config.test_env
      then (do now ← now_millis f config w.env d w.calendar_ms; ok (some now))
      else ok none

  -- The profile of the new connection.
  unfoldable pub new_profile : Surroundings → Text → Disk → Result ConnectionProfile
  unfolding admit established_sim
  new_profile w user_id d = do
    config ← Config.load f w.config_file
    user ← admit config w user_id d
    dir ← stadhouder_dir w.env
    sim ← established_sim config w d
    let names = pipe_names_for dir w.uuid
    ok (record {
      connection_id = w.uuid;
      user_id = user;
      client_to_server_pipe = names.client_to_server;
      server_to_client_pipe = names.server_to_client;
      established_ms = w.calendar_ms;
      established_sim_ms = sim;
    })

  written : Surroundings → Result ConnectionProfile → Disk → Result V × Disk
  written w (err m) d = (err m, d)
  written w (ok p) d =
      let (r, d₁, d₂) = save s p d in
      (do r; ok (j.object ((codes "connection_id", j.string w.uuid) ∷ [])), d₂)

  unfoldable pub connect : Surroundings → Text → Disk → Result V × Disk
  unfolding written
  connect w user_id d = written w (new_profile w user_id d) d

module _ {V : Type 0} (j : Json V) where
  closed : Result Bool × Disk → Result V × Disk
  closed (err m, d) = (err m, d)
  closed (ok false, d) = (err "unknown connection", d)
  closed (ok true, d) = (ok (j.object ((codes "closed", j.bool true) ∷ [])), d)

  unfoldable pub close : Env → Text → Disk → Result V × Disk
  unfolding closed
  close env connection_id d = elim (state_dir env) [
    | err m ↦ (err m, d)
    | ok dir ↦ closed (delete_connection_profile connection_id d)
  ]

-- One `client_receive` of a poll: when it starts, what it meets, and when it is over.
pub record Episode : Type 0 where
  pub start : ℕ
  pub waits : List Wait
  pub over : ℕ

module _ {V F : Type 0} (j : Json V) (f : Float F) where
  -- What was written into the service's pipe, with the reply.
  replied : V → Option (Result Sink) → Option (Result (V × Bytes))
  replied reply none = none
  replied reply (some (err m)) = some (err m)
  replied reply (some (ok w)) = some (ok (reply, w.written))

  -- `send`, with the profile and the factor that were read before.
  unfoldable pub send : ConnectionProfile → F → V → ℕ → List Try → Option (Result (V × Bytes))
  unfolding replied
  send profile factor m start tries =
      replied (j.object ((codes "sent", j.bool true) ∷ []))
        (client_send f (j.to_string m) factor start tries)

  has_content : Option (List V) → Bool
  has_content none = false
  has_content (some a) = not (is_empty a)

  -- One pass of the poll's loop, behind the frame that it received.
  parsed : ℕ → ℕ → Option V → Option (Result V) → Option (Result V)
  parsed deadline over none later = some (err "service reply is not JSON")
  parsed deadline over (some v) later =
      if has_content (j.as_array v)
      then some (ok v)
      else if leb deadline over
      then some (ok (j.array []))
      else later

  -- The poll's loop; `none` while it goes on.
  unfoldable pub receive_until : F → ℕ → List Episode → Option (Result V)
  unfolding parsed has_content
  receive_until factor deadline [] = none
  receive_until factor deadline (e ∷ es) =
      let later = receive_until factor deadline es in
      elim (client_receive f factor e.start e.waits) [
        | none ↦ none
        | some (err m) ↦ some (err m)
        | some (ok frame) ↦ parsed deadline e.over (j.from_str frame) later
      ]

  -- Where no message has come, a heartbeat is sent before the reply.
  answer : F → ℕ → List Try → Option (Result V) → Option (Result (V × Bytes))
  answer factor start tries none = none
  answer factor start tries (some (err m)) = some (err m)
  answer factor start tries (some (ok messages)) =
      let reply = j.object ((codes "messages", messages) ∷ []) in
      if has_content (j.as_array messages)
      then some (ok (reply, []))
      else replied reply (client_send f (j.to_string (message j)) factor start tries)

  -- `poll`, with the factor that was read before: it starts at `start`, and its heartbeat at `late`.
  unfoldable pub poll : F → ℤ → ℕ → List Episode → ℕ → List Try → Option (Result (V × Bytes))
  unfolding receive_until answer replied
  poll factor wait_ms start episodes late tries =
      answer factor late tries
        (receive_until factor (start + scale_wait_ms f (pos_part wait_ms) factor) episodes)
