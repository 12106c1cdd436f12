-- ===== src/Client/Request.antt =====
-- The requests of client.rs and how each is answered.
use stadhouder.Base.{
  Bool, ℕ, Option, none, some, List, [], ◌∷◌, Text, codes, if◌then◌else◌, is_some, Result, ok, err,
  or_fail, ◌>>=◌,
}
use stadhouder.Base.Int.{ℤ}
use stadhouder.Utf8.{Bytes, decode}
use stadhouder.Json.{Json}
use stadhouder.Handler.{Handled, returned, refused, new, HttpResponse, json_handler}
use stadhouder.Float.{Float}
use stadhouder.Disk.{Disk}
use stadhouder.Layout.{Env}
use stadhouder.Config
use stadhouder.Config.{Config}
use stadhouder.Clock.{now_millis, wait_factor}
use stadhouder.State.{
  Serde, ServiceFlag, ConnectionProfile, state_dir, read_service_flag, last_run_ms,
}
use stadhouder.Pipes.Client.{Try}
use stadhouder.Client.{Surroundings, Episode, profile_for, connect, close, send, poll}

pub data ClientRequest (V : Type 0) : Type 0 where
  status : ClientRequest V
  connect_as : Text → ClientRequest V
  send_to : Text → V → ClientRequest V
  poll_for : Text → ℤ → ClientRequest V
  close_of : Text → ClientRequest V

-- What the pipes answer while the request is served, in real time.
pub record Answers : Type 0 where
  pub start : ℕ
  pub episodes : List Episode
  pub late : ℕ
  pub tries : List Try

-- What serde makes of a request, what serde_json makes of a number that is a fraction, and the version of
-- the program.
pub record Requests (V F : Type 0) : Type 0 where
  pub request_from_str : Text → Result (ClientRequest V)
  pub fraction : F → V
  pub version : Text

module _ {V F : Type 0} (j : Json V) (f : Float F) (s : Serde F) (q : Requests V F) where
  pct_of : Option (ServiceFlag F) → V
  pct_of none = j.null
  pct_of (some flag) = q.fraction flag.memory_pct

  run_of : Option ℤ → V
  run_of none = j.null
  run_of (some ms) = j.int ms

  service_memory : Config F → Env → Disk → Result V
  service_memory config env d =
      if is_some config.memory_limit_bytes
      then (do dir ← state_dir env; flag ← read_service_flag s d; ok (pct_of flag))
      else ok j.null

  unfoldable pub status_of : Surroundings → Disk → Result V
  unfolding pct_of run_of service_memory
  status_of w d = do
    config ← Config.load f w.config_file
    pct ← service_memory config w.env d
    now ← now_millis f config w.env d w.calendar_ms
    last_run ← last_run_ms w.env d
    ok (
        j.object (
          (codes "service", j.string (codes "stadhouder"))
          ∷ (codes "version", j.string q.version)
          ∷ (codes "test_env", j.bool config.test_env)
          ∷ (codes "time_ms", j.int now)
          ∷ (codes "service_last_run_ms", run_of last_run)
          ∷ (codes "service_memory_pct", pct)
          ∷ []))

  -- What `send` and `poll` read first.
  unfoldable pub episode_of : Surroundings → Text → Disk → Result (ConnectionProfile × F)
  unfolding profile_for
  episode_of w connection_id d = do
    profile ← profile_for s w.env connection_id d
    config ← Config.load f w.config_file
    factor ← wait_factor f config w.env d
    ok (profile, factor)

  -- The reply with what was written into the service's pipe, and the directory; `none` while a pipe is
  -- waited for.
  abbrev pub Reply : Type 0
  Reply = Option (Result (V × Bytes)) × Disk

  abbrev pub at_once : Result V × Disk → Reply
  at_once (ok v, d) = (some (ok (v, [])), d)
  at_once (err m, d) = (some (err m), d)

  sent_to : V → Answers → Result (ConnectionProfile × F) → Option (Result (V × Bytes))
  sent_to m a (err e) = some (err e)
  sent_to m a (ok (profile, factor)) = send j f profile factor m a.start a.tries

  polled_for : ℤ → Answers → Result (ConnectionProfile × F) → Option (Result (V × Bytes))
  polled_for wait_ms a (err e) = some (err e)
  polled_for wait_ms a (ok (profile, factor)) =
      poll j f factor wait_ms a.start a.episodes a.late a.tries

  unfoldable pub handle : Surroundings → Answers → ClientRequest V → Disk → Reply
  unfolding sent_to polled_for status_of connect close episode_of
  handle w a status d = at_once (status_of w d, d)
  handle w a (connect_as user_id) d = at_once (connect j f s w user_id d)
  handle w a (send_to connection_id m) d = (sent_to m a (episode_of w connection_id d), d)
  handle w a (poll_for connection_id wait_ms) d =
      (polled_for wait_ms a (episode_of w connection_id d), d)
  handle w a (close_of connection_id) d = at_once (close j w.env connection_id d)

  -- The body of the request is parsed, and the request served.
  unfoldable pub respond : Surroundings → Answers → Bytes → Disk → Reply
  unfolding handle
  respond w a body d =
      elim (do text ← or_fail (decode body) "request must be UTF-8"; q.request_from_str text) [
        | err m ↦ (some (err m), d)
        | ok request ↦ handle w a request d
      ]

  handled : Result (V × Bytes) → Handled V
  handled (ok (v, written)) = returned (new v)
  handled (err e) = refused (codes e)

  -- The answer of the process, once the pipes have been waited for, if it does not panic.
  unfoldable pub cgi_main :
      (Text → Bool) → Surroundings → Answers → Bytes → Disk → Option (Option HttpResponse) × Disk
  unfolding respond handled json_handler
  cgi_main header_value w a body d =
      let (reply, d') = respond w a body d in
      (elim reply [ none ↦ none | some r ↦ some (json_handler j header_value (handled r)) ], d')
