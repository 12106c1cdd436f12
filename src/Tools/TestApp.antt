-- ===== src/Tools/TestApp.antt =====
-- tools/test-app/src/main.rs: the engine of the system tests, with one counter and a roster.
pub mod Roster
pub mod Registry
pub mod Timers
use stadhouder.Base.{
  true, false, not, Option, none, some, List, [], ◌∷◌, ◌++◌, Text, codes, filter, ok, err,
  if◌then◌else◌, text_eq,
}
use stadhouder.Base.Int.{ℤ, pos, add_i64}
use stadhouder.Json.{Json}
use stadhouder.Layout.{Env}
use stadhouder.Disk
use stadhouder.Disk.{Disk}
use stadhouder.State.{state_dir}
use stadhouder.Service.{
  NewConnection, ClosedConnection, as_str, InboundMessage, ExpiredTimer, OutboundMessage,
  TimerRequest, EngineOutput, Batch, Engine,
}

-- The engine, with the directory that its two markers are written to.
pub record TestEngine : Type 0 where
  pub counter : ℤ
  pub roster : List Text
  pub state_files : Disk

-- What main starts with.
unfoldable pub new_engine : Disk → TestEngine
new_engine d = record { counter = pos 0; roster = []; state_files = d }

-- A marker that cannot be written is left out.
unfoldable pub write_marker : (ℤ → Text) → Env → Text → ℤ → Disk → Disk
write_marker print env name timestamp_ms d = elim (state_dir env) [
  | ok dir ↦ (Disk.write name (print timestamp_ms) d).1
  | err e ↦ d
]

pub data Command : Type 0 where
  add get broadcast set_timer cancel_timer close_me shutdown : Command
  unknown : Text → Command

unfoldable pub command_of : Text → Command
command_of cmd =
    if text_eq cmd (codes "add")
    then add
    else if text_eq cmd (codes "get")
    then get
    else if text_eq cmd (codes "broadcast")
    then broadcast
    else if text_eq cmd (codes "set_timer")
    then set_timer
    else if text_eq cmd (codes "cancel_timer")
    then cancel_timer
    else if text_eq cmd (codes "close_me")
    then close_me
    else if text_eq cmd (codes "shutdown")
    then shutdown
    else unknown cmd

or_default : {A : Type 0} → Option A → A → A
or_default none a = a
or_default (some b) a = b

-- `roster.retain(|id| id != gone)`
unfoldable pub retain : Text → List Text → List Text
retain gone = filter λ id. not (text_eq id gone)

module _ {V : Type 0} (j : Json V) where
  -- `value[key]`
  unfoldable pub index : V → Text → V
  unfolding or_default
  index v key = or_default (j.get v key) j.null

  -- The engine and its output within one call.
  abbrev pub Turn : Type 0
  Turn = TestEngine × EngineOutput V

  unfoldable pub empty_output : EngineOutput V
  empty_output = record {
    close_connections = [];
    messages = [];
    timers = [];
    cancel_timers = [];
    shutdown = false;
  }

  unfoldable pub reply : Text → V → Turn → Turn
  reply connection_id message (e, o) = (
    e,
    record o {
      messages = o.messages ++ record { connection_id = connection_id; message = message } ∷ [];
    },
  )

  -- The same message for each of some connections.
  unfoldable pub tell : List Text → V → Turn → Turn
  unfolding reply
  tell [] message t = t
  tell (id ∷ ids) message t = tell ids message (reply id message t)

  unfoldable pub greet : NewConnection → Turn → Turn
  unfolding reply
  greet c (e, o) =
      reply c.connection_id (j.object ((codes "hello", j.string c.user_id) ∷ []))
        (record e { roster = e.roster ++ c.connection_id ∷ [] }, o)

  unfoldable pub greet_all : List NewConnection → Turn → Turn
  unfolding greet
  greet_all [] t = t
  greet_all (c ∷ cs) t = greet_all cs (greet c t)

  unfoldable pub closed_note : ClosedConnection → V
  closed_note c = j.object (
      (
        codes "connection_closed",
        j.object (
            (codes "connection_id", j.string c.connection_id)
            ∷ (codes "reason", j.string (as_str c.reason))
            ∷ []),
      )
      ∷ [])

  unfoldable pub report : ClosedConnection → Turn → Turn
  unfolding tell retain
  report c (e, o) =
      let roster = retain c.connection_id e.roster in
      tell roster (closed_note c) (record e { roster = roster }, o)

  unfoldable pub report_all : List ClosedConnection → Turn → Turn
  unfolding report
  report_all [] t = t
  report_all (c ∷ cs) t = report_all cs (report c t)

  -- `format!("{connection_id}:{tag}")`
  unfoldable pub timer_id_for : Text → V → Text
  timer_id_for connection_id tag = connection_id ++ b':' ∷ j.to_string tag

  unfoldable pub timer_for : ℤ → Text → V → TimerRequest V
  unfolding index or_default timer_id_for
  timer_for timestamp_ms connection_id message =
      let tag = index message (codes "tag") in
      record {
        timer_id = timer_id_for connection_id tag;
        expiry_ms =
            add_i64 timestamp_ms (or_default (j.as_i64 (index message (codes "delay_ms"))) (pos 0));
        payload =
            j.object ((codes "tag", tag) ∷ (codes "connection_id", j.string connection_id) ∷ []);
      }

  unfoldable pub note : V → V
  unfolding index or_default
  note m = j.object ((codes "broadcast", index m (codes "text")) ∷ [])

  -- The sum wraps around, as in a release build.
  unfoldable pub perform : ℤ → Text → V → Command → Turn → Turn
  unfolding reply tell note index or_default timer_id_for timer_for retain
  perform now id m add (e, o) =
      let counter = add_i64 e.counter (or_default (j.as_i64 (index m (codes "n"))) (pos 0)) in
      reply id (j.object ((codes "counter", j.int counter) ∷ []))
        (record e { counter = counter }, o)
  perform now id m get (e, o) = reply id (j.object ((codes "counter", j.int e.counter) ∷ [])) (e, o)
  perform now id m broadcast (e, o) = tell e.roster (note m) (e, o)
  perform now id m set_timer (e, o) =
      reply id (j.object ((codes "timer_set", j.bool true) ∷ []))
        (e, record o { timers = o.timers ++ timer_for now id m ∷ [] })
  perform now id m cancel_timer (e, o) =
      let tag = index m (codes "tag") in
      reply id (j.object ((codes "timer_cancelled", tag) ∷ []))
        (e, record o { cancel_timers = o.cancel_timers ++ timer_id_for id tag ∷ [] })
  perform now id m close_me (e, o) = reply id (j.object ((codes "goodbye", j.bool true) ∷ [])) (
    record e { roster = retain id e.roster },
    record o { close_connections = o.close_connections ++ id ∷ [] },
  )
  perform now id m shutdown (e, o) =
      let (e', o') = reply id (j.object ((codes "bye", j.bool true) ∷ [])) (e, o) in
      (e', record o' { shutdown = true })
  perform now id m (unknown other) (e, o) =
      reply id
        (j.object
          ((codes "error", j.string (codes "unknown command '" ++ other ++ codes "'")) ∷ []))
        (e, o)

  -- `message["cmd"].as_str().unwrap_or("")`
  unfoldable pub command_in : V → Command
  unfolding command_of index or_default
  command_in m = command_of (or_default (j.as_str (index m (codes "cmd"))) [])

  unfoldable pub obey : ℤ → List (InboundMessage V) → Turn → Turn
  unfolding perform command_in
  obey now [] t = t
  obey now (m ∷ ms) t = obey now ms (perform now m.connection_id m.message (command_in m.message) t)

  -- A payload without a connection is passed over.
  unfoldable pub fire : ExpiredTimer V → Turn → Turn
  unfolding reply index
  fire x t = elim (j.as_str (index x.payload (codes "connection_id"))) [
    | none ↦ t
    | some id ↦
        reply id
          (j.object (
            (codes "timer_fired", index x.payload (codes "tag"))
            ∷ (codes "expiry_ms", j.int x.expiry_ms)
            ∷ []))
          t
  ]

  unfoldable pub fire_all : List (ExpiredTimer V) → Turn → Turn
  unfolding fire
  fire_all [] t = t
  fire_all (x ∷ xs) t = fire_all xs (fire x t)

  unfoldable pub process : {F : Type 0} → Batch V F → TestEngine → EngineOutput V × TestEngine
  unfolding greet_all report_all obey fire_all empty_output
  process b e =
      let t = fire_all b.expired_timers (
        obey b.timestamp_ms b.messages
          (report_all b.closed_connections (greet_all b.new_connections (e, empty_output)))) in
      (t.1, t.0)

  unfoldable pub test_engine : {F : Type 0} → (ℤ → Text) → Env → Engine V F TestEngine
  unfolding process write_marker
  test_engine print env = record {
    init = λ now e. record e {
      state_files = write_marker print env (codes "engine_init_marker") now e.state_files;
    };
    process_messages = process;
    shutdown = λ now e. record e {
      state_files = write_marker print env (codes "engine_shutdown_marker") now e.state_files;
    };
  }
