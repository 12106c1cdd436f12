-- ===== src/Tests/Loops.antt =====
-- The theorems on the loop of the service, for an engine that keeps a roster.
use mathlib.Core.List.{Perm, append-nil}
use stadhouder.Base.{
  leb, inl, ℕ, ◌≡◌, ◌<◌, refl, true, false, Bool, none, some, List, [], ◌∷◌, ◌++◌, map, any, arith,
  Text, codes, ok, text_eq, lookup, contains_key, All, Assoc,
}
use stadhouder.Base.Int.{ℤ, pos, IsTime, ◌+ℤ◌}
use stadhouder.Utf8.{IsChar, encode, encode_char}
use stadhouder.Disk.{Disk, is_denied, exists}
use stadhouder.State.{profile_name, flag_name}
use stadhouder.Pipes.Frame.Laws.{Fits, empty_sink}
use stadhouder.Pipes.Stream.{stream}
use stadhouder.Pipes.Server.{Fifos, PipeNames, Read, bytes, would_block, Poller, waiting, arrivals}
use stadhouder.Service.{
  Engine, EngineOutput, OutboundMessage, TimerRequest, ClosedConnection, server_idle_timeout,
}
use stadhouder.Runtime.{LiveConnection, PendingTimer, Loop}
use stadhouder.Runtime.Drain.{drain, silent, drop_inactive, heard}
use stadhouder.Runtime.Drain.Messages.{delivery, from_client}
use stadhouder.Runtime.Drain.Inactive.{silence}
use stadhouder.Runtime.Timers.{expire, reschedule, pending, fired}
use stadhouder.Runtime.Timers.Laws.{expire_lem, IsSorted, IsDueAt, IsAhead}
use stadhouder.Runtime.Timers.Cancel.{reschedule_lem, with_id}
use stadhouder.Runtime.Output.{apply_output}
use stadhouder.Runtime.Output.Outgoing.{close_drops_messages}
use stadhouder.Runtime.Polls.{serve_polls}
use stadhouder.Runtime.Polls.Answer.{poll_lost, emptied}
use stadhouder.Runtime.Round.{finished, leave}
use stadhouder.Runtime.Round.Exits.{shutdown_cleans}
use stadhouder.Runtime.Registry.{updated}
use stadhouder.Runtime.Roster.{KeepsRoster}
use stadhouder.Heartbeat.{is_heartbeat}
use stadhouder.Tests.{texts, texts-ReadsBack, repeat, length-encode-repeat}

-- An engine whose state is its roster, and that closes the connection "x" whenever it is called.
abbrev pub rosters : Engine Text ℕ (Text → Bool)
rosters = record {
  init = λ now t id. false;
  process_messages = λ b t. (
    record {
      close_connections = codes "x" ∷ [];
      messages = [];
      timers = [];
      cancel_timers = [];
      shutdown = false;
    },
    updated b t,
  );
  shutdown = λ now t. t;
}

pub rosters-KeepsRoster : KeepsRoster rosters (λ t. t)
rosters-KeepsRoster = record { at_init = λ now t id. refl; at_call = λ b t id. refl }

abbrev x_names : PipeNames
x_names = record { client_to_server = codes "c2s_x"; server_to_client = codes "s2c_x" }

abbrev pub connection : List Text → ℤ → LiveConnection Text
connection outbox last = record {
  inbound = record { path = codes "c2s_x"; buffer = [] };
  outbound = record { path = codes "s2c_x" };
  pipe_names = x_names;
  outbox = outbox;
  last_message_ms = last;
}

abbrev pub no_fifos : Fifos
no_fifos = record { present = []; refused = [] }

abbrev pub disk_of : Assoc Text → Disk
disk_of files = record { files = files; denied = [] }

abbrev pub loop_of : Assoc (LiveConnection Text) → ℤ → Disk → Loop Text ℕ (Text → Bool)
loop_of connections at disk = record {
  connections = connections;
  timers = [];
  started_ms = at;
  flag_updated_ms = at;
  last_scan_ms = at;
  memory_pct = 0;
  pending_engine_closes = [];
  engine = λ id. false;
  disk = disk;
  fifos = no_fifos;
}

abbrev pub small_time : (n : ℕ) → n < 1000000 → IsTime (pos n)
small_time n h = record { low = omega arith; high = omega arith }

abbrev pub xs_one : Assoc (LiveConnection Text)
xs_one = (codes "x", connection (codes "m" ∷ []) (pos 0)) ∷ []

abbrev pub served : Disk
served = disk_of ((codes "connection_x.json", []) ∷ (codes "service_flag", []) ∷ [])

shutdown_cleans_example :
    let (x, l) = leave rosters (pos 9) (ok tt) true (loop_of xs_one (pos 1) served) in
    (x ≡ finished)
    × (exists (profile_name (codes "x")) l.disk ≡ false)
    × (exists flag_name l.disk ≡ false)
    × (l.engine ≡ (λ id. false))
unfolding contains_key is_denied
shutdown_cleans_example =
    shutdown_cleans rosters (pos 9) (ok tt) (codes "x") (loop_of xs_one (pos 1) served) refl refl
      refl

abbrev timer : Text → ℤ → PendingTimer Text
timer id at = record { timer_id = id; expiry_ms = at; payload = [] }

abbrev two_timers : List (PendingTimer Text)
two_timers =
    timer (codes "late") (pos 7)
    ∷ timer (codes "early") (pos 3)
    ∷ timer (codes "ahead") (pos 9)
    ∷ []

expire_lem_example :
    let (expired, kept) = expire (pos 7) two_timers in
    IsSorted expired
    × All (IsDueAt (pos 7)) expired
    × All (IsAhead (pos 7)) kept
    × Perm (expired ++ map fired kept) (map fired two_timers)
expire_lem_example = expire_lem (pos 7) two_timers

abbrev request : TimerRequest Text
request = record { timer_id = codes "late"; expiry_ms = pos 20; payload = [] }

reschedule_lem_example :
    with_id (codes "late") (reschedule (codes "late" ∷ []) (request ∷ []) two_timers)
    ≡ pending request ∷ []
reschedule_lem_example = reschedule_lem (codes "late") (codes "late" ∷ []) (request ∷ []) two_timers

abbrev pub hi : Text
hi = codes "hi"

pub ascii-IsChar : (s : Text) → any (leb 128) s ≡ false → All IsChar s
ascii-IsChar [] h = tt
ascii-IsChar (c ∷ s) h = (inl (ground arith), ascii-IsChar s (ground arith))

pub short-Fits : Fits hi × Fits (codes "stadhouder_heartbeat")
unfolding encode encode_char
short-Fits = (
  record { chars = (inl (omega arith), (inl (omega arith), tt)); small = omega arith },
  record { chars = ascii-IsChar (codes "stadhouder_heartbeat") refl; small = omega arith },
)

delivery_example :
    drain texts
      (pos 5)
      (λ id. arrivals (stream (hi ∷ codes "stadhouder_heartbeat" ∷ []) ∷ []))
      (codes "x")
      (connection [] (pos 0))
    ≡ (
      from_client texts (codes "x") hi ∷ [],
      heard texts (pos 5) (hi ∷ codes "stadhouder_heartbeat" ∷ []) (connection [] (pos 0)),
    )
unfolding is_heartbeat
delivery_example =
    delivery texts (pos 5) (λ id. arrivals (stream (hi ∷ codes "stadhouder_heartbeat" ∷ []) ∷ []))
      (codes "x") (connection [] (pos 0)) (hi ∷ codes "stadhouder_heartbeat" ∷ [])
      (stream (hi ∷ codes "stadhouder_heartbeat" ∷ []) ∷ []) texts-ReadsBack
      (short-Fits.0, (short-Fits.1, tt)) refl refl
      (append-nil (stream (hi ∷ codes "stadhouder_heartbeat" ∷ [])))

abbrev pub some_reads : Text → List Read
some_reads id = bytes (2 ∷ 0 ∷ 0 ∷ 0 ∷ 104 ∷ 105 ∷ []) ∷ would_block ∷ []

silence_example :
    let l : Loop Text ℕ (Text → Bool) = loop_of xs_one (pos 0) served in
    let (closed, l') = drop_inactive (silent (pos 120000) l.connections) l in
    (lookup (codes "x") l'.connections ≡ none)
    × (any (text_eq (codes "x")) (map ClosedConnection.connection_id closed) ≡ true)
    × All (λ c. c.reason ≡ server_idle_timeout) closed
unfolding lookup ◌+ℤ◌ contains_key
silence_example =
    silence (pos 120000) (codes "x") (loop_of xs_one (pos 0) served)
      (small_time 120000 (omega arith)) (small_time 0 (omega arith), tt) (refl, tt)

abbrev says : OutboundMessage Text
says = record { connection_id = codes "x"; message = codes "n" }

abbrev closing : EngineOutput Text
closing = record {
  close_connections = codes "x" ∷ [];
  messages = says ∷ [];
  timers = [];
  cancel_timers = [];
  shutdown = false;
}

abbrev speaking : EngineOutput Text
speaking = record {
  close_connections = [];
  messages = says ∷ [];
  timers = [];
  cancel_timers = [];
  shutdown = false;
}

abbrev pub all_wait : Text → Poller
all_wait id = waiting empty_sink

close_drops_messages_example :
    lookup
      (codes "x")
      (serve_polls texts
        (pos 5)
        all_wait
        (apply_output closing (loop_of xs_one (pos 0) served)).connections).0
    ≡ none
close_drops_messages_example =
    close_drops_messages texts (pos 5) all_wait (codes "x") closing (loop_of xs_one (pos 0) served)
      refl

abbrev full : LiveConnection Text
full = connection (repeat 16777217 ∷ []) (pos 0)

poll_lost_example :
    let (sent, m) = serve_polls texts (pos 5) all_wait ((codes "x", full) ∷ []) in
    (lookup (codes "x") m ≡ some (emptied texts (pos 5) full)) × (lookup (codes "x") sent ≡ some [])
unfolding lookup
poll_lost_example =
    poll_lost texts (pos 5) all_wait (codes "x") ((codes "x", full) ∷ []) full refl
      (omega (arith, length-encode-repeat 16777217)) refl
