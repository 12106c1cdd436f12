-- ===== src/Lib.antt =====
-- Stadhouder: a service that a web host's cron starts every minute, which keeps the connections of
-- browser clients alive between CGI requests and drives an application's engine.
--
-- A client program (a CGI process for each request) writes a connection's profile into the directory
-- state/, and talks to the service over two FIFOs. The service scans the directory, opens the FIFOs of
-- new connections, reads the clients' frames, calls the engine with the events of the round, applies
-- what the engine orders, and answers the clients that wait.
--
-- Which file models what (paths from the repository's root):
-- - Runtime and its modules: rust/backend/service/src/runtime.rs. `Loop` has the variables of
--   `run_loop`, the engine's state and what the loop changes outside; Start is the code before the
--   loop, Round one pass of it, and Scan, Drain, Timers, Output and Polls are its stages in the order
--   of the source. Scan.Found says which profiles a scan opens, Round.Recent follows the times through
--   the rounds; Registry and Roster relate the loop to an engine's own bookkeeping. Round.Reply follows
--   one connection through a round, Start.Purge the profiles of an earlier run through a start,
--   Start.Decides and Round.Ends say how a start and a round end on each branch, and Flag follows the
--   flag file from the start on; Flag.Instances has several instances over one directory.
-- - Service: rust/backend/service/src/lib.rs, what the service and the engine tell each other. The
--   engine is a parameter: its state and its three hooks. Runtime.Run is `stadhouder_run`.
-- - Pipes and its modules: rust/backend/common/src/pipes.rs: Frame the writer and the readers, Stream
--   their laws on a buffer that fills up, Server and Client the Unix halves of the pipes' two ends,
--   Channel one pipe with its writes and drains in any order, Windows and its modules the other half.
-- - State: rust/backend/common/src/state.rs; State.Profiles what its files keep. Disk is the directory.
-- - Config, Clock, Identity, Cookie, Heartbeat, Layout, Request: the files config.rs, time.rs,
--   identity.rs, cookie.rs, heartbeat.rs, layout.rs and request.rs beside it. Config.Printed and
--   Text.Lines are about a file that was written line by line, Config.Valid about any file.
-- - Client: rust/backend/api/src/bin/client.rs, the guards of `connect` and the loop of `poll`;
--   Client.Request answers each request, Client.PickedUp and Client.Closed bring the service's scan in.
--   Handler: rust/backend/common/src/handler.rs.
-- - Base, Text, Utf8: numbers, lists, maps and results; what is used of Rust's strings and of UTF-8.
-- - Json, Float: serde_json's values and `f64`, which are parameters, as are the texts that serde
--   makes of the flag and the profiles (`Serde`) and what the system answers (`Os`).
-- - Tools.TestApp: tools/test-app/src/main.rs, an engine for `Service`; its roster and its timers in the
--   service's loop. Tools.CronSim: tools/cron-sim/src/main.rs. Tools.Fileserver and its modules:
--   tools/cgi-fileserver/src/main.rs, with Resolve, Environment, Output and Handler for the program to
--   run, its environment, its output, and the request as a whole.
-- - Tests: the parameters made concrete, and the theorems at concrete inputs.
--
-- How the code is modelled:
-- - A `HashMap` is an association list; nothing in the source relies on its order. Strings are lists
--   of code points, and their bytes on a pipe are their UTF-8.
-- - `i64` is an integer with the wrap-around of 64 bits; where a theorem needs it, times are within
--   2^62 ms of the epoch.
-- - Operations that can fail return a `Result` with an error text, and with it what they changed. Error
--   texts name the failure without the system's own words. Log lines are left out.
-- - A round is a function of the loop and of the system's answers in it. Other processes change the
--   directory between two rounds, in any way (`Os.others`). The directory itself is always there.
-- - The loop of `extract_frames` recurs on fuel, the length of the buffer and one more: each frame
--   takes four bytes at least, and any larger fuel gives the same. The loop of rounds recurs on the
--   list of the system's answers, the tries of a client on the answers to them.
-- - Paths are those of Unix, without `.` components.
-- - What a call of the operating system answers (a read, a peek, a connect, the canonical form of a
--   path, a running program) is an argument, as are the http crate's checks of a header.
--
-- - On Windows the time that the system's own write and flush take is an argument, as is whether it
--   grants a switch of a pipe's mode.
--
-- Not modelled: panics other than those of the two answers (json_handler's and the web server's), the
-- clock's own conversions, the static files and the start of the web server, the command lines and the
-- logs, and the scripts. A round is one step where instances share a directory, and so is a start: two
-- starts that both read the flag before either writes it are not among the orders.
pub mod Base
pub mod Text
pub mod Utf8
pub mod Pipes
pub mod Layout
pub mod Request
pub mod Cookie
pub mod Json
pub mod Float
pub mod Heartbeat
pub mod Handler
pub mod Disk
pub mod Config
pub mod State
pub mod Clock
pub mod Service
pub mod Runtime
pub mod Identity
pub mod Client
pub mod Tests
pub mod Tools
