-- ===== src/Lib.antt =====
-- sockd: a Unix IPC daemon and its client, as a Rust crate.
--
-- A daemon owns a PID file and a Unix socket. It keeps an application's state in memory, answers
-- one framed request on each connection, and ends by a signal, by a client's Shutdown frame or
-- by an idle timeout. A client connects for each call, and may start the daemon if it does not
-- run.
--
-- Parts and files:
-- - Common, Text, Outcome: numbers, lists, machine words, several processes that take their
--   steps in any order (Common/Interleaving), text as code points with decimal printing and
--   parsing, results and actions. An action is a function of a state that returns a result and
--   the state that it leaves; `?` is the bind of the do blocks.
-- - Error, Config: src/error.rs and src/config.rs. An io::Error is its kind and its message; a
--   Duration is a number of nanoseconds.
-- - Frame: src/frame.rs. `encode` and `decode` are Header::encode and Header::decode, `kind_of`
--   is FrameKind::try_from. Streams has the laws of std::io. Partial has the reader and the
--   writer of its unit tests, under the read_exact and write_all that std builds on them, with
--   as much fuel as there are bytes.
-- - Os: what the crate calls of the operating system, as a record of functions over a state of
--   the machine. It is a parameter of all that follows. Every call returns the state that it
--   leaves, so that other processes may act at each call; theorems that want them still say so
--   by a record of laws.
-- - Pidfile, Socket, Process: src/pidfile.rs, src/socket.rs and src/process.rs, function by
--   function. Pidfile/Files and Socket/Nodes have the laws of a machine on which nobody else
--   acts. Pidfile/Claimants has the same claim as a step relation of several processes, one call
--   of the operating system at a time; Pidfile/Steps joins the two. Socket/Binders and
--   Socket/Runs are the same for bind and cleanup, and Daemon/Instances and Daemon/Refinement
--   for all of run.
-- - Daemon: src/daemon.rs. Builder has DaemonBuilder, Connection process_connection and
--   poll_listener, Run the event loop and run. Queue says what the inner loop finds, Schedule
--   what the outer one does, Lifetime how run starts. Callbacks are functions of the
--   application's state and of the machine's. The other children hold proofs.
-- - Client: src/client.rs. Exchange has the single exchanges, Waiting the calls that recover and
--   wait. Clock, Spawning and Backoff have the laws of the clock, of the count of started
--   programs and of the list of sleeps; the other children hold proofs, and Served joins a
--   client to a daemon's process_connection, as Ffi/Served does for a caller in C.
-- - Ffi: src/ffi.rs. A pointer is an address or null, and Memory says what stands at each
--   address; Strings has c_string and write_error, Settings the functions on a config, Calls
--   those that reach a daemon and those that free, and Session the calls of its unit test. The
--   other children hold proofs.
-- - Programs: src/bin/sockd_test_daemon.rs (TestDaemon), examples/echo_daemon.rs (EchoDaemon)
--   and examples/echo_client.rs (EchoClient), over the arguments and the environment. The other
--   children hold proofs.
-- - Tests: the theorems at concrete inputs, on a machine in memory.
--
-- How the parts interact: `run` claims the PID file, calls on_start, binds the socket and enters
-- the event loop. The loop accepts streams and hands each to process_connection, which reads a
-- frame, may call on_request, and writes a frame. The client writes and reads frames on its side
-- of such a stream.
--
-- Bounds and fuel: u16, u32 and u8 values are natural numbers with their ranges as hypotheses;
-- usize has 64 bits, so that a u32 length fits it. The event loop and the client's waiting loops
-- take fuel and report `unfinished` when it runs out: the program is then still in its loop, and
-- nothing after the loop has happened. For an idle daemon, more rounds than the idle timeout has
-- nanoseconds are enough; for the connections that wait on the listener, one round more than
-- there are; for `run` with clients that come while it runs, more than its rounds and those
-- clients together; for a waiting client, one round more than its timeout over its least sleep.
-- The overflow panics of Instant + Duration are not modelled. `claim` has the three rounds of
-- the source.
--
-- Not modelled: src/lib.rs, which only names the modules; the line that examples/echo_daemon.rs
-- prints to stderr; the unit tests of src/daemon.rs; in that of src/ffi.rs the thread of the
-- daemon and the wait for it; the integration tests, and the C program under reference/. Two
-- calls of std are one step each in the relations of several processes: UnixListener::bind,
-- without the time between bind and listen, and the writeln! of the PID file, without the time
-- between the number and its newline.
pub mod Common
pub mod Text
pub mod Outcome
pub mod Error
pub mod Config
pub mod Ffi
pub mod Programs
pub mod Frame
pub mod Os
pub mod Pidfile
pub mod Socket
pub mod Process
pub mod Client
pub mod Daemon
pub mod Tests
