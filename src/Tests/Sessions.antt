-- ===== src/Tests/Sessions.antt =====
-- The calls of the unit test in src/ffi.rs, with a daemon that echoes.
use sockd.Common.{ℕ, ◌≡◌, refl, true, false, Option, none, some, [], ◌∷◌, ◌++◌, arith, codes}
use sockd.Outcome.{ok}
use sockd.Os.{Os}
use sockd.Common.Words.{from_be_bytes}
use sockd.Frame.{encode, decode, kind_of, read_frame, write_frame}
use sockd.Frame.Streams.{wire}
use sockd.Pidfile.{read_pid}
use sockd.Daemon.Connection.{process_connection, dispatch}
use sockd.Client.{Client}
use sockd.Client.Exchange.{send_request_once}
use sockd.Client.Waiting.{
  request, shutdown, wait_for_shutdown, shutdown_loop, shutdown_complete,
  pid_file_points_to_live_process,
}
use sockd.Ffi.Strings.{until_nul}
use sockd.Ffi.{Memory, Foreign, update, build_client, sockd_ok}
use sockd.Ffi.Session.{Variables, session}
use sockd.Ffi.Session.Caller.{IsCaller, settings_of}
use sockd.Ffi.Session.Freed.{session_frees}
use sockd.Tests.Machine.{Machine, blank}
use sockd.Tests.Clients.{answering, echoing}

-- Every connection is a stream of its own.
abbrev reconnecting : Os
reconnecting = record (answering echoing) {
  connect = λ p m. (ok tt, record m { incoming = []; outgoing = [] });
}

abbrev variables : Variables
variables = record {
  socket_c = 1;
  pid_c = 2;
  request = 3;
  error = 4;
  response_ptr = 5;
  response_len = 6;
  stopped = 7;
}

abbrev at {ℓ} : {A : Type ℓ} → (ℕ → Option A) → ℕ → A → ℕ → Option A
at f p a = update f p (some a)

abbrev nowhere {ℓ} : {A : Type ℓ} → ℕ → Option A
nowhere p = none

abbrev start : Foreign Machine
start = record {
  memory = record {
    configs = nowhere;
    bytes =
        at (at (at nowhere 1 (codes "/tmp/ffi.sock" ++ 0 ∷ [])) 2 (codes "/tmp/ffi.pid" ++ 0 ∷ []))
          3 (codes "ffi hello");
    arrays = nowhere;
    pointers = at (at nowhere 4 none) 5 none;
    sizes = at nowhere 6 0;
    bools = at nowhere 7 false;
  };
  world = blank;
}

abbrev place : Memory → ℕ
place m = 100

caller :
    IsCaller
      (λ bytes. some bytes)
      place
      variables
      (codes "/tmp/ffi.sock")
      (codes "/tmp/ffi.pid")
      (codes "ffi hello")
      9
      start.memory
unfolding until_nul
caller = record {
  socket_string = record {
    bytes = codes "/tmp/ffi.sock" ++ 0 ∷ [];
    chars = codes "/tmp/ffi.sock";
    there = refl;
    ends = refl;
    decodes = refl;
  };
  pid_string = record {
    bytes = codes "/tmp/ffi.pid" ++ 0 ∷ [];
    chars = codes "/tmp/ffi.pid";
    there = refl;
    ends = refl;
    decodes = refl;
  };
  array = codes "ffi hello";
  stored = refl;
  long = omega arith;
  sends = refl;
  old_error = none;
  error_there = refl;
  old_response = none;
  response_there = refl;
  apart = λ e. omega arith;
  old_len = 0;
  len_there = refl;
  old_stopped = false;
  stopped_there = refl;
  config_free = refl;
  response_free = refl;
}

abbrev client : Client
client = build_client (settings_of (codes "/tmp/ffi.sock") (codes "/tmp/ffi.pid"))

abbrev answered : Machine
answered = (request reconnecting 2 client (codes "ffi hello") blank).1

abbrev halted : Machine
halted = (shutdown reconnecting 2 client answered).1

is_answered :
    request reconnecting 2 client (codes "ffi hello") blank ≡ (ok (codes "ffi hello"), answered)
unfolding build_client request send_request_once read_frame write_frame decode encode kind_of wire
    from_be_bytes process_connection dispatch
is_answered = refl

is_halted : shutdown reconnecting 2 client answered ≡ (ok true, halted)
unfolding build_client request send_request_once read_frame write_frame decode encode kind_of wire
    from_be_bytes process_connection dispatch shutdown wait_for_shutdown shutdown_loop
    shutdown_complete pid_file_points_to_live_process read_pid
is_halted = refl

session_frees_example : session reconnecting (λ bytes. some bytes) place 2 variables 9 start ≡ (
  ok (record {
    config = some 100;
    set_code = sockd_ok;
    request_code = sockd_ok;
    response = codes "ffi hello";
    shutdown_code = sockd_ok;
    stopped = true;
  }),
  record {
    memory = record start.memory {
      pointers = at start.memory.pointers 5 (some 100);
      sizes = at start.memory.sizes 6 9;
      bools = at start.memory.bools 7 true;
    };
    world = halted;
  },
)
session_frees_example =
    session_frees reconnecting (λ bytes. some bytes) place 2 variables (codes "/tmp/ffi.sock")
      (codes "/tmp/ffi.pid") (codes "ffi hello") 9 start caller (codes "ffi hello") true answered
      halted is_answered is_halted
