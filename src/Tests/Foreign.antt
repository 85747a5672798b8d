-- ===== src/Tests/Foreign.antt =====
-- src/ffi.rs over a concrete memory.
use sockd.Client.{matches_recoverable_connect_error}
use sockd.Common.{ℕ, ◌≡◌, refl, none, some, Option, false, List, [], ◌∷◌, ◌++◌, arith, codes}
use sockd.Common.Words.{from_be_bytes}
use sockd.Text.{Text, as_bytes}
use sockd.Outcome.{ok, err, raised}
use sockd.Error.{Error, ErrorKind}
use sockd.Frame.{FrameKind, encode, decode, kind_of, read_frame, write_frame}
use sockd.Frame.Streams.{wire}
use sockd.Os.{Os}
use sockd.Client.Exchange.{send_request_once, try_ping_once}
use sockd.Client.Waiting.{
  request, ping, shutdown, recover_if_needed, should_treat_connect_error_as_not_running,
  pid_file_points_to_live_process,
}
use sockd.Daemon.Connection.{process_connection, dispatch}
use sockd.Ffi.{
  SockdClientConfig, Memory, Foreign, build_client, update, sockd_ok, sockd_err_null,
  sockd_err_utf8,
}
use sockd.Ffi.Strings.{
  write_error, c_str_from_ptr, c_string, without_nul, config_ref, c_string_result, c_string_vec,
}
use sockd.Ffi.Calls.{
  sockd_string_free, sockd_client_request, sockd_client_ping, sockd_client_shutdown,
}
use sockd.Ffi.Settings.{sockd_client_config_set_auto_start, sockd_client_config_set_pid_file}
use sockd.Ffi.Messages.{message_freed, told}
use sockd.Ffi.Requests.{IsRequest, sockd_client_request_lem, handed}
use sockd.Ffi.Keeping.{set_auto_start_keeps, set_pid_file_lem}
use sockd.Ffi.Outcomes.{
  sockd_client_ping_lem, sockd_client_shutdown_lem, sockd_client_request_refuses, after_ping,
  after_shutdown,
}
use sockd.Tests.Machine.{Machine, machine, io_error, blank}
use sockd.Tests.Clients.{answering, answering-IsConversation, echoing, reached}
use sockd.Tests.Daemons.{echo, machine-IsDuplex, incoming_of, outgoing_of}
use sockd.Ffi.Served.{sockd_client_request_served}

abbrev settings : SockdClientConfig
settings = record {
  socket_path = codes "/tmp/sockd.sock";
  pid_file = none;
  auto_start_program = none;
  auto_start_args = [];
  max_payload_len = 100;
  shutdown_timeout_ms = 30;
}

abbrev vacant {ℓ} : {A : Type ℓ} → ℕ → Option A
vacant p = none

-- A config at 1, a request at 2, a string at 3, and variables of the caller.
abbrev layout : Memory
layout = record {
  configs = update vacant 1 (some settings);
  bytes = update (update vacant 2 (some (codes "hi there"))) 3 (some (codes "/run/x" ++ 0 ∷ []));
  arrays = vacant;
  pointers = update (update vacant 4 (some none)) 5 (some none);
  sizes = update vacant 6 (some 0);
  bools = update vacant 7 (some false);
}

abbrev caller : Foreign Machine
caller = record { memory = layout; world = blank }

abbrev ascii : List ℕ → Option Text
ascii bytes = some bytes

abbrev place : Memory → ℕ
place m = 100

message_freed_example :
    let f' = (write_error ascii place (some 5) (codes "no daemon") 3 caller).1 in
    (f'.memory.pointers 5 ≡ some (some 100))
    × ((c_str_from_ptr 100 f').0 ≡ ok (without_nul (as_bytes (codes "no daemon"))))
    × ((sockd_string_free (some 100) f').0 ≡ ok tt)
    × ((sockd_string_free (some 100) f').1.memory.bytes ≡ layout.bytes)
message_freed_example = message_freed ascii place 5 none (codes "no daemon") 3 caller refl refl

abbrev echoes : Os
echoes = answering echoing

asked : IsRequest layout 1 settings (codes "hi") 2 2 4 6 (some 5)
asked = record {
  array = codes "hi there";
  old = none;
  old_len = 0;
  configured = refl;
  stored = refl;
  long = omega arith;
  sends = refl;
  out = refl;
  out_len = refl;
  cell = (none, refl);
}

abbrev after : Machine
after = (request echoes 2 (build_client settings) (codes "hi") blank).1

is_echoed : request echoes 2 (build_client settings) (codes "hi") blank ≡ (ok (codes "hi"), after)
unfolding build_client request send_request_once read_frame write_frame decode encode kind_of wire
    from_be_bytes process_connection dispatch
is_echoed = refl

sockd_client_request_lem_example :
    sockd_client_request echoes ascii place 2 (some 1) (some 2) 2 (some 4) (some 6) (some 5) caller
    ≡ (
      ok sockd_ok,
      record { memory = handed echoes place layout 4 6 (some 5) (ok (codes "hi")); world = after },
    )
sockd_client_request_lem_example =
    sockd_client_request_lem echoes ascii place 2 1 2 2 4 6 (some 5) settings (codes "hi")
      (ok (codes "hi")) caller after asked is_echoed

sockd_client_request_served_example :
    let end =
      sockd_client_request echoes ascii place 2
        (some 1)
        (some 2)
        2
        (some 4)
        (some 6)
        (some 5)
        caller in
    (end.0 ≡ ok sockd_ok)
    × (end.1.memory ≡ handed echoes place layout 4 6 (some 5) (ok (codes "hi")))
unfolding build_client read_frame decode encode kind_of wire from_be_bytes
sockd_client_request_served_example =
    sockd_client_request_served echoes tt incoming_of outgoing_of echoing
      (answering-IsConversation echoing) machine echo tt incoming_of outgoing_of machine-IsDuplex
      ascii place 2 1 2 2 4 6 (some 5) settings (codes "hi") caller blank
      (reached (wire FrameKind.request 0 (codes "hi"))) (ok (codes "hi")) 6 blank asked refl refl
      (omega arith) (omega arith) refl refl refl (refl, refl) (omega arith) (omega arith)
      (λ e h. cc)

-- Two arguments that are nowhere.
is_refused :
    (sockd_client_config_set_auto_start ascii place (some 1) (some 3) 2 none (some 5) caller).0
    ≡ ok sockd_err_utf8
unfolding sockd_client_config_set_auto_start c_string write_error config_ref c_string_result
    c_string_vec
is_refused = refl

set_auto_start_keeps_example :
    (sockd_client_config_set_auto_start ascii place
      (some 1)
      (some 3)
      2
      none
      (some 5)
      caller).1.memory.configs
    ≡ layout.configs
set_auto_start_keeps_example =
    set_auto_start_keeps ascii place (some 1) (some 3) 2 none (some 5) caller
      (λ e. cc (is_refused, e))

set_pid_file_lem_example :
    sockd_client_config_set_pid_file ascii place (some 1) none (some 5) caller ≡ (
      ok sockd_err_utf8,
      record caller { memory = told place layout (some 5) (codes "pointer must not be null") },
    )
unfolding c_string
set_pid_file_lem_example =
    set_pid_file_lem ascii place 1 none (some 5) settings (err (codes "pointer must not be null"))
      caller refl (none, refl) refl

sockd_client_request_refuses_example :
    sockd_client_request machine ascii place 2 (some 1) none 2 (some 4) (some 6) (some 5) caller ≡ (
      ok sockd_err_null,
      record caller {
        memory =
            told place layout
              (some 5)
              (codes "request pointer must not be null when request_len > 0");
      },
    )
sockd_client_request_refuses_example =
    sockd_client_request_refuses machine ascii place 2 (some 5) caller (none, refl) (some 1) none 2
      (some 4) (some 6) (codes "request pointer must not be null when request_len > 0")
      (settings, refl) refl

abbrev unreachable : Error
unreachable = Error.io (io_error ErrorKind.not_found)

is_unanswered : ping machine 2 (build_client settings) blank ≡ (err (raised unreachable), blank)
unfolding build_client ping try_ping_once recover_if_needed
is_unanswered = refl

sockd_client_ping_lem_example : sockd_client_ping machine ascii place 2 (some 1) (some 5) caller ≡ (
  ok 3,
  record { memory = after_ping machine place layout (some 5) (err unreachable); world = blank },
)
sockd_client_ping_lem_example =
    sockd_client_ping_lem machine ascii place 2 1 (some 5) settings caller refl (none, refl)
      (err unreachable) blank is_unanswered

is_absent : shutdown machine 2 (build_client settings) blank ≡ (ok false, blank)
unfolding build_client shutdown should_treat_connect_error_as_not_running
    matches_recoverable_connect_error pid_file_points_to_live_process
is_absent = refl

sockd_client_shutdown_lem_example :
    sockd_client_shutdown machine ascii place 2 (some 1) (some 7) (some 5) caller ≡ (
      ok 0,
      record { memory = after_shutdown machine place layout 7 (some 5) (ok false); world = blank },
    )
sockd_client_shutdown_lem_example =
    sockd_client_shutdown_lem machine ascii place 2 1 (some 5) settings caller refl (none, refl) 7
      false (ok false) blank refl is_absent
