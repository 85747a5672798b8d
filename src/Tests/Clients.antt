-- ===== src/Tests/Clients.antt =====
-- src/client.rs at concrete clients.
use sockd.Common.{ℕ, suc, ◌+◌, ◌≡◌, ◌≢◌, refl, true, some, List, [], ◌++◌, arith, codes}
use sockd.Common.Words.{from_be_bytes}
use sockd.Outcome.{ok, err, unfinished}
use sockd.Config.{AutoStart, from_millis}
use sockd.Frame.{FrameKind, encode, decode, kind_of, read_frame, write_frame}
use sockd.Frame.Streams.{wire}
use sockd.Os.{Os}
use sockd.Daemon.{Running}
use sockd.Daemon.Connection.{process_connection}
use sockd.Pidfile.{read_pid}
use sockd.Client.{Client, can_attempt_recovery}
use sockd.Client.Exchange.{send_request_once}
use sockd.Client.Waiting.{
  pid_file_points_to_live_process, wait_for_ready, wait_for_shutdown, shutdown_complete,
  shutdown_loop, shutdown, request,
}
use sockd.Client.Conversation.{IsConversation}
use sockd.Client.Served.{send_request_once_served}
use sockd.Client.Stopping.{Grounds, shutdown_answers}
use sockd.Client.Ending.{request_returns}
use sockd.Client.Clock.{IsTimed}
use sockd.Client.Patience.{Ready, Gone, wait_for_ready_ends, wait_for_shutdown_ends}
use sockd.Client.Spawning.{CountsSpawns, request_spawns}
use sockd.Tests.Machine.{Machine, machine, stream_writer, blank}
use sockd.Tests.Pidfiles.{pid_path}
use sockd.Tests.Daemons.{echo, machine-IsDuplex, incoming_of, outgoing_of, clock_of, stops_of}

abbrev pub starter : AutoStart
starter = record {
  program = codes "/usr/bin/echo_daemon";
  args = [];
  ready_timeout = 3;
  initial_backoff = 1;
  max_backoff = 2;
}

abbrev pub caller : Client
caller = record {
  socket_path = codes "/tmp/sockd.sock";
  pid_file = some pid_path;
  auto_start = some starter;
  max_payload_len = 100;
  shutdown_timeout = from_millis 30;
}

-- A machine on which `peer` answers what is written.
abbrev pub answering : (List ℕ → List ℕ) → Os
answering peer = record machine {
  connect = λ p m. (ok tt, m);
  writer =
      λ s. record stream_writer { flush = λ m. (ok tt, record m { incoming = peer m.outgoing }) };
}

pub answering-IsConversation :
    (peer : List ℕ → List ℕ) → IsConversation (answering peer) tt incoming_of outgoing_of peer
answering-IsConversation peer = record {
  reading = machine-IsDuplex.reading;
  writing = record {
    written = λ bytes m. refl;
    appended = λ bytes m. refl;
    flushed = λ m. refl;
    kept = λ m. refl;
  };
  answered = λ m. refl;
}

-- The echoing daemon with the given bytes on its stream.
abbrev pub reached : List ℕ → Running Machine ℕ
reached bytes = record { app = 5; world = record blank { incoming = bytes } }

abbrev pub echoing : List ℕ → List ℕ
echoing bytes = outgoing_of (process_connection machine echo tt (reached bytes)).1.world

send_request_once_served_example :
    (send_request_once (answering echoing) caller (codes "hi") blank).0 ≡ ok (codes "hi")
unfolding read_frame decode encode kind_of wire from_be_bytes
send_request_once_served_example =
    send_request_once_served (answering echoing) tt incoming_of outgoing_of echoing
      (answering-IsConversation echoing) machine echo tt incoming_of outgoing_of machine-IsDuplex
      caller (codes "hi") blank blank (reached (wire FrameKind.request 0 (codes "hi")))
      (ok (codes "hi")) 6 blank refl refl (omega arith) (omega arith) refl refl refl (refl, refl)
      (omega arith) (omega arith) (λ e h. cc)

machine-IsTimed : IsTimed machine clock_of
machine-IsTimed = record {
  reads = λ m. refl;
  sleeps = λ d m. omega arith;
  connects = λ p m. omega arith;
  gets = λ s n m. ground arith;
  puts = λ s bytes m. omega arith;
  flushes = λ s m. omega arith;
  closes = λ s m. omega arith;
  looks = λ p m. ground arith;
  loads = λ p m. ground arith;
  probes = λ z signal m. omega arith;
}

wait_for_ready_ends_example :
    let end = wait_for_ready machine 4 caller starter blank in
    Ready machine clock_of caller starter (0 + 3) end.0 end.1
wait_for_ready_ends_example =
    wait_for_ready_ends machine clock_of machine-IsTimed 3 caller starter 1 blank (omega arith)
      (omega arith) (omega arith) (omega arith)

wait_for_shutdown_ends_example :
    let end = wait_for_shutdown machine 3 caller blank in
    Gone machine clock_of caller (0 + from_millis 30) end.0 end.1
wait_for_shutdown_ends_example =
    wait_for_shutdown_ends machine clock_of machine-IsTimed 2 caller blank (omega arith)

-- A machine that counts what it starts, where nothing ever answers.
abbrev counting : Os
counting = record machine { spawn = λ c m. (ok tt, record m { stops = suc m.stops }) }

counting-CountsSpawns : CountsSpawns counting stops_of
counting-CountsSpawns = record {
  spawned = λ c m. refl;
  connects = λ p m. refl;
  gets = λ s n m. ground arith;
  puts = λ s bytes m. refl;
  flushes = λ s m. refl;
  closes = λ s m. refl;
  loads = λ p m. ground arith;
  probes = λ z signal m. refl;
  reads = λ m. refl;
  sleeps = λ d m. refl;
}

request_spawns_example : stops_of (request counting 4 caller (codes "hi") blank).1 ≡ 1
unfolding send_request_once pid_file_points_to_live_process read_pid can_attempt_recovery
request_spawns_example =
    request_spawns counting stops_of counting-CountsSpawns 4 caller (codes "hi") blank

abbrev pub acking : List ℕ → List ℕ
acking bytes = wire FrameKind.shutdown_ack 0 [] ++ []

is_stopped : (shutdown (answering acking) 2 caller blank).0 ≡ ok true
unfolding shutdown read_frame write_frame decode encode kind_of wire from_be_bytes wait_for_shutdown
    shutdown_complete shutdown_loop pid_file_points_to_live_process read_pid
is_stopped = refl

shutdown_answers_example :
    Grounds (answering acking) caller blank (shutdown (answering acking) 2 caller blank).1 true
shutdown_answers_example = shutdown_answers (answering acking) 2 caller blank true is_stopped

request_returns_example : (request machine 4 caller (codes "hi") blank).0 ≢ err unfinished
request_returns_example =
    request_returns machine clock_of machine-IsTimed 3 1 caller (codes "hi") blank
      (omega arith, omega arith, omega arith, omega arith)
