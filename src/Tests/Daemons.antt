-- ===== src/Tests/Daemons.antt =====
-- src/daemon.rs at concrete daemons.
use sockd.Common.{ℕ, suc, ◌+◌, ◌≤◌, ◌≡◌, refl, true, some, List, [], ◌++◌, arith, codes}
use sockd.Common.Words.{from_be_bytes}
use sockd.Outcome.{ok, err, pure, raised}
use sockd.Error.{io}
use sockd.Frame.{FrameKind, encode, decode, kind_of, read_frame}
use sockd.Frame.Streams.{eof, wire}
use sockd.Os.{Os, polled}
use sockd.Daemon.{Daemon, Running, go_on}
use sockd.Daemon.Connection.{process_connection, poll_listener}
use sockd.Daemon.Duplex.{IsDuplex}
use sockd.Daemon.Replies.{answers_request}
use sockd.Daemon.Run.{run_event_loop, event_loop}
use sockd.Daemon.Idle.{IsCalm, run_event_loop_times_out}
use sockd.Daemon.Visits.{IsVisit, hang_up_ends_loop}
use sockd.Tests.Machine.{Machine, machine, blank}
use sockd.Tests.Pidfiles.{pid_path}

-- A daemon that echoes what it gets and counts its requests.
abbrev pub echo : Daemon Machine ℕ
echo = record {
  config = record {
    socket_path = codes "/tmp/sockd.sock";
    pid_file = some pid_path;
    idle_timeout = 3;
    poll_interval = 250_000_000;
    max_payload_len = 100;
  };
  on_start = pure 0;
  on_request = λ n payload m. ((ok payload, n + 1), m);
  on_stop = λ n m. (ok tt, record m { stops = suc m.stops });
}

abbrev pub incoming_of : Machine → List ℕ
incoming_of m = m.incoming

abbrev pub outgoing_of : Machine → List ℕ
outgoing_of m = m.outgoing

abbrev pub clock_of : Machine → ℕ
clock_of m = m.clock

abbrev pub stops_of : Machine → ℕ
stops_of m = m.stops

pub machine-IsDuplex : IsDuplex machine tt incoming_of outgoing_of
machine-IsDuplex = record {
  reading = record {
    given = λ n m h. ground arith;
    left = λ n m h. ground arith;
    at_end = λ n m h. ground arith;
  };
  writing = record {
    written = λ bytes m. refl;
    appended = λ bytes m. refl;
    flushed = λ m. refl;
    kept = λ m. refl;
  };
  read_keeps = λ n m. ground arith;
  close_keeps = λ m. refl;
}

machine-IsCalm : IsCalm machine tt tt clock_of
machine-IsCalm = record {
  unset = λ m. refl;
  reads = λ m. refl;
  times_out = λ ms m. refl;
  passes = λ ms m. omega arith;
}

abbrev getting : FrameKind → List ℕ → Running Machine ℕ
getting kind payload = record {
  app = 5;
  world = record blank { incoming = wire kind 0 payload ++ [] };
}

answers_request_example :
    let r = getting FrameKind.request (codes "hi") in
    ((process_connection machine echo tt r).0 ≡ ok go_on)
    × (outgoing_of (process_connection machine echo tt r).1.world
        ≡ outgoing_of r.world ++ wire FrameKind.response 0 (codes "hi"))
    × ((process_connection machine echo tt r).1.app ≡ 6)
unfolding read_frame decode encode kind_of wire from_be_bytes
answers_request_example =
    answers_request machine echo tt incoming_of outgoing_of machine-IsDuplex FrameKind.request 0
      (codes "hi") [] (getting FrameKind.request (codes "hi")) (omega arith) (omega arith)
      (omega arith) refl (codes "hi") 6 (record blank { incoming = [] }) refl refl refl
      (omega arith)

-- A machine on which somebody has connected.
abbrev visited : Os
visited = record machine { poll = λ l ms m. (polled 1 true, m); accept = λ l m. (ok tt, m) }

abbrev VisitedBy : Running Machine ℕ → Type 0
VisitedBy r = IsVisit visited echo tt tt 0 tt r r.world

visit_of : (r : Running Machine ℕ) → r.world.clock ≡ 0 → VisitedBy r
unfolding poll_listener
visit_of r at_start = record {
  loaded = r.world;
  timed = r.world;
  polled = r.world;
  accepted = r.world;
  blocking = r.world;
  time = r.world.clock;
  activity = r.world.clock;
  unset = refl;
  read = refl;
  early = rw at_start;
  ready = refl;
  accepts = refl;
  made_blocking = refl;
  noted = refl;
}

visited-IsDuplex : IsDuplex visited tt incoming_of outgoing_of
visited-IsDuplex = record {
  reading = machine-IsDuplex.reading;
  writing = machine-IsDuplex.writing;
  read_keeps = machine-IsDuplex.read_keeps;
  close_keeps = machine-IsDuplex.close_keeps;
}

abbrev silent : Running Machine ℕ
silent = record { app = 5; world = blank }

hang_up_ends_loop_example : (event_loop visited echo 2 tt tt 0 silent).0 ≡ err (raised (io eof))
hang_up_ends_loop_example =
    hang_up_ends_loop visited echo tt tt 0 tt silent blank (visit_of silent refl) 0 incoming_of
      visited-IsDuplex.reading (omega arith)

run_event_loop_times_out_example :
    let r : Running Machine ℕ = record { app = 5; world = blank } in
    let end = run_event_loop machine echo 4 tt tt r in
    (end.0 ≡ ok tt) × (end.1.app ≡ 5) × (0 + 3 ≤ clock_of end.1.world)
run_event_loop_times_out_example =
    run_event_loop_times_out machine echo tt tt clock_of machine-IsCalm 4
      (record { app = 5; world = blank }) (omega arith)
