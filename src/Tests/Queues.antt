-- ===== src/Tests/Queues.antt =====
-- `run` of src/daemon.rs with a client that waits, and two that come later, one of them to stop it.
use sockd.Common.{
  ℕ, ◌+◌, ◌*◌, ◌≤◌, ◌<◌, ◌≡◌, ◌≢◌, true, false, refl, none, some, List, [], ◌∷◌, ◌++◌, arith, ◌==◌,
  length, codes, if◌then◌else◌,
}
use sockd.Common.Words.{from_be_bytes}
use sockd.Outcome.{Result, ok, err}
use sockd.Error.{BoxError, ErrorKind}
use sockd.Frame.{FrameKind, encode, decode, kind_of, read_frame, write_frame}
use sockd.Frame.Streams.{wire}
use sockd.Os.{Os, polled}
use sockd.Daemon.{Running}
use sockd.Daemon.Connection.{process_connection, dispatch, poll_listener, poll_millis}
use sockd.Daemon.Duplex.{IsDuplex}
use sockd.Daemon.Queue.{Message, Queue, IsClient}
use sockd.Daemon.Replies.{answer_bytes}
use sockd.Common.Words.{u32_max}
use sockd.Daemon.Schedule.{IsRound, Life, AllAnswered}
use sockd.Daemon.Run.{idle_since, finished, install_shutdown_flag, run}
use sockd.Daemon.Lifetime.{IsStart, outcome, run_serves}
use sockd.Pidfile.{claim}
use sockd.Socket.{bind}
use sockd.Text.Decimal.{show}
use sockd.Tests.Pidfiles.{pid_path}
use sockd.Tests.Machine.{Machine, update, machine, io_error, blank}
use sockd.Tests.Daemons.{echo, machine-IsDuplex, incoming_of, outgoing_of}

abbrev hi : List ℕ
hi = wire FrameKind.request 0 (codes "hi")

abbrev ping : List ℕ
ping = wire FrameKind.ping 0 []

abbrev halt : List ℕ
halt = wire FrameKind.shutdown 0 []

-- A machine on which a client waits while there are bytes to read. While a `poll` waits in vain, two
-- clients come.
abbrev waiting : Os
waiting = record machine {
  accept = λ l m.
      if length m.incoming == 0 then (err (io_error ErrorKind.would_block), m) else (ok tt, m);
  poll = λ l ms m.
      if length m.incoming == 0
      then (
        polled 0 false,
        record m { clock = m.clock + 1 + ms * 1_000_000; incoming = ping ++ halt },
      )
      else (polled 1 true, m);
}

waiting-IsDuplex : IsDuplex waiting tt incoming_of outgoing_of
waiting-IsDuplex = record {
  reading = machine-IsDuplex.reading;
  writing = machine-IsDuplex.writing;
  read_keeps = machine-IsDuplex.read_keeps;
  close_keeps = machine-IsDuplex.close_keeps;
}

-- A client waits for a daemon that has not started, and it writes its PID file first.
abbrev raw : Machine
raw = record blank { incoming = hi }

abbrev in_loop : Machine
in_loop = record raw {
  files = update (update (λ p. none) pid_path (some [])) pid_path (some (codes "4242\n"));
}

abbrev start : Running Machine ℕ
start = record { app = 0; world = in_loop }

abbrev served : Running Machine ℕ → Running Machine ℕ
served r = (process_connection waiting echo tt r).1

abbrev after_hi : Running Machine ℕ
after_hi = served start

abbrev refilled : Running Machine ℕ
refilled = record after_hi { world = record after_hi.world { clock = 1; incoming = ping ++ halt } }

abbrev after_ping : Running Machine ℕ
after_ping = served refilled

abbrev after_halt : Running Machine ℕ
after_halt = served after_ping

abbrev is_client :
    (message : Message) (rest : List ℕ) (r : Running Machine ℕ)
    → length message.1 ≤ 100
    → (length r.world.incoming == 0) ≡ false
    → r.world.incoming ≡ wire message.0 0 message.1 ++ rest
    → IsClient waiting echo tt message tt r r.world
is_client message rest r short some_bytes sent = record {
  accepted = r.world;
  blocking = r.world;
  activity = r.world.clock;
  flags = 0;
  rest = rest;
  input = incoming_of;
  output = outgoing_of;
  accepts = rw some_bytes refl;
  made_blocking = refl;
  noted = refl;
  duplex = waiting-IsDuplex;
  word = omega arith;
  fits = omega (arith, short);
  allowed = omega (arith, short);
  sent = sent;
}

request_differs : FrameKind.request ≢ FrameKind.shutdown
request_differs e = cc

ping_differs : FrameKind.ping ≢ FrameKind.shutdown
ping_differs e = cc

abbrev hi_waits :
    Queue waiting echo tt 0 ((FrameKind.request, codes "hi") ∷ []) start (idle_since 0) after_hi
unfolding process_connection dispatch read_frame write_frame decode encode kind_of wire
    from_be_bytes
hi_waits =
    Queue.client tt start.world request_differs
      (is_client (FrameKind.request, codes "hi") [] start (omega arith) refl refl)
      (Queue.nobody (io_error ErrorKind.would_block) after_hi.world refl refl)

abbrev both_wait :
    Queue waiting echo tt 0
      ((FrameKind.ping, []) ∷ (FrameKind.shutdown, []) ∷ [])
      refilled
      finished
      after_halt
unfolding process_connection dispatch read_frame write_frame decode encode kind_of wire
    from_be_bytes
both_wait =
    Queue.client tt refilled.world ping_differs
      (is_client (FrameKind.ping, []) halt refilled (omega arith) refl refl)
      (Queue.stopper tt after_ping.world
        (is_client (FrameKind.shutdown, []) [] after_ping (omega arith) refl refl))

abbrev echoed : ℕ → List ℕ → Result (List ℕ) BoxError × ℕ
echoed n payload = (ok payload, n + 1)

abbrev busy-IsRound :
    (r : Running Machine ℕ)
    → r.world.clock < 3
    → (length r.world.incoming == 0) ≡ false
    → IsRound waiting echo tt tt 0 r true r.world
unfolding poll_listener
busy-IsRound r h some_bytes = record {
  loaded = r.world;
  looked = r.world;
  now = r.world.clock;
  unset = refl;
  read = refl;
  early = omega (arith, h);
  polls = rw some_bytes refl;
}

abbrev quiet-IsRound : IsRound waiting echo tt tt 0 after_hi false refilled.world
unfolding poll_listener poll_millis process_connection dispatch read_frame write_frame decode encode
    kind_of wire from_be_bytes
quiet-IsRound = record {
  loaded = after_hi.world;
  looked = after_hi.world;
  now = 0;
  unset = refl;
  read = refl;
  early = omega arith;
  polls = refl;
}

abbrev all_come : List Message
all_come = (FrameKind.request, codes "hi") ∷ (FrameKind.ping, []) ∷ (FrameKind.shutdown, []) ∷ []

abbrev three_rounds : Life waiting echo tt tt 3 all_come 0 start after_halt
unfolding process_connection dispatch read_frame write_frame decode encode kind_of wire
    from_be_bytes
three_rounds = Life.busy 0 start.world (busy-IsRound start (omega arith) refl) hi_waits (
    Life.quiet refilled.world quiet-IsRound
      (Life.stopped refilled.world (busy-IsRound refilled (omega arith) refl) both_wait))

starts : IsStart waiting echo pid_path tt tt 0 0 raw in_loop
unfolding install_shutdown_flag claim show bind
starts = record {
  flagged = raw;
  claimed = in_loop;
  ready = in_loop;
  listening = in_loop;
  configured = refl;
  installs = refl;
  claims = refl;
  starts = refl;
  binds = refl;
  reads = refl;
}

abbrev calm : (n : ℕ) (p : List ℕ) (m : Machine) → echo.on_request n p m ≡ (echoed n p, m)
calm n p m = refl

abbrev short :
    (n : ℕ) (p : List ℕ)
    → length p ≤ echo.config.max_payload_len
    → length (answer_bytes (echoed n p).0) ≤ u32_max
short n p h = omega arith

-- There was no socket file to remove, and `on_stop` succeeds.
run_serves_example :
    AllAnswered waiting echo tt tt echoed calm short three_rounds
    × (let gone =
          waiting.remove_file echo.config.socket_path
            (waiting.close_listener tt after_halt.world) in
        let stop = echo.on_stop 1 gone.1 in
        run waiting echo 7 raw ≡ (outcome gone.0 stop.0, (waiting.remove_file pid_path stop.1).1))
run_serves_example =
    run_serves waiting echo pid_path tt tt echoed calm short 7 0 3 all_come 0 raw in_loop after_halt
      starts three_rounds (omega arith)
