-- ===== src/Tests/Recoveries.antt =====
-- A request that starts the echoing daemon, which answers two nanoseconds later.
use sockd.Common.{
  ℕ, ◌+◌, ◌≡◌, refl, Bool, true, false, Option, none, some, [], arith, ltb, ◌==◌, codes,
  if◌then◌else◌,
}
use sockd.Common.Words.{from_be_bytes}
use sockd.Outcome.{ok, err}
use sockd.Error.{ErrorKind}
use sockd.Frame.{read_frame, write_frame, decode, encode, kind_of}
use sockd.Frame.Streams.{wire}
use sockd.Os.{Os}
use sockd.Daemon.Connection.{process_connection, dispatch}
use sockd.Client.{Client, matches_recoverable_connect_error}
use sockd.Client.Clock.{IsTimed}
use sockd.Client.Conversation.{IsConversation}
use sockd.Client.Waiting.{request, pid_file_points_to_live_process}
use sockd.Client.Recovery.{IsBooting, request_starts_daemon}
use sockd.Tests.Machine.{Machine, io_error, blank}
use sockd.Tests.Daemons.{machine-IsDuplex, incoming_of, outgoing_of, clock_of}
use sockd.Tests.Clients.{starter, caller, answering, echoing}

-- The time from which it answers stands in `stops`, where 0 means that nobody has started it.
abbrev due : Machine → Option ℕ
due m = if m.stops == 0 then none else some m.stops

abbrev is_up : Machine → Bool
is_up m = if m.stops == 0 then false else if ltb m.clock m.stops then false else true

abbrev booting : Os
booting = record (answering echoing) {
  connect = λ p m.
      if is_up m
      then (ok tt, record m { incoming = []; outgoing = [] })
      else (err (io_error ErrorKind.not_found), m);
  spawn = λ c m. (ok tt, record m { stops = m.clock + 2 });
}

abbrev pub visitor : Client
visitor = record caller { pid_file = none }

booting-IsTimed : IsTimed booting clock_of
booting-IsTimed = record {
  reads = λ m. refl;
  sleeps = λ d m. omega arith;
  connects = λ p m. ground arith;
  gets = λ s n m. ground arith;
  puts = λ s bytes m. omega arith;
  flushes = λ s m. omega arith;
  closes = λ s m. omega arith;
  looks = λ p m. ground arith;
  loads = λ p m. ground arith;
  probes = λ z signal m. omega arith;
}

booting-IsConversation : IsConversation booting tt incoming_of outgoing_of echoing
booting-IsConversation = record {
  reading = machine-IsDuplex.reading;
  writing = record {
    written = λ bytes m. refl;
    appended = λ bytes m. refl;
    flushed = λ m. refl;
    kept = λ m. refl;
  };
  answered = λ m. refl;
}

booting-IsBooting :
    IsBooting booting clock_of due visitor starter tt outgoing_of (io_error ErrorKind.not_found)
unfolding pid_file_points_to_live_process matches_recoverable_connect_error
booting-IsBooting = record {
  recoverable = refl;
  down = λ m h. ground arith;
  early = λ t m h k. ground arith;
  up = λ t m h k. ground arith;
  unowned = λ m h. (refl, h);
  starts = λ m h. (refl, (m.clock + 2, ground arith, omega arith));
  keeps = record {
    connects = λ p m. ground arith;
    gets = λ s n m. ground arith;
    puts = λ s bytes m. refl;
    flushes = λ s m. refl;
    closes = λ s m. refl;
  };
  sleeps = λ d m. refl;
}

request_starts_daemon_example : (request booting 4 visitor (codes "hi") blank).0 ≡ ok (codes "hi")
unfolding process_connection dispatch read_frame write_frame decode encode kind_of wire
    from_be_bytes
request_starts_daemon_example =
    request_starts_daemon booting clock_of booting-IsTimed due visitor starter tt incoming_of
      outgoing_of echoing booting-IsConversation (io_error ErrorKind.not_found) booting-IsBooting []
      [] 0 (omega arith) (omega arith) (omega arith) refl 3 1 (codes "hi") (codes "hi") [] 0 blank
      refl refl (omega arith) (omega arith) (omega arith) (omega arith) (omega arith) (omega arith)
      (omega arith) (omega arith) refl
