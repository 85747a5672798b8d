-- ===== src/Tests/Departures.antt =====
-- A daemon that acknowledges a Shutdown frame and is gone 25 milliseconds after the start.
use sockd.Common.{◌≡◌, refl, true, [], arith, ltb, if◌then◌else◌}
use sockd.Outcome.{ok, err}
use sockd.Error.{ErrorKind}
use sockd.Os.{Os}
use sockd.Client.Clock.{IsTimed}
use sockd.Client.Conversation.{IsConversation}
use sockd.Client.Waiting.{shutdown, pid_file_points_to_live_process}
use sockd.Client.Departure.{IsLeaving, shutdown_succeeds}
use sockd.Tests.Machine.{io_error, blank}
use sockd.Tests.Daemons.{machine-IsDuplex, incoming_of, outgoing_of, clock_of}
use sockd.Tests.Clients.{answering, acking}
use sockd.Tests.Recoveries.{visitor}

abbrev going : Os
going = record (answering acking) {
  metadata =
      λ p m. if ltb m.clock 25_000_000 then (ok tt, m) else (err (io_error ErrorKind.not_found), m);
}

going-IsTimed : IsTimed going clock_of
going-IsTimed = record {
  reads = λ m. refl;
  sleeps = λ d m. omega arith;
  connects = λ p m. omega arith;
  gets = λ s n m. ground arith;
  puts = λ s bytes m. omega arith;
  flushes = λ s m. omega arith;
  closes = λ s m. omega arith;
  looks = λ p m. ground arith;
  loads = λ p m. ground arith;
  probes = λ z signal m. omega arith;
}

going-IsLeaving : IsLeaving going clock_of visitor 25_000_000 (io_error ErrorKind.not_found)
unfolding pid_file_points_to_live_process
going-IsLeaving = record {
  absent_kind = refl;
  there = λ m h. ground arith;
  removed = λ m h. ground arith;
  released = λ m h. refl;
}

going-IsConversation : IsConversation going tt incoming_of outgoing_of acking
going-IsConversation = record {
  reading = machine-IsDuplex.reading;
  writing = record {
    written = λ bytes m. refl;
    appended = λ bytes m. refl;
    flushed = λ m. refl;
    kept = λ m. refl;
  };
  answered = λ m. refl;
}

shutdown_succeeds_example : (shutdown going 3 visitor blank).0 ≡ ok true
shutdown_succeeds_example =
    shutdown_succeeds going clock_of going-IsTimed visitor 25_000_000 (io_error ErrorKind.not_found)
      going-IsLeaving tt incoming_of outgoing_of acking going-IsConversation [] [] 0 (omega arith)
      (omega arith) (omega arith) refl 2 blank blank refl refl (omega arith) (omega arith)
