-- ===== src/Tests/Backoffs.antt =====
-- The sleeps of wait_for_ready in src/client.rs, where nothing ever answers.
use sockd.Common.{ℕ, ◌+◌, ◌≤◌, ◌≡◌, refl, [], ◌∷◌, ◌++◌, arith}
use sockd.Outcome.{pure}
use sockd.Os.{Os}
use sockd.Client.{can_attempt_recovery, next_backoff}
use sockd.Client.Exchange.{try_ping_once}
use sockd.Client.Waiting.{ready_loop, ready_round, wait_for_ready}
use sockd.Client.Clock.{IsTimed}
use sockd.Client.Backoff.{LogsSleeps, backoffs, nth_backoff, total, wait_for_ready_backs_off}
use sockd.Tests.Machine.{machine, blank}
use sockd.Tests.Daemons.{clock_of, outgoing_of}
use sockd.Tests.Clients.{starter, caller}

-- A machine that writes its sleeps where others write bytes.
abbrev logging : Os
logging = record machine {
  writer = λ s. record { write_all = λ bytes. pure tt; flush = pure tt };
  sleep = λ d m. record m { clock = m.clock + d; outgoing = m.outgoing ++ d ∷ [] };
}

logging-IsTimed : IsTimed logging clock_of
logging-IsTimed = record {
  reads = λ m. refl;
  sleeps = λ d m. omega arith;
  connects = λ p m. omega arith;
  gets = λ s n m. ground arith;
  puts = λ s bytes m. omega arith;
  flushes = λ s m. omega arith;
  closes = λ s m. omega arith;
  looks = λ p m. ground arith;
  loads = λ p m. ground arith;
  probes = λ z signal m. omega arith;
}

logging-LogsSleeps : LogsSleeps logging outgoing_of
logging-LogsSleeps = record {
  keeps = record {
    connects = λ p m. refl;
    gets = λ s n m. ground arith;
    puts = λ s bytes m. refl;
    flushes = λ s m. refl;
    closes = λ s m. refl;
  };
  sleeps = λ d m. refl;
}

-- One nanosecond and two, and then the three of the ready timeout have passed.
sleeps_twice : outgoing_of (wait_for_ready logging 4 caller starter blank).1 ≡ backoffs starter 0 2
unfolding wait_for_ready ready_loop ready_round try_ping_once can_attempt_recovery next_backoff
    backoffs nth_backoff
sleeps_twice = refl

wait_for_ready_backs_off_example :
    (n : ℕ) × (outgoing_of (wait_for_ready logging 4 caller starter blank).1
      ≡ [] ++ backoffs starter 0 n)
    × (total (backoffs starter 0 n) ≤ 3 + 2)
wait_for_ready_backs_off_example =
    wait_for_ready_backs_off logging clock_of logging-IsTimed outgoing_of logging-LogsSleeps caller
      starter 2 (omega arith) (omega arith) 4 blank (omega arith)
