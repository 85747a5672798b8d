-- ===== src/Client/Spawning.antt =====
-- How often a request of src/client.rs starts the daemon.
use sockd.Common.{
  ℕ, zero, suc, ◌+◌, ◌≡◌, refl, ◌∙◌, Bool, true, false, Option, none, some, arith, List,
  if◌then◌else◌, inl, inr,
}
use sockd.Common.Int.{ℤ}
use sockd.Outcome.{Result, ok, err, Result-cases}
use sockd.Error.{Error, FilePath, Duration}
use sockd.Config.{AutoStart}
use sockd.Os.{Os, Command}
use sockd.Pidfile.{read_pid, is_process_alive}
use sockd.Process.{spawn_detached}
use sockd.Client.{Client, can_attempt_recovery, next_backoff}
use sockd.Client.Exchange.{send_request_once}
use sockd.Client.Kept.{KeepsView, try_ping_once-keeps, send_request_once-keeps}
use sockd.Client.Waiting.{
  alive_pid, live_at, pid_file_points_to_live_process, start_unless, ready_round, ready_loop,
  wait_for_ready, recover_with, recover_if_needed, requested, request,
}

-- `spawns` counts the calls of `Command::spawn`, which no other call adds to.
pub record CountsSpawns (os : Os) (spawns : os.World → ℕ) : Type 0 where
  pub spawned : (c : Command) (w : os.World) → spawns (os.spawn c w).1 ≡ suc (spawns w)
  pub connects : (p : FilePath) (w : os.World) → spawns (os.connect p w).1 ≡ spawns w
  pub gets :
      (s : os.Stream) (n : ℕ) (w : os.World) → spawns ((os.reader s).read_exact n w).1 ≡ spawns w
  pub puts :
      (s : os.Stream) (bytes : List ℕ) (w : os.World)
      → spawns ((os.writer s).write_all bytes w).1 ≡ spawns w
  pub flushes : (s : os.Stream) (w : os.World) → spawns ((os.writer s).flush w).1 ≡ spawns w
  pub closes : (s : os.Stream) (w : os.World) → spawns (os.close s w) ≡ spawns w
  pub loads : (p : FilePath) (w : os.World) → spawns (os.read_to_string p w).1 ≡ spawns w
  pub probes : (z : ℤ) (signal : ℕ) (w : os.World) → spawns (os.kill z signal w).1 ≡ spawns w
  pub reads : (w : os.World) → spawns (os.now w).1 ≡ spawns w
  pub sleeps : (d : Duration) (w : os.World) → spawns (os.sleep d w) ≡ spawns w

module _ (os : Os) where
  -- Whether an auto-start follows: the daemon is to be started only where it does not answer for a
  -- reason that starting it may mend, and the PID file was read and names no live process.
  abbrev starts_after : Option AutoStart → Error → Result Bool Error → ℕ
  starts_after none e live = 0
  starts_after (some a) e (err _) = 0
  starts_after (some a) e (ok true) = 0
  starts_after (some a) e (ok false) = if can_attempt_recovery e then 1 else 0

  abbrev starts_due : Client → Result (List ℕ) Error → os.World → ℕ
  starts_due c (ok _) w = 0
  starts_due c (err e) w = starts_after c.auto_start e (pid_file_points_to_live_process os c w).0

module _ (os : Os) (spawns : os.World → ℕ) (counts : CountsSpawns os spawns) where
  counts-KeepsView : KeepsView os spawns
  counts-KeepsView = record {
    connects = counts.connects;
    gets = counts.gets;
    puts = counts.puts;
    flushes = counts.flushes;
    closes = counts.closes;
  }

  live-spawns :
      (c : Client) (w : os.World) → spawns (pid_file_points_to_live_process os c w).1 ≡ spawns w
  unfolding pid_file_points_to_live_process live_at alive_pid read_pid is_process_alive
  live-spawns c w = grind (arith, counts.loads, counts.probes)

  ready_loop-spawns :
      (fuel : ℕ) (c : Client) (a : AutoStart) (deadline backoff : ℕ) (w : os.World)
      → spawns (ready_loop os fuel c a deadline backoff w).1 ≡ spawns w
  unfolding ready_loop ready_round
  ready_loop-spawns zero c a deadline backoff w = refl
  ready_loop-spawns (suc fuel) c a deadline backoff w = grind (
    arith,
    counts.reads,
    counts.sleeps,
    try_ping_once-keeps os spawns counts-KeepsView c w,
    ready_loop-spawns fuel c a deadline (next_backoff a.max_backoff backoff),
  )

  wait_for_ready-spawns :
      (fuel : ℕ) (c : Client) (a : AutoStart) (w : os.World)
      → spawns (wait_for_ready os fuel c a w).1 ≡ spawns w
  unfolding wait_for_ready
  wait_for_ready-spawns fuel c a w =
      ready_loop-spawns fuel c a ((os.now w).0 + a.ready_timeout) a.initial_backoff (os.now w).1
      ∙ counts.reads w

  recover_with-spawns :
      (fuel : ℕ) (c : Client) (start : Option AutoStart) (e : Error) (w : os.World)
      → spawns (recover_with os fuel c start e w).1
        ≡ spawns w + starts_after os start e (pid_file_points_to_live_process os c w).0
  unfolding recover_with start_unless spawn_detached
  recover_with-spawns fuel c none e w = ground arith
  recover_with-spawns fuel c (some a) e w =
      grind (arith, live-spawns c w, counts.spawned, wait_for_ready-spawns fuel c a)

  -- With `CountsSpawns`, a request calls `spawn` once where the first exchange failed with an error
  -- that starting the daemon may mend, auto-start is on, and the PID file was read after it and
  -- names no live process; and never otherwise, however long it waits and however it ends.
  pub request_spawns :
      (fuel : ℕ) (c : Client) (payload : List ℕ) (w : os.World)
      → let first = send_request_once os c payload w in
        spawns (request os fuel c payload w).1 ≡ spawns w + starts_due os c first.0 first.1
  unfolding request requested recover_if_needed
  request_spawns fuel c payload w = elim (Result-cases ((send_request_once os c payload w).0)) [
    | inl (response, done) ↦
        rw done (ground (arith, send_request_once-keeps os spawns counts-KeepsView c payload w))
    | inr (e, failed) ↦ rw failed (
        ground (
          arith,
          send_request_once-keeps os spawns counts-KeepsView c payload w,
          recover_with-spawns fuel c c.auto_start e (send_request_once os c payload w).1,
          send_request_once-keeps os spawns counts-KeepsView c payload
              (recover_with os fuel c c.auto_start e (send_request_once os c payload w).1).1,
        ))
  ]
