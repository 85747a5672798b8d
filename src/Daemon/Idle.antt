-- ===== src/Daemon/Idle.antt =====
-- The idle timeout of the event loop.
use sockd.Common.{
  ℕ, zero, suc, ◌+◌, ◌-◌, ◌≤◌, ◌<◌, ◌≡◌, refl, false, arith, min, inl, inr, ◌==◌, if◌then◌else◌,
  Bool-cases,
}
use sockd.Outcome.{ok}
use sockd.Os.{Os, polled}
use sockd.Daemon.{Daemon, Running}
use sockd.Daemon.Connection.{poll_millis, poll_listener}
use sockd.Daemon.Run.{Loop, Drained, drain, loop_round, event_loop, run_event_loop}

-- No signal arrives and nobody connects: `poll` runs into its timeout, and time passes while it
-- waits. `clock` is the time that `Instant::now` reads.
pub record IsCalm (os : Os) (flag : os.Flag) (listener : os.Listener) (clock : os.World → ℕ)
    : Type 0 where
  pub unset : (w : os.World) → os.load flag w ≡ (false, w)
  pub reads : (w : os.World) → os.now w ≡ (clock w, w)
  pub times_out : (ms : ℕ) (w : os.World) → (os.poll listener ms w).0 ≡ polled 0 false
  pub passes : (ms : ℕ) (w : os.World) → clock w < clock (os.poll listener ms w).1

module _ (os : Os) {S : Type 0} (daemon : Daemon os.World S) (flag : os.Flag)
    (listener : os.Listener) (clock : os.World → ℕ) (calm : IsCalm os flag listener clock) where
  abbrev remaining : ℕ → os.World → ℕ
  remaining last w = daemon.config.idle_timeout - (clock w - last)

  -- How long `poll` is told to wait, in milliseconds.
  abbrev wait : ℕ → Running os.World S → ℕ
  wait last r = poll_millis (min (remaining last r.world) daemon.config.poll_interval)

  -- The state after a round in which nobody connects.
  abbrev waited : ℕ → Running os.World S → Running os.World S
  waited last r = record r { world = (os.poll listener (wait last r) r.world).1 }

  calm_round :
      (draining : Loop os daemon Drained) (again : ℕ → Loop os daemon (Unit {0})) (last : ℕ)
      (r : Running os.World S)
      → loop_round os daemon flag listener last draining again r
        ≡ (if remaining last r.world == 0 then (ok tt, r) else again last (waited last r))
  unfolding loop_round poll_listener
  calm_round draining again last r =
      rw (calm.unset r.world, calm.reads r.world)
        (ground (arith, calm.times_out (wait last r) r.world))

  event_loop_round :
      (fuel last : ℕ) (r : Running os.World S)
      → event_loop os daemon (suc fuel) flag listener last r ≡ (
          if remaining last r.world == 0
          then (ok tt, r)
          else event_loop os daemon fuel flag listener last (waited last r))
  unfolding event_loop
  event_loop_round fuel last r =
      calm_round (drain os daemon fuel listener last) (event_loop os daemon fuel flag listener) last
        r

  event_loop_times_out :
      (fuel last : ℕ) (r : Running os.World S)
      → last ≤ clock r.world
      → remaining last r.world < fuel
      → let end = event_loop os daemon fuel flag listener last r in
        (end.0 ≡ ok tt)
        × (end.1.app ≡ r.app)
        × (last + daemon.config.idle_timeout ≤ clock end.1.world)
  event_loop_times_out zero last r past h = elim h [ ]
  event_loop_times_out (suc fuel) last r past h = elim (Bool-cases (remaining last r.world == 0)) [
    | inl over ↦ rw event_loop_round (rw over (refl, refl, ground arith))
    | inr early ↦
        let later = calm.passes (wait last r) r.world in
        rw event_loop_round
          (rw early (event_loop_times_out fuel last (waited last r) (omega arith) (ground arith)))
  ]

  -- Where no signal arrives, nobody connects and time passes in every `poll`, the loop ends without
  -- an error after as many rounds as the idle timeout has nanoseconds, or fewer. The application
  -- keeps its state, and at the end the whole timeout has passed.
  pub run_event_loop_times_out :
      (fuel : ℕ) (r : Running os.World S)
      → daemon.config.idle_timeout < fuel
      → let end = run_event_loop os daemon fuel flag listener r in
        (end.0 ≡ ok tt)
        × (end.1.app ≡ r.app)
        × (clock r.world + daemon.config.idle_timeout ≤ clock end.1.world)
  unfolding run_event_loop
  run_event_loop_times_out fuel r h =
      rw (calm.reads r.world)
        (event_loop_times_out fuel (clock r.world) r (omega arith) (omega arith))
