-- ===== src/Daemon/Run.antt =====
-- `run_event_loop` and `run` of src/daemon.rs.
use sockd.Common.{ℕ, zero, suc, ◌-◌, false, Option, none, some, min, ◌==◌, if◌then◌else◌}
use sockd.Outcome.{
  Result, ok, err, Exec, Halt, raised, unfinished, pure, raise, lift, effect, silently, attempt,
  mapping_err, ◌>>=◌, ◌>>◌,
}
use sockd.Error.{Error, IoError, ErrorKind, FilePath, Duration, io, startup, shutdown}
use sockd.Os.{Os}
use sockd.Pidfile.{PidGuard, claim, drop_guard}
use sockd.Socket.{bind, cleanup}
use sockd.Daemon.{Daemon, ConnectionOutcome, go_on, stop, Running, on_world}
use sockd.Daemon.Connection.{poll_listener, process_connection}

abbrev pub sigint : ℕ
sigint = 2

abbrev pub sigterm : ℕ
sigterm = 15

-- How the inner loop is left: by `break`, with the time of the last activity, or by the `return`
-- of the whole loop.
pub data Drained : Type 0 where
  idle_since : ℕ → Drained
  finished : Drained

module _ (os : Os) where
  open os use {World, Stream, Listener, Flag}

  unfoldable pub install_shutdown_flag : Exec World Error Flag
  install_shutdown_flag = do
    flag ← effect os.new_flag
    mapping_err io (os.register sigint flag)
    mapping_err io (os.register sigterm flag)
    pure flag

  module _ {S : Type 0} (daemon : Daemon os.World S) where
    abbrev pub Loop : Type 0 → Type 0
    Loop A = Exec (Running World S) (Halt Error) A

    -- A stream that cannot be switched to blocking mode is dropped.
    unfoldable pub made_blocking : Stream → Result (Unit {0}) IoError → Loop (Unit {0})
    made_blocking stream (ok _) = pure tt
    made_blocking stream (err e) = do on_world (silently (os.close stream)); raise (raised (io e))

    unfoldable pub after_connection : (ℕ → Loop Drained) → ℕ → ConnectionOutcome → Loop Drained
    after_connection again last_activity go_on = again last_activity
    after_connection again last_activity stop = pure finished

    -- A stream in blocking mode; `again` is the next round of the inner loop.
    unfoldable pub visit : (ℕ → Loop Drained) → Stream → Loop Drained
    unfolding after_connection
    visit again stream = do
      now ← on_world (effect os.now)
      outcome ← mapping_err raised (process_connection os daemon stream)
      after_connection again now outcome

    -- The arms of the `match` on `accept`.
    unfoldable pub accepted : (ℕ → Loop Drained) → ℕ → Result Stream IoError → Loop Drained
    unfolding made_blocking visit
    accepted again last_activity (ok stream) = do
      answer ← on_world (attempt (os.stream_nonblocking stream false))
      made_blocking stream answer
      visit again stream
    accepted again last_activity (err e) = elim e.kind [
      | ErrorKind.would_block ↦ pure (idle_since last_activity)
      | _ ↦ raise (raised (io e))
    ]

    unfoldable pub drain : ℕ → Listener → ℕ → Loop Drained
    unfolding accepted
    drain zero listener last_activity = raise unfinished
    drain (suc fuel) listener last_activity = do
      answer ← on_world (attempt (os.accept listener))
      accepted (drain fuel listener) last_activity answer

    unfoldable pub after_drain : (ℕ → Loop (Unit {0})) → Drained → Loop (Unit {0})
    after_drain again (idle_since last_activity) = again last_activity
    after_drain again finished = pure tt

    -- A round of the outer loop from its `poll` on: the `continue`, or the inner loop `draining`.
    unfoldable pub poll_round :
        Listener → Duration → ℕ → Loop Drained → (ℕ → Loop (Unit {0})) → Loop (Unit {0})
    unfolding after_drain
    poll_round listener timeout last_activity draining again = do
      ready ← on_world (mapping_err raised (poll_listener os listener timeout))
      if ready then (do drained ← draining; after_drain again drained) else again last_activity

    -- The round from its start: the flag and the idle timeout.
    unfoldable pub loop_round :
        Flag → Listener → ℕ → Loop Drained → (ℕ → Loop (Unit {0})) → Loop (Unit {0})
    unfolding poll_round
    loop_round flag listener last_activity draining again = do
      stopped ← on_world (effect (os.load flag))
      if stopped then pure tt else do
        now ← on_world (effect os.now)
        let idle_remaining = daemon.config.idle_timeout - (now - last_activity)
        if idle_remaining == 0
            then pure tt
            else poll_round listener (min idle_remaining daemon.config.poll_interval) last_activity
                draining again

    -- The fuel bounds the rounds of the outer loop, and those of the inner loop in each round.
    unfoldable pub event_loop : ℕ → Flag → Listener → ℕ → Loop (Unit {0})
    unfolding loop_round
    event_loop zero flag listener last_activity = raise unfinished
    event_loop (suc fuel) flag listener last_activity =
        loop_round flag listener last_activity (drain fuel listener last_activity)
          (event_loop fuel flag listener)

    unfoldable pub run_event_loop : ℕ → Flag → Listener → Loop (Unit {0})
    run_event_loop fuel flag listener = do
      now ← on_world (effect os.now)
      event_loop fuel flag listener now

    -- From `drop(listener)` to the end of `run`, after a loop that has ended with `loop_result`.
    unfoldable pub wind_down : Listener → S → Result (Unit {0}) Error → Exec World Error (Unit {0})
    wind_down listener state loop_result = do
      silently (os.close_listener listener)
      cleanup_result ← attempt (cleanup os daemon.config.socket_path)
      stop_result ← attempt (mapping_err shutdown (daemon.on_stop state))
      lift loop_result
      lift cleanup_result
      lift stop_result

    unfoldable pub after_loop :
        Listener → S → Result (Unit {0}) (Halt Error) → Exec World (Halt Error) (Unit {0})
    unfolding wind_down
    after_loop listener state (ok _) = mapping_err raised (wind_down listener state (ok tt))
    after_loop listener state (err (raised e)) =
        mapping_err raised (wind_down listener state (err e))
    after_loop listener state (err unfinished) = raise unfinished

    -- The arms of the `match` on `socket::bind`.
    unfoldable pub bound : ℕ → Flag → S → Result Listener Error → Exec World (Halt Error) (Unit {0})
    unfolding after_loop
    bound fuel flag state (ok listener) w =
        let (loop_result, r) =
          run_event_loop fuel flag listener (record { app = state; world = w }) in
        after_loop listener r.app loop_result r.world
    bound fuel flag state (err e) w =
        mapping_err raised (do mapping_err shutdown (daemon.on_stop state); raise e) w

    -- `run` below the claim of the PID file.
    unfoldable pub serve : ℕ → Flag → Exec World (Halt Error) (Unit {0})
    unfolding bound
    serve fuel flag = do
      state ← mapping_err raised (mapping_err startup daemon.on_start)
      answer ← attempt (bind os daemon.config.socket_path)
      bound fuel flag state answer

    -- The guard is dropped when `run` returns, which it does not do while it is unfinished.
    unfoldable pub release : PidGuard → Result (Unit {0}) (Halt Error) → World → World
    release guard (ok _) w = drop_guard os guard w
    release guard (err (raised _)) w = drop_guard os guard w
    release guard (err unfinished) w = w

    unfoldable pub guarded :
        PidGuard → Exec World (Halt Error) (Unit {0}) → Exec World (Halt Error) (Unit {0})
    unfolding release
    guarded guard body w = let (r, w') = body w in (r, release guard r w')

    unfoldable pub owning : ℕ → Flag → Option FilePath → Exec World (Halt Error) (Unit {0})
    unfolding guarded
    owning fuel flag none = serve fuel flag
    owning fuel flag (some path) = do
      guard ← mapping_err raised (claim os path)
      guarded guard (serve fuel flag)

    unfoldable pub run : ℕ → Exec World (Halt Error) (Unit {0})
    unfolding owning
    run fuel = do
      flag ← mapping_err raised install_shutdown_flag
      owning fuel flag daemon.config.pid_file
