-- ===== src/Daemon/Lifetime.antt =====
-- `run` of src/daemon.rs from the claim of the PID file to its release.
use sockd.Common.{ℕ, ◌+◌, ◌≤◌, ◌<◌, ◌≡◌, arith, ap, ◌∙◌, some, List, length}
use sockd.Common.Words.{u32_max}
use sockd.Outcome.{Result, ok, err, Halt, raised, mapping_err}
use sockd.Error.{Error, IoError, ErrorKind, BoxError, FilePath, io, shutdown}
use sockd.Os.{Os}
use sockd.Pidfile.{claim, drop_guard}
use sockd.Socket.{bind, cleanup, cleaned}
use sockd.Daemon.{Daemon, Running}
use sockd.Daemon.Replies.{answer_bytes}
use sockd.Daemon.Queue.{Message, handled}
use sockd.Daemon.Schedule.{Life, AllAnswered, run_event_loop_serves}
use sockd.Daemon.Run.{
  install_shutdown_flag, after_loop, serve, wind_down, bound, release, run, run_event_loop,
}
use sockd.Daemon.Release.{run_claimed}

-- What `run` returns after a loop that ended well, by the removal of the socket file and `on_stop`.
unfoldable pub outcome :
    Result (Unit {0}) IoError → Result (Unit {0}) BoxError → Result (Unit {0}) (Halt Error)
outcome (ok _) (ok _) = ok tt
outcome (ok _) (err message) = err (raised (shutdown message))
outcome (err e) stop = elim e.kind [
  | ErrorKind.not_found ↦ elim stop [ ok _ ↦ ok tt | err message ↦ err (raised (shutdown message)) ]
  | _ ↦ err (raised (io e))
]

module _ (os : Os) {S : Type 0} (daemon : Daemon os.World S) where
  -- The start of `run` up to the event loop: every call succeeds.
  pub record IsStart (path : FilePath) (flag : os.Flag) (listener : os.Listener) (state : S)
      (started : ℕ) (before in_loop : os.World) : Type 0 where
    pub flagged : os.World
    pub claimed : os.World
    pub ready : os.World
    pub listening : os.World
    pub configured : daemon.config.pid_file ≡ some path
    pub installs : install_shutdown_flag os before ≡ (ok flag, flagged)
    pub claims : claim os path flagged ≡ (ok (record { path = path }), claimed)
    pub starts : daemon.on_start claimed ≡ (ok state, ready)
    pub binds : bind os daemon.config.socket_path ready ≡ (ok listener, listening)
    pub reads : os.now listening ≡ (started, in_loop)

  module _ (path : FilePath) (flag : os.Flag) (listener : os.Listener)
      (handle : S → List ℕ → Result (List ℕ) BoxError × S)
      (handles : (a : S) (p : List ℕ) (w : os.World) → daemon.on_request a p w ≡ (handle a p, w))
      (short : (a : S) (p : List ℕ)
        → length p ≤ daemon.config.max_payload_len
        → length (answer_bytes (handle a p).0) ≤ u32_max) where
    abbrev after : S → List Message → S
    after a messages = handled os daemon listener handle handles short a messages

    abbrev removed : Running os.World S → Result (Unit {0}) IoError × os.World
    removed end = os.remove_file daemon.config.socket_path (os.close_listener listener end.world)

    abbrev stopped : Running os.World S → Result (Unit {0}) BoxError × os.World
    stopped end = daemon.on_stop end.app (removed end).1

    winding_lem :
        (end : Running os.World S)
        → mapping_err raised (wind_down os daemon listener end.app (ok tt)) end.world
          ≡ (outcome (removed end).0 (stopped end).0, (stopped end).1)
    unfolding outcome wind_down cleanup cleaned
    winding_lem end = ground arith

    released :
        (gone : Result (Unit {0}) IoError) (stop : Result (Unit {0}) BoxError) (v : os.World)
        → release os daemon (record { path = path }) (outcome gone stop) v
          ≡ (os.remove_file path v).1
    unfolding outcome release drop_guard
    released gone stop v = ground arith

    module _ (fuel started rounds : ℕ) (messages : List Message) (state : S)
        (before in_loop : os.World) (end : Running os.World S)
        (start : IsStart path flag listener state started before in_loop)
        (life : Life os daemon flag listener rounds messages started
          (record { app = state; world = in_loop })
          end)
        (enough : rounds + length messages < fuel) where
      looped :
          (run_event_loop os daemon fuel flag listener
              (record { app = state; world = start.listening })
            ≡ (ok tt, end))
          × AllAnswered os daemon flag listener handle handles short life
          × (end.app ≡ after state messages)
      looped =
          run_event_loop_serves os daemon flag listener handle handles short fuel started rounds
            messages (record { app = state; world = start.listening }) end in_loop start.reads life
            enough

      serve_lem :
          serve os daemon fuel flag start.claimed
          ≡ (outcome (removed end).0 (stopped end).0, (stopped end).1)
      unfolding serve bound after_loop
      serve_lem = rw (start.starts, start.binds, looped.0) (winding_lem end)

      -- The daemon has a PID file and starts without an error, its handler leaves the machine alone
      -- and its answers to what the payload limit allows fit a frame. Whatever clients come, in
      -- whatever rounds, with frames within that limit and of whatever kinds, until the signal, the
      -- idle timeout or a `Shutdown` frame: each of them gets the reply of the protocol, in order
      -- (the handler's answer or its error's text to a request, and what the kind asks for
      -- otherwise). Then run drops the listener, removes the socket file, calls on_stop on the
      -- handler's state after all requests, removes the PID file, and returns: with the error of the
      -- removal of the socket, unless that was not there, then with that of on_stop, and without one
      -- if there is neither. More fuel than rounds and clients is enough.
      pub run_serves :
          AllAnswered os daemon flag listener handle handles short life
          × (let gone =
                os.remove_file daemon.config.socket_path (os.close_listener listener end.world) in
              let stop = daemon.on_stop (after state messages) gone.1 in
              run os daemon fuel before ≡ (outcome gone.0 stop.0, (os.remove_file path stop.1).1))
      run_serves = (
        looped.1,
        run_claimed os daemon path before start.flagged flag start.configured start.installs fuel
              start.claimed start.claims
            ∙ ap (λ x. (x.0, release os daemon (record { path = path }) x.0 x.1)) serve_lem
            ∙ ap (λ v. (outcome (removed end).0 (stopped end).0, v))
                (released (removed end).0 (stopped end).0 (stopped end).1)
            ∙ ap
                (λ a.
                  let stop = daemon.on_stop a (removed end).1 in
                  (outcome (removed end).0 stop.0, (os.remove_file path stop.1).1))
                looped.2,
      )
