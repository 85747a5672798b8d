-- ===== src/Daemon/Stops.antt =====
-- How often `run` calls `on_stop`.
use sockd.Common.{ℕ, suc, ◌≡◌, ◌≢◌, refl, ap, ◌∙◌, arith}
use sockd.Outcome.{Result, ok, err, Halt, raised, unfinished}
use sockd.Error.{Error, BoxError, startup}
use sockd.Os.{Os}
use sockd.Socket.{bind, cleanup}
use sockd.Daemon.{Daemon, Running}
use sockd.Daemon.Run.{run_event_loop, wind_down, after_loop, bound, serve}
use sockd.Daemon.Kept.{KeepsLoop, run_event_loop-keeps}
use sockd.Socket.Kept.{KeepsBind, bind_keeps, cleanup_keeps}

-- `stops` counts the calls of `on_stop` in the machine's history: nothing else that a daemon calls
-- below the claim of its PID file moves the count.
pub record CountsStops (os : Os) {S : Type 0} (daemon : Daemon os.World S) (stops : os.World → ℕ)
    : Type 0 where
  pub looping : KeepsLoop os daemon stops
  pub binding : KeepsBind os daemon.config.socket_path stops
  pub on_start : (w : os.World) → stops (daemon.on_start w).1 ≡ stops w
  pub on_stop : (app : S) (w : os.World) → stops (daemon.on_stop app w).1 ≡ suc (stops w)

module _ (os : Os) {S : Type 0} (daemon : Daemon os.World S) (stops : os.World → ℕ)
    (counts : CountsStops os daemon stops) where
  wind_down-stops :
      (l : os.Listener) (state : S) (loop_result : Result (Unit {0}) Error) (w : os.World)
      → stops (wind_down os daemon l state loop_result w).1 ≡ suc (stops w)
  unfolding wind_down
  wind_down-stops l state loop_result w =
      let closed = os.close_listener l w in
      let p = daemon.config.socket_path in
      let cleaned = (cleanup os p closed).1 in
      ground (
        arith,
        counts.binding.close_listener l w,
        cleanup_keeps os p stops counts.binding closed,
        counts.on_stop state cleaned,
      )

  after_loop-stops :
      (l : os.Listener) (state : S) (loop_result : Result (Unit {0}) (Halt Error)) (w : os.World)
      → loop_result ≢ err unfinished
      → stops (after_loop os daemon l state loop_result w).1 ≡ suc (stops w)
  unfolding after_loop
  after_loop-stops l state (ok _) w h = wind_down-stops l state (ok tt) w
  after_loop-stops l state (err (raised e)) w h = wind_down-stops l state (err e) w
  after_loop-stops l state (err unfinished) w h = absurd (h refl)

  after_loop_unfinished :
      (l : os.Listener) (state : S) (loop_result : Result (Unit {0}) (Halt Error)) (w : os.World)
      → (after_loop os daemon l state loop_result w).0 ≢ err unfinished
      → loop_result ≢ err unfinished
  unfolding after_loop
  after_loop_unfinished l state loop_result w h e =
      h (ap (λ x. (after_loop os daemon l state x w).0) e)

  bound-stops :
      (fuel : ℕ) (flag : os.Flag) (state : S) (answer : Result os.Listener Error) (w : os.World)
      → (bound os daemon fuel flag state answer w).0 ≢ err unfinished
      → stops (bound os daemon fuel flag state answer w).1 ≡ suc (stops w)
  unfolding bound
  bound-stops fuel flag state (ok l) w h =
      let start : Running os.World S = record { app = state; world = w } in
      let (result, r) = run_event_loop os daemon fuel flag l start in
      after_loop-stops l r.app result r.world (after_loop_unfinished l r.app result r.world h)
      ∙ ap suc (run_event_loop-keeps os daemon stops counts.looping fuel flag l start)
  bound-stops fuel flag state (err e) w h = ground (arith, counts.on_stop state w)

  -- With `CountsStops`, from the start callback to the end of `run`: if the application has started,
  -- `on_stop` is called once by the time that `run` returns, whether the socket could be bound or
  -- not and whatever ended the loop.
  pub serve_stops_once :
      (fuel : ℕ) (flag : os.Flag) (state : S) (w : os.World)
      → (daemon.on_start w).0 ≡ ok state
      → (serve os daemon fuel flag w).0 ≢ err unfinished
      → stops (serve os daemon fuel flag w).1 ≡ suc (stops w)
  unfolding serve
  serve_stops_once fuel flag state w started returned =
      let w₁ = (daemon.on_start w).1 in
      let (answer, w₂) = bind os daemon.config.socket_path w₁ in
      let runs : serve os daemon fuel flag w ≡ bound os daemon fuel flag state answer w₂ =
        rw started in
      rw runs (
        bound-stops fuel flag state answer w₂ (λ e. returned (ap (λ x. x.0) runs ∙ e))
        ∙ ap suc
            (bind_keeps os daemon.config.socket_path stops counts.binding w₁ ∙ counts.on_start w))

  -- If it has not started, `run` fails with its error, and `on_stop` is not called.
  pub serve_start_failed :
      (fuel : ℕ) (flag : os.Flag) (e : BoxError) (w : os.World)
      → (daemon.on_start w).0 ≡ err e
      → ((serve os daemon fuel flag w).0 ≡ err (raised (startup e)))
        × (stops (serve os daemon fuel flag w).1 ≡ stops w)
  unfolding serve
  serve_start_failed fuel flag e w failed = rw failed (refl, counts.on_start w)
