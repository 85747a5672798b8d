-- ===== src/Daemon/Kept.antt =====
-- What the event loop of src/daemon.rs leaves alone: whatever its calls leave alone.
use sockd.Common.{ℕ, zero, suc, ◌-◌, min, inl, inr, ◌≡◌, refl, ◌∙◌, Bool, List, arith}
use sockd.Outcome.{Result, ok, err, Result-cases}
use sockd.Error.{IoError, Duration}
use sockd.Frame.{FrameKind, read_frame, write_frame}
use sockd.Os.{Os}
use sockd.Daemon.{Daemon, ConnectionOutcome, Running}
use sockd.Daemon.Connection.{dispatch, reply, process_connection, poll_listener}
use sockd.Daemon.Run.{
  Loop, Drained, idle_since, finished, made_blocking, visit, accepted, drain, poll_round,
  loop_round, event_loop, run_event_loop,
}

-- `view` is a part of the state that no call of the event loop changes.
pub record KeepsLoop {V : Type 0} (os : Os) {S : Type 0} (daemon : Daemon os.World S)
    (view : os.World → V) : Type 0 where
  pub load : (f : os.Flag) (w : os.World) → view (os.load f w).1 ≡ view w
  pub now : (w : os.World) → view (os.now w).1 ≡ view w
  pub poll : (l : os.Listener) (ms : ℕ) (w : os.World) → view (os.poll l ms w).1 ≡ view w
  pub accept : (l : os.Listener) (w : os.World) → view (os.accept l w).1 ≡ view w
  pub stream_nonblocking :
      (s : os.Stream) (b : Bool) (w : os.World) → view (os.stream_nonblocking s b w).1 ≡ view w
  pub close : (s : os.Stream) (w : os.World) → view (os.close s w) ≡ view w
  pub read_exact :
      (s : os.Stream) (n : ℕ) (w : os.World) → view ((os.reader s).read_exact n w).1 ≡ view w
  pub write_all :
      (s : os.Stream) (bytes : List ℕ) (w : os.World)
      → view ((os.writer s).write_all bytes w).1 ≡ view w
  pub flush : (s : os.Stream) (w : os.World) → view ((os.writer s).flush w).1 ≡ view w
  pub on_request :
      (app : S) (payload : List ℕ) (w : os.World)
      → view (daemon.on_request app payload w).1 ≡ view w

module _ (os : Os) {S : Type 0} (daemon : Daemon os.World S) {V : Type 0} (view : os.World → V)
    (kept : KeepsLoop os daemon view) where
  read_frame-keeps :
      (s : os.Stream) (max : ℕ) (w : os.World) → view (read_frame (os.reader s) max w).1 ≡ view w
  unfolding read_frame
  read_frame-keeps s max w = grind (arith, kept.read_exact)

  write_frame-keeps :
      (s : os.Stream) (kind : FrameKind) (payload : List ℕ) (w : os.World)
      → view (write_frame (os.writer s) kind payload w).1 ≡ view w
  unfolding write_frame
  write_frame-keeps s kind payload w = grind (arith, kept.write_all, kept.flush)

  reply-keeps :
      (s : os.Stream) (kind : FrameKind) (payload : List ℕ) (o : ConnectionOutcome)
      (r : Running os.World S)
      → view (reply os daemon s kind payload o r).1.world ≡ view r.world
  unfolding reply
  reply-keeps s kind payload o r = grind (arith, write_frame-keeps)

  dispatch-keeps :
      (s : os.Stream) (kind : FrameKind) (payload : List ℕ) (r : Running os.World S)
      → view (dispatch os daemon s kind payload r).1.world ≡ view r.world
  unfolding dispatch
  dispatch-keeps s kind payload r = grind (arith, write_frame-keeps, kept.on_request)

  process_connection-keeps :
      (s : os.Stream) (r : Running os.World S)
      → view (process_connection os daemon s r).1.world ≡ view r.world
  unfolding process_connection
  process_connection-keeps s r = grind (arith, read_frame-keeps, dispatch-keeps, kept.close)

  poll_listener-keeps :
      (l : os.Listener) (d : Duration) (w : os.World) → view (poll_listener os l d w).1 ≡ view w
  unfolding poll_listener
  poll_listener-keeps l d w = grind (arith, kept.poll)

  visit-keeps :
      (again : ℕ → Loop os daemon Drained)
      → ((last : ℕ) (r : Running os.World S) → view (again last r).1.world ≡ view r.world)
      → (s : os.Stream) (r : Running os.World S)
      → view (visit os daemon again s r).1.world ≡ view r.world
  unfolding visit
  visit-keeps again keeps s r =
      let noted = record r { world = (os.now r.world).1 } in
      let left = (process_connection os daemon s noted).1 in
      ground
        (arith, kept.now r.world, process_connection-keeps s noted, keeps (os.now r.world).0 left)

  made_blocking-keeps :
      (s : os.Stream) (answer : Result (Unit {0}) IoError) (r : Running os.World S)
      → view (made_blocking os daemon s answer r).1.world ≡ view r.world
  unfolding made_blocking
  made_blocking-keeps s (ok _) r = refl
  made_blocking-keeps s (err e) r = kept.close s r.world

  accepted-keeps :
      (again : ℕ → Loop os daemon Drained)
      → ((last : ℕ) (r : Running os.World S) → view (again last r).1.world ≡ view r.world)
      → (last : ℕ) (answer : Result os.Stream IoError) (r : Running os.World S)
      → view (accepted os daemon again last answer r).1.world ≡ view r.world
  unfolding accepted
  accepted-keeps again keeps last (ok s) r =
      grind (arith, visit-keeps again keeps, kept.stream_nonblocking, kept.close)
  accepted-keeps again keeps last (err e) r = ground arith

  drain-keeps :
      (fuel : ℕ) (l : os.Listener) (last : ℕ) (r : Running os.World S)
      → view (drain os daemon fuel l last r).1.world ≡ view r.world
  unfolding drain
  drain-keeps zero l last r = refl
  drain-keeps (suc fuel) l last r =
      accepted-keeps (drain os daemon fuel l) (drain-keeps fuel l) last _ _ ∙ kept.accept l r.world

  module _ (l : os.Listener) (last : ℕ) (draining : Loop os daemon Drained)
      (again : ℕ → Loop os daemon (Unit {0}))
      (keeps : (r : Running os.World S) → view (draining r).1.world ≡ view r.world)
      (keeps_again : (last : ℕ) (r : Running os.World S)
        → view (again last r).1.world ≡ view r.world) where
    poll_round-keeps :
        (d : Duration) (r : Running os.World S)
        → view (poll_round os daemon l d last draining again r).1.world ≡ view r.world
    unfolding poll_round
    poll_round-keeps d r =
        let polled = record r { world = (poll_listener os l d r.world).1 } in
        let drained = (draining polled).1 in
        elim (Result-cases (draining polled).0) [
          | inl (idle_since t, e) ↦ ground (
            arith,
            poll_listener-keeps l d r.world,
            keeps polled,
            keeps_again last polled,
            keeps_again t drained,
          )
          | inl (finished, e) ↦
              ground (arith, poll_listener-keeps l d r.world, keeps polled, keeps_again last polled)
          | inr (e', e) ↦
              ground (arith, poll_listener-keeps l d r.world, keeps polled, keeps_again last polled)
        ]

    loop_round-keeps :
        (flag : os.Flag) (r : Running os.World S)
        → view (loop_round os daemon flag l last draining again r).1.world ≡ view r.world
    unfolding loop_round
    loop_round-keeps flag r =
        let loaded = (os.load flag r.world).1 in
        let timed = record r { world = (os.now loaded).1 } in
        let left = daemon.config.idle_timeout - ((os.now loaded).0 - last) in
        ground (
          arith,
          kept.load flag r.world,
          kept.now loaded,
          poll_round-keeps (min left daemon.config.poll_interval) timed,
        )

  event_loop-keeps :
      (fuel : ℕ) (flag : os.Flag) (l : os.Listener) (last : ℕ) (r : Running os.World S)
      → view (event_loop os daemon fuel flag l last r).1.world ≡ view r.world
  unfolding event_loop
  event_loop-keeps zero flag l last r = refl
  event_loop-keeps (suc fuel) flag l last r =
      loop_round-keeps l last (drain os daemon fuel l last) (event_loop os daemon fuel flag l)
        (drain-keeps fuel l last) (event_loop-keeps fuel flag l) flag r

  pub run_event_loop-keeps :
      (fuel : ℕ) (flag : os.Flag) (l : os.Listener) (r : Running os.World S)
      → view (run_event_loop os daemon fuel flag l r).1.world ≡ view r.world
  unfolding run_event_loop
  run_event_loop-keeps fuel flag l r = event_loop-keeps fuel flag l _ _ ∙ kept.now r.world
