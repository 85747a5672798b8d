-- ===== src/Daemon/Visits.antt =====
-- What one connection does to the event loop.
use sockd.Common.{
  ℕ, suc, ◌-◌, ◌≤◌, ◌<◌, ◌^◌, ◌≡◌, refl, ap, ◌∙◌, true, false, List, [], ◌++◌, length, min, ◌==◌,
}
use sockd.Common.Words.{u32_max}
use sockd.Outcome.{ok, err, raised, ◌>>=◌}
use sockd.Error.{Error, io}
use sockd.Frame.{FrameKind, header_len}
use sockd.Frame.Streams.{ReadsFrom, eof, wire}
use sockd.Frame.Receiving.{read_frame-truncated_header}
use sockd.Os.{Os}
use sockd.Daemon.{Daemon, Running, go_on, stop}
use sockd.Daemon.Connection.{poll_listener, exchange, process_connection}
use sockd.Daemon.Duplex.{IsDuplex}
use sockd.Daemon.Replies.{answers_other}
use sockd.Daemon.Run.{Loop, Drained, finished, after_drain, drain, loop_round, event_loop}

module _ (os : Os) {S : Type 0} (daemon : Daemon os.World S) where
  -- A round of the loop in the state `r` accepts the stream `s`: the flag is not set, the idle
  -- timeout has not passed, `poll` reports the listener and `accept` gives the stream. What
  -- `process_connection` is called in is the world `arrived`.
  pub record IsVisit (flag : os.Flag) (listener : os.Listener) (last : ℕ) (s : os.Stream)
      (r : Running os.World S) (arrived : os.World) : Type 0 where
    pub loaded : os.World
    pub timed : os.World
    pub polled : os.World
    pub accepted : os.World
    pub blocking : os.World
    pub time : ℕ
    pub activity : ℕ
    pub unset : os.load flag r.world ≡ (false, loaded)
    pub read : os.now loaded ≡ (time, timed)
    pub early : (daemon.config.idle_timeout - (time - last) == 0) ≡ false
    pub ready :
        poll_listener os listener
          (min (daemon.config.idle_timeout - (time - last)) daemon.config.poll_interval)
          timed
        ≡ (ok true, polled)
    pub accepts : os.accept listener polled ≡ (ok s, accepted)
    pub made_blocking : os.stream_nonblocking s false accepted ≡ (ok tt, blocking)
    pub noted : os.now blocking ≡ (activity, arrived)

  module _ (flag : os.Flag) (listener : os.Listener) (last : ℕ) (s : os.Stream)
      (r : Running os.World S) (w : os.World) (visit : IsVisit flag listener last s r w) where
    abbrev at_arrival : Running os.World S
    at_arrival = record r { world = w }

    abbrev at_poll : Running os.World S
    at_poll = record r { world = visit.polled }

    abbrev left_behind : Running os.World S
    left_behind = (process_connection os daemon s at_arrival).1

    -- The round of the outer loop comes to the inner one, and that to the connection.
    round_drains :
        (draining : Loop os daemon Drained) (again : ℕ → Loop os daemon (Unit {0}))
        → loop_round os daemon flag listener last draining again r
          ≡ (draining >>= after_drain os daemon again) at_poll
    unfolding loop_round
    round_drains draining again = rw (visit.unset, visit.read, visit.early, visit.ready)

    drain_fails :
        (fuel : ℕ) (e : Error)
        → (process_connection os daemon s at_arrival).0 ≡ err e
        → drain os daemon (suc fuel) listener last at_poll ≡ (err (raised e), left_behind)
    unfolding drain
    drain_fails fuel e failed = rw (visit.accepts, visit.made_blocking, visit.noted, failed)

    drain_stops :
        (fuel : ℕ)
        → (process_connection os daemon s at_arrival).0 ≡ ok stop
        → drain os daemon (suc fuel) listener last at_poll ≡ (ok finished, left_behind)
    unfolding drain
    drain_stops fuel stopped = rw (visit.accepts, visit.made_blocking, visit.noted, stopped)

    drain_goes_on :
        (fuel : ℕ)
        → (process_connection os daemon s at_arrival).0 ≡ ok go_on
        → drain os daemon (suc fuel) listener last at_poll
          ≡ drain os daemon fuel listener visit.activity left_behind
    unfolding drain
    drain_goes_on fuel going = rw (visit.accepts, visit.made_blocking, visit.noted, going)

    -- An error on the connection leaves the inner loop, and the outer one.
    visit_fails :
        (fuel : ℕ) (e : Error)
        → (process_connection os daemon s at_arrival).0 ≡ err e
        → event_loop os daemon (suc (suc fuel)) flag listener last r ≡ (err (raised e), left_behind)
    unfolding event_loop
    visit_fails fuel e failed =
        round_drains (drain os daemon (suc fuel) listener last)
          (event_loop os daemon (suc fuel) flag listener)
        ∙ rw (drain_fails fuel e failed)

    visit_stops :
        (fuel : ℕ)
        → (process_connection os daemon s at_arrival).0 ≡ ok stop
        → event_loop os daemon (suc (suc fuel)) flag listener last r ≡ (ok tt, left_behind)
    unfolding event_loop after_drain
    visit_stops fuel stopped =
        round_drains (drain os daemon (suc fuel) listener last)
          (event_loop os daemon (suc fuel) flag listener)
        ∙ rw (drain_stops fuel stopped)

    -- A client that connects and closes before it has sent a whole header ends the event loop with
    -- the error of `read_exact`, whatever the fuel beyond two rounds: the daemon does not go on.
    pub hang_up_ends_loop :
        (fuel : ℕ) (input : os.World → List ℕ)
        → ReadsFrom (os.reader s) input
        → length (input w) < header_len
        → (event_loop os daemon (suc (suc fuel)) flag listener last r).0 ≡ err (raised (io eof))
    unfolding process_connection exchange
    hang_up_ends_loop fuel input reading short =
        let cut =
          read_frame-truncated_header (os.reader s) input reading daemon.config.max_payload_len w
            short in
        ap (λ x. x.0) (visit_fails fuel (io eof) (rw cut))

    -- A client that sends a whole `Shutdown` frame within the limits gets one `ShutdownAck` frame,
    -- and the event loop ends without an error.
    shutdown_ends_loop :
        (fuel flags : ℕ) (payload rest : List ℕ) (input output : os.World → List ℕ)
        → IsDuplex os s input output
        → flags < 2 ^ 16
        → length payload ≤ u32_max
        → length payload ≤ daemon.config.max_payload_len
        → input w ≡ wire FrameKind.shutdown flags payload ++ rest
        → let end = event_loop os daemon (suc (suc fuel)) flag listener last r in
          (end.0 ≡ ok tt)
          × (output end.1.world ≡ output w ++ wire FrameKind.shutdown_ack 0 [])
          × (end.1.app ≡ r.app)
    shutdown_ends_loop fuel flags payload rest input output duplex word fits allowed e =
        let answered =
          answers_other os daemon s input output duplex FrameKind.shutdown flags payload rest
            at_arrival word fits allowed e (λ p. cc) in
        rw (visit_stops fuel answered.0) (refl, answered.1, answered.2)
