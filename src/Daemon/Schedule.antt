-- ===== src/Daemon/Schedule.antt =====
-- The outer loop of `run_event_loop` of src/daemon.rs, from its start to its end: what it finds in
-- each round, and whom it serves.
use sockd.Common.{
  ℕ, zero, suc, ◌+◌, ◌-◌, ◌≤◌, ◌<◌, ◌≡◌, refl, sym, ap, ◌∙◌, Bool, true, false, List, [], ◌∷◌, ◌++◌,
  length, length-append, arith, min, ◌==◌, if◌then◌else◌,
}
use sockd.Common.Words.{u32_max}
use sockd.Outcome.{Result, ok, ◌>>=◌}
use sockd.Error.{BoxError}
use sockd.Os.{Os}
use sockd.Daemon.{Daemon, Running}
use sockd.Daemon.Connection.{poll_listener}
use sockd.Daemon.Replies.{answer_bytes}
use sockd.Daemon.Queue.{Message, Queue, AllGotReply, handled, next_state, drain_serves}
use sockd.Daemon.Run.{
  Loop, Drained, idle_since, finished, drain, after_drain, poll_round, loop_round, event_loop,
  run_event_loop,
}

module _ (os : Os) {S : Type 0} (daemon : Daemon os.World S) (flag : os.Flag)
    (listener : os.Listener) where
  -- A round that begins in the state `r`, without a signal and before the idle timeout is over: its
  -- `poll` returns in the world `polled`, and says whether somebody waits.
  pub record IsRound (last : ℕ) (r : Running os.World S) (ready : Bool) (polled : os.World)
      : Type 0 where
    pub loaded : os.World
    pub looked : os.World
    pub now : ℕ
    pub unset : os.load flag r.world ≡ (false, loaded)
    pub read : os.now loaded ≡ (now, looked)
    pub early : now - last < daemon.config.idle_timeout
    pub polls :
        poll_listener os listener
          (min (daemon.config.idle_timeout - (now - last)) daemon.config.poll_interval)
          looked
        ≡ (ok ready, polled)

  -- The loop from the state `r`, with the time of the last activity, to its end in `end`: the number
  -- of rounds that `poll` returns from, and the messages of those who come, in their order.
  pub data Life : ℕ → List Message → ℕ → Running os.World S → Running os.World S → Type 0 where
    signalled :
        {last : ℕ} {r : Running os.World S}
        → (w : os.World) → os.load flag r.world ≡ (true, w)
        → Life zero [] last r (record r { world = w })
    idle :
        {last : ℕ} {r : Running os.World S}
        → (now : ℕ) (loaded looked : os.World) → os.load flag r.world ≡ (false, loaded)
        → os.now loaded ≡ (now, looked)
        → daemon.config.idle_timeout ≤ now - last
        → Life zero [] last r (record r { world = looked })
    quiet :
        {n last : ℕ} {messages : List Message} {r end : Running os.World S}
        → (polled : os.World) → IsRound last r false polled
        → Life n messages last (record r { world = polled }) end
        → Life (suc n) messages last r end
    stopped :
        {last : ℕ} {messages : List Message} {r end : Running os.World S}
        → (polled : os.World) → IsRound last r true polled
        → Queue os daemon listener last messages (record r { world = polled }) finished end
        → Life 1 messages last r end
    busy :
        {n last : ℕ} {messages more : List Message} {r next end : Running os.World S}
        → (since : ℕ) (polled : os.World) → IsRound last r true polled
        → Queue os daemon listener last messages
            (record r { world = polled })
            (idle_since since)
            next
        → Life n more since next end
        → Life (suc n) (messages ++ more) last r end

  -- The timeout is not over, and what `poll` says decides.
  open_round :
      (draining : Loop os daemon Drained) (again : ℕ → Loop os daemon (Unit {0})) (last : ℕ)
      (r : Running os.World S) (ready : Bool) (polled : os.World)
      → IsRound last r ready polled
      → loop_round os daemon flag listener last draining again r
        ≡ (if ready
              then (do drained ← draining; after_drain os daemon again drained)
              else again last)
            (record r { world = polled })
  unfolding loop_round poll_round
  open_round draining again last r ready polled round =
      let going : (daemon.config.idle_timeout - (round.now - last) == 0) ≡ false =
        ground (arith, round.early) in
      rw (round.unset, round.read, going, round.polls) refl

  idle_round :
      (draining : Loop os daemon Drained) (again : ℕ → Loop os daemon (Unit {0})) (last now : ℕ)
      (r : Running os.World S) (loaded looked : os.World)
      → os.load flag r.world ≡ (false, loaded)
      → os.now loaded ≡ (now, looked)
      → daemon.config.idle_timeout ≤ now - last
      → loop_round os daemon flag listener last draining again r
        ≡ (ok tt, record r { world = looked })
  unfolding loop_round
  idle_round draining again last now r loaded looked unset read over =
      let done : (daemon.config.idle_timeout - (now - last) == 0) ≡ true = ground (arith, over) in
      rw (unset, read, done) refl

  signalled_round :
      (draining : Loop os daemon Drained) (again : ℕ → Loop os daemon (Unit {0})) (last : ℕ)
      (r : Running os.World S) (w : os.World)
      → os.load flag r.world ≡ (true, w)
      → loop_round os daemon flag listener last draining again r ≡ (ok tt, record r { world = w })
  unfolding loop_round
  signalled_round draining again last r w set = rw set refl

  module _ (handle : S → List ℕ → Result (List ℕ) BoxError × S)
      (handles : (a : S) (p : List ℕ) (w : os.World) → daemon.on_request a p w ≡ (handle a p, w))
      (short : (a : S) (p : List ℕ)
        → length p ≤ daemon.config.max_payload_len
        → length (answer_bytes (handle a p).0) ≤ u32_max) where
    abbrev after : S → List Message → S
    after a messages = handled os daemon listener handle handles short a messages

    -- Everyone who came has got the reply of the protocol.
    abbrev pub AllAnswered :
        {rounds last : ℕ} {messages : List Message} {r end : Running os.World S}
        → Life rounds messages last r end
        → Type 0
    AllAnswered (Life.signalled w set) = Unit
    AllAnswered (Life.idle now loaded looked unset read over) = Unit
    AllAnswered (Life.quiet polled round life) = AllAnswered life
    AllAnswered (Life.stopped polled round queue) =
        AllGotReply os daemon listener handle handles short queue
    AllAnswered (Life.busy since polled round queue life) =
        AllGotReply os daemon listener handle handles short queue × AllAnswered life

    after-append :
        (a : S) (messages more : List Message)
        → after a (messages ++ more) ≡ after (after a messages) more
    after-append a [] more = refl
    after-append a ((kind, p) ∷ messages) more =
        after-append (next_state os daemon listener handle handles short a kind p) messages more

    event_loop_serves :
        (fuel : ℕ) {rounds last : ℕ} {messages : List Message} {r end : Running os.World S}
        (life : Life rounds messages last r end)
        → rounds + length messages < fuel
        → (event_loop os daemon fuel flag listener last r ≡ (ok tt, end))
          × AllAnswered life
          × (end.app ≡ after r.app messages)
    unfolding event_loop
    event_loop_serves zero life h = elim h [ ]
    event_loop_serves (suc fuel) (Life.signalled {last} {r} w set) h =
        (signalled_round (drain os daemon fuel listener last) _ last r w set, tt, refl)
    event_loop_serves (suc fuel) (Life.idle {last} {r} now loaded looked unset read over) h = (
      idle_round (drain os daemon fuel listener last) _ last now r loaded looked unset read over,
      tt,
      refl,
    )
    event_loop_serves (suc fuel) (Life.quiet {last} {r} polled round life) h =
        let later = event_loop_serves fuel life (omega arith) in
        (
          open_round (drain os daemon fuel listener last) (event_loop os daemon fuel flag listener)
                last r false polled round
              ∙ later.0,
          later.1,
          later.2,
        )
    event_loop_serves (suc fuel) (Life.stopped {last} {r} polled round queue) h =
        let served =
          drain_serves os daemon listener handle handles short fuel last queue (omega arith) in
        (
          open_round (drain os daemon fuel listener last) (event_loop os daemon fuel flag listener)
                last r true polled round
              ∙ rw (served.0, after_drain) refl,
          served.1,
          served.2,
        )
    event_loop_serves (suc fuel)
          (Life.busy {last} {messages} {more} {r} since polled round queue life) h =
        let total = length-append messages more in
        let served =
          drain_serves os daemon listener handle handles short fuel last queue (omega arith) in
        let later = event_loop_serves fuel life (omega arith) in
        (
          open_round (drain os daemon fuel listener last) (event_loop os daemon fuel flag listener)
                last r true polled round
              ∙ rw (served.0, after_drain) later.0,
          (served.1, later.1),
          later.2 ∙ ap (λ a. after a more) served.2 ∙ sym (after-append r.app messages more),
        )

    -- Where the handler leaves the machine alone and its answers to what the payload limit allows
    -- fit a frame: whatever clients come with frames within that limit, of whatever kinds and in
    -- whatever rounds, each gets the reply of the protocol, in order, and the event loop ends
    -- without an error, by the signal, by the idle timeout or by a `Shutdown` frame. The
    -- application's state is then that of the handler after all requests. More fuel than rounds
    -- and clients is enough.
    pub run_event_loop_serves :
        (fuel started rounds : ℕ) (messages : List Message) (r end : Running os.World S)
        (w : os.World)
        → os.now r.world ≡ (started, w)
        → (life : Life rounds messages started (record r { world = w }) end)
        → rounds + length messages < fuel
        → (run_event_loop os daemon fuel flag listener r ≡ (ok tt, end))
          × AllAnswered life
          × (end.app ≡ after r.app messages)
    unfolding run_event_loop
    run_event_loop_serves fuel started rounds messages r end w read life h =
        rw read (event_loop_serves fuel life h)
