-- ===== src/Daemon/Queue.antt =====
-- The inner loop of `run_event_loop`: the connections that wait on the listener.
use sockd.Common.{
  ℕ, zero, suc, ◌≤◌, ◌<◌, ◌^◌, ◌≡◌, ◌≢◌, refl, false, List, [], ◌∷◌, ◌++◌, length, ap, ◌∙◌, arith,
}
use sockd.Common.Words.{u32_max}
use sockd.Outcome.{Result, ok, err}
use sockd.Error.{IoError, ErrorKind, BoxError}
use sockd.Frame.{FrameKind, read_frame}
use sockd.Frame.Streams.{wire}
use sockd.Os.{Os}
use sockd.Daemon.{Daemon, Running, go_on}
use sockd.Daemon.Connection.{process_connection}
use sockd.Daemon.Duplex.{IsDuplex}
use sockd.Daemon.Replies.{
  answer_kind, answer_bytes, expected_kind, expected_payload, expected_outcome, request_lem,
  answers_other,
}
use sockd.Daemon.Run.{Drained, idle_since, finished, drain}

-- What a client sends.
abbrev pub Message : Type 0
Message = FrameKind × List ℕ

module _ (os : Os) {S : Type 0} (daemon : Daemon os.World S) (listener : os.Listener) where
  -- A client that `accept` gives in the state `r` and that has sent a frame; the connection is
  -- processed in the world `arrived`.
  pub record IsClient (message : Message) (s : os.Stream) (r : Running os.World S)
      (arrived : os.World) : Type 0 where
    pub accepted : os.World
    pub blocking : os.World
    pub activity : ℕ
    pub flags : ℕ
    pub rest : List ℕ
    pub input : os.World → List ℕ
    pub output : os.World → List ℕ
    pub accepts : os.accept listener r.world ≡ (ok s, accepted)
    pub made_blocking : os.stream_nonblocking s false accepted ≡ (ok tt, blocking)
    pub noted : os.now blocking ≡ (activity, arrived)
    pub duplex : IsDuplex os s input output
    pub word : flags < 2 ^ 16
    pub fits : length message.1 ≤ u32_max
    pub allowed : length message.1 ≤ daemon.config.max_payload_len
    pub sent : input arrived ≡ wire message.0 flags message.1 ++ rest

  -- The clients that wait on the listener in the state `r`, by their messages, with the time of the
  -- last activity: how the inner loop ends, and in which state. A `Shutdown` frame ends it at once.
  pub data Queue
      : ℕ → List Message → Running os.World S → Drained → Running os.World S → Type 0 where
    nobody :
        {last : ℕ} {r : Running os.World S}
        → (e : IoError) (w : os.World) → os.accept listener r.world ≡ (err e, w)
        → e.kind ≡ ErrorKind.would_block
        → Queue last [] r (idle_since last) (record r { world = w })
    client :
        {last : ℕ} {kind : FrameKind} {payload : List ℕ} {messages : List Message}
        {r end : Running os.World S} {drained : Drained}
        → (s : os.Stream) (arrived : os.World) → kind ≢ FrameKind.shutdown
        → (c : IsClient (kind, payload) s r arrived)
        → Queue c.activity messages
            (process_connection os daemon s (record r { world = arrived })).1
            drained
            end
        → Queue last ((kind, payload) ∷ messages) r drained end
    stopper :
        {last : ℕ} {payload : List ℕ} {r : Running os.World S}
        → (s : os.Stream) (arrived : os.World) → IsClient (FrameKind.shutdown, payload) s r arrived
        → Queue last
            ((FrameKind.shutdown, payload) ∷ [])
            r
            finished
            (process_connection os daemon s (record r { world = arrived })).1

  module _ (handle : S → List ℕ → Result (List ℕ) BoxError × S)
      (handles : (a : S) (p : List ℕ) (w : os.World) → daemon.on_request a p w ≡ (handle a p, w))
      (short : (a : S) (p : List ℕ)
        → length p ≤ daemon.config.max_payload_len
        → length (answer_bytes (handle a p).0) ≤ u32_max) where
    -- The protocol: the reply to a message, and the application's state after it.
    abbrev pub reply_kind : S → FrameKind → List ℕ → FrameKind
    reply_kind a FrameKind.request p = answer_kind (handle a p).0
    reply_kind a other p = expected_kind other

    abbrev pub reply_bytes : S → FrameKind → List ℕ → List ℕ
    reply_bytes a FrameKind.request p = answer_bytes (handle a p).0
    reply_bytes a other p = expected_payload other

    abbrev pub next_state : S → FrameKind → List ℕ → S
    next_state a FrameKind.request p = (handle a p).1
    next_state a other p = a

    abbrev pub handled : S → List Message → S
    handled a [] = a
    handled a ((kind, p) ∷ messages) = handled (next_state a kind p) messages

    -- The client's stream holds the reply, behind what it held before.
    abbrev pub GotReply :
        {kind : FrameKind} {payload : List ℕ} {s : os.Stream} {r : Running os.World S}
        {arrived : os.World}
        → IsClient (kind, payload) s r arrived
        → Type 0
    GotReply {kind} {payload} {s} {r} {arrived} c =
        c.output (process_connection os daemon s (record r { world = arrived })).1.world
        ≡ c.output arrived
          ++ wire (reply_kind r.app kind payload) 0 (reply_bytes r.app kind payload)

    abbrev pub AllGotReply :
        {last : ℕ} {messages : List Message} {r end : Running os.World S} {drained : Drained}
        → Queue last messages r drained end
        → Type 0
    AllGotReply (Queue.nobody e w refused blocked) = Unit
    AllGotReply (Queue.client s w other c queue) = GotReply c × AllGotReply queue
    AllGotReply (Queue.stopper s w c) = GotReply c

    visited :
        (kind : FrameKind) (payload : List ℕ) (s : os.Stream) (r : Running os.World S)
        (w : os.World) (c : IsClient (kind, payload) s r w)
        → let after = process_connection os daemon s (record r { world = w }) in
          (after.0 ≡ ok (expected_outcome kind))
          × GotReply c
          × (after.1.app ≡ next_state r.app kind payload)
    visited FrameKind.request payload s r w c =
        let read = (read_frame (os.reader s) daemon.config.max_payload_len w).1 in
        request_lem os daemon s c.input c.output c.duplex FrameKind.request c.flags payload c.rest
          (record r { world = w }) c.word c.fits c.allowed c.sent (handle r.app payload).0
          (handle r.app payload).1 read refl (handles r.app payload read) refl
          (short r.app payload c.allowed)
    visited kind payload s r w c =
        answers_other os daemon s c.input c.output c.duplex kind c.flags payload c.rest
          (record r { world = w }) c.word c.fits c.allowed c.sent (λ e. cc)

    goes_on : (kind : FrameKind) → kind ≢ FrameKind.shutdown → expected_outcome kind ≡ go_on
    goes_on FrameKind.shutdown other = absurd (other refl)
    goes_on _ other = refl

    -- The inner loop serves every client that waits, in order, whatever it sends: with more fuel than
    -- there are clients it ends as the queue says, and everyone has got the reply of the protocol.
    pub drain_serves :
        (fuel last : ℕ) {messages : List Message} {r end : Running os.World S} {drained : Drained}
        (queue : Queue last messages r drained end)
        → length messages < fuel
        → (drain os daemon fuel listener last r ≡ (ok drained, end))
          × AllGotReply queue
          × (end.app ≡ handled r.app messages)
    unfolding drain
    drain_serves zero last queue h = elim h [ ]
    drain_serves (suc fuel) last (Queue.nobody e w refused blocked) h =
        (ground (arith, refused, blocked), tt, refl)
    drain_serves (suc fuel) last (Queue.client {kind} {payload} {messages} {r} s w other c queue)
          h =
        let served = visited kind payload s r w c in
        let going = served.0 ∙ ap (λ o. ok o) (goes_on kind other) in
        let others = drain_serves fuel c.activity queue (omega arith) in
        rw (c.accepts, c.made_blocking, c.noted, going)
          (others.0, (served.1, others.1), others.2 ∙ ap (λ a. handled a messages) served.2)
    drain_serves (suc fuel) last (Queue.stopper {payload} {r} s w c) h =
        let served = visited FrameKind.shutdown payload s r w c in
        rw (c.accepts, c.made_blocking, c.noted, served.0) (refl, served.1, served.2)
