-- ===== src/Daemon/Replies.antt =====
-- What a client gets for the frame that it sends: docs/PROTOCOL.md against `process_connection`.
use sockd.Common.{ℕ, ◌≤◌, ◌<◌, ◌^◌, ◌≡◌, ◌≢◌, refl, List, [], ◌++◌, arith, length, codes}
use sockd.Common.Words.{u32_max}
use sockd.Text.{as_bytes}
use sockd.Outcome.{Result, ok, err}
use sockd.Error.{BoxError}
use sockd.Frame.{FrameKind, read_frame, write_frame}
use sockd.Frame.Streams.{wire}
use sockd.Frame.Sending.{write_frame_sends}
use sockd.Frame.Receiving.{read_frame-wire}
use sockd.Os.{Os}
use sockd.Daemon.{Daemon, ConnectionOutcome, go_on, stop, Running}
use sockd.Daemon.Connection.{debug, reply, exchange, dispatch, process_connection}
use sockd.Daemon.Duplex.{IsDuplex}

-- The table of docs/PROTOCOL.md: the reply to a frame that is no request.
abbrev pub expected_kind : FrameKind → FrameKind
expected_kind FrameKind.ping = FrameKind.pong
expected_kind FrameKind.shutdown = FrameKind.shutdown_ack
expected_kind _ = FrameKind.error

abbrev pub expected_payload : FrameKind → List ℕ
expected_payload FrameKind.ping = []
expected_payload FrameKind.shutdown = []
expected_payload other = as_bytes (codes "unexpected frame kind: " ++ debug other)

abbrev pub expected_outcome : FrameKind → ConnectionOutcome
expected_outcome FrameKind.shutdown = stop
expected_outcome _ = go_on

-- What an answer of the handler is on the wire.
abbrev pub answer_kind : Result (List ℕ) BoxError → FrameKind
answer_kind (ok response) = FrameKind.response
answer_kind (err e) = FrameKind.error

abbrev pub answer_bytes : Result (List ℕ) BoxError → List ℕ
answer_bytes (ok response) = response
answer_bytes (err e) = as_bytes e.message

expected_payload-short : (kind : FrameKind) → length (expected_payload kind) ≤ u32_max
unfolding as_bytes debug
expected_payload-short FrameKind.ping = omega arith
expected_payload-short _ = omega arith

module _ (os : Os) {S : Type 0} (daemon : Daemon os.World S) (s : os.Stream)
    (input output : os.World → List ℕ) (duplex : IsDuplex os s input output) where
  -- Reading a frame leaves what was written.
  read_frame-keeps : (max : ℕ) (w : os.World) → output (read_frame (os.reader s) max w).1 ≡ output w
  unfolding read_frame
  read_frame-keeps max w = grind (arith, duplex.read_keeps)

  reply_lem :
      (kind : FrameKind) (payload : List ℕ) (outcome : ConnectionOutcome) (r : Running os.World S)
      → length payload ≤ u32_max
      → ((reply os daemon s kind payload outcome r).0 ≡ ok outcome)
        × (output (reply os daemon s kind payload outcome r).1.world
            ≡ output r.world ++ wire kind 0 payload)
        × ((reply os daemon s kind payload outcome r).1.app ≡ r.app)
  unfolding reply write_frame
  reply_lem kind payload outcome r fits =
      ground
        (arith, write_frame_sends (os.writer s) output duplex.writing kind 0 payload r.world fits)

  -- The answer to a frame that arrived whole, in terms of the dispatch on its kind.
  module _ (kind : FrameKind) (flags : ℕ) (payload rest : List ℕ) (r : Running os.World S)
      (word : flags < 2 ^ 16) (fits : length payload ≤ u32_max)
      (allowed : length payload ≤ daemon.config.max_payload_len)
      (arrived : input r.world ≡ wire kind flags payload ++ rest) where
    abbrev received : Running os.World S
    received = record r {
      world = (read_frame (os.reader s) daemon.config.max_payload_len r.world).1;
    }

    exchange_lem : exchange os daemon s r ≡ dispatch os daemon s kind payload received
    unfolding exchange
    exchange_lem =
        let max = daemon.config.max_payload_len in
        let e =
          read_frame-wire (os.reader s) input duplex.reading max kind flags payload rest r.world
            word fits allowed arrived in
        rw (e.0)

    process_lem :
        ((process_connection os daemon s r).0 ≡ (dispatch os daemon s kind payload received).0)
        × (output (process_connection os daemon s r).1.world
            ≡ output (dispatch os daemon s kind payload received).1.world)
        × ((process_connection os daemon s r).1.app
            ≡ (dispatch os daemon s kind payload received).1.app)
    unfolding process_connection
    process_lem = rw exchange_lem (refl, duplex.close_keeps _, refl)

    received-output : output received.world ≡ output r.world
    received-output = read_frame-keeps daemon.config.max_payload_len r.world

    -- A request that the handler answers, where the handler leaves this stream alone, is replied to
    -- by one `Response` frame that holds the handler's bytes. The daemon goes on, in the state that
    -- the handler left.
    pub answers_request :
        (response : List ℕ) (app : S) (w : os.World)
        → kind ≡ FrameKind.request
        → daemon.on_request r.app payload received.world ≡ ((ok response, app), w)
        → output w ≡ output received.world
        → length response ≤ u32_max
        → ((process_connection os daemon s r).0 ≡ ok go_on)
          × (output (process_connection os daemon s r).1.world
              ≡ output r.world ++ wire FrameKind.response 0 response)
          × ((process_connection os daemon s r).1.app ≡ app)
    unfolding dispatch
    answers_request response app w is_request called calm short =
        let sent =
          reply_lem FrameKind.response response go_on (record { app = app; world = w }) short in
        ground (arith, process_lem, received-output, sent)

    -- A request that the handler rejects, where the handler leaves this stream alone, is replied to
    -- by one `Error` frame that holds the message in UTF-8. The daemon goes on.
    answers_failed_request :
        (e : BoxError) (app : S) (w : os.World)
        → kind ≡ FrameKind.request
        → daemon.on_request r.app payload received.world ≡ ((err e, app), w)
        → output w ≡ output received.world
        → length (as_bytes e.message) ≤ u32_max
        → ((process_connection os daemon s r).0 ≡ ok go_on)
          × (output (process_connection os daemon s r).1.world
              ≡ output r.world ++ wire FrameKind.error 0 (as_bytes e.message))
          × ((process_connection os daemon s r).1.app ≡ app)
    unfolding dispatch
    answers_failed_request e app w is_request called calm short =
        let sent =
          reply_lem FrameKind.error (as_bytes e.message) go_on (record { app = app; world = w })
            short in
        ground (arith, process_lem, received-output, sent)

    -- Both cases in one.
    pub request_lem :
        (answer : Result (List ℕ) BoxError) (app : S) (w : os.World)
        → kind ≡ FrameKind.request
        → daemon.on_request r.app payload received.world ≡ ((answer, app), w)
        → output w ≡ output received.world
        → length (answer_bytes answer) ≤ u32_max
        → ((process_connection os daemon s r).0 ≡ ok go_on)
          × (output (process_connection os daemon s r).1.world
              ≡ output r.world ++ wire (answer_kind answer) 0 (answer_bytes answer))
          × ((process_connection os daemon s r).1.app ≡ app)
    request_lem (ok response) app w = answers_request response app w
    request_lem (err e) app w = answers_failed_request e app w

    -- A frame that is no request gets one reply, by its kind alone: `Pong` for a ping,
    -- `ShutdownAck` for a shutdown, and an `Error` that names the kind for what only a daemon sends.
    -- The application keeps its state, and the daemon stops if and only if the frame was a shutdown.
    pub answers_other :
        kind ≢ FrameKind.request
        → ((process_connection os daemon s r).0 ≡ ok (expected_outcome kind))
          × (output (process_connection os daemon s r).1.world
              ≡ output r.world ++ wire (expected_kind kind) 0 (expected_payload kind))
          × ((process_connection os daemon s r).1.app ≡ r.app)
    unfolding dispatch
    answers_other other =
        let sent =
          reply_lem (expected_kind kind) (expected_payload kind) (expected_outcome kind) received
            (expected_payload-short kind) in
        ground (arith, process_lem, received-output, sent)
