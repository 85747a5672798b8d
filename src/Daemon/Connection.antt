-- ===== src/Daemon/Connection.antt =====
-- `process_connection` and `poll_listener` of src/daemon.rs.
use sockd.Common.{ℕ, ◌/◌, Bool, false, ◌&&◌, List, [], ◌++◌, codes, min, ltb}
use sockd.Text.{Text, as_bytes}
use sockd.Outcome.{Result, ok, err, Exec, pure, raise, effect, ◌>>=◌, ◌>>◌}
use sockd.Error.{Error, ErrorKind, BoxError, Duration, io}
use sockd.Frame.{FrameKind, read_frame, write_frame}
use sockd.Os.{Os, Polled, polled, poll_failed}
use sockd.Daemon.{Daemon, ConnectionOutcome, go_on, stop, Running, on_world}

-- `{other:?}`
unfoldable pub debug : FrameKind → Text
debug FrameKind.request = codes "Request"
debug FrameKind.response = codes "Response"
debug FrameKind.ping = codes "Ping"
debug FrameKind.pong = codes "Pong"
debug FrameKind.error = codes "Error"
debug FrameKind.shutdown = codes "Shutdown"
debug FrameKind.shutdown_ack = codes "ShutdownAck"

-- `timeout.as_millis().min(i32::MAX as u128) as i32`
unfoldable pub poll_millis : Duration → ℕ
poll_millis timeout = min (timeout / 1_000_000) 2_147_483_647

module _ (os : Os) where
  open os use {World, Stream, Listener}

  unfoldable pub ready_of : Polled → Exec World Error Bool
  ready_of (polled ready pollin) = pure (ltb 0 ready && pollin)
  ready_of (poll_failed e) = elim e.kind [ ErrorKind.interrupted ↦ pure false | _ ↦ raise (io e) ]

  unfoldable pub poll_listener : Listener → Duration → Exec World Error Bool
  unfolding ready_of poll_millis
  poll_listener listener timeout = do
    answer ← effect (os.poll listener (poll_millis timeout))
    ready_of answer

  module _ {S : Type 0} (daemon : Daemon os.World S) where
    -- `write_frame(&mut stream, kind, payload)`, then `Ok(outcome)`
    unfoldable pub reply :
        Stream
        → FrameKind
        → List ℕ
        → ConnectionOutcome
        → Exec (Running World S) Error ConnectionOutcome
    reply stream kind payload outcome = do
      on_world (write_frame (os.writer stream) kind payload)
      pure outcome

    unfoldable pub call_request : List ℕ → Exec (Running World S) Error (Result (List ℕ) BoxError)
    call_request payload r =
        let (answer, w') = daemon.on_request r.app payload r.world in
        (ok answer.0, record { app = answer.1; world = w' })

    unfoldable pub answered :
        Stream → Result (List ℕ) BoxError → Exec (Running World S) Error ConnectionOutcome
    answered stream (ok response) = reply stream FrameKind.response response go_on
    answered stream (err e) = reply stream FrameKind.error (as_bytes e.message) go_on

    unfoldable pub dispatch :
        Stream → FrameKind → List ℕ → Exec (Running World S) Error ConnectionOutcome
    unfolding reply call_request answered
    dispatch stream FrameKind.ping payload = reply stream FrameKind.pong [] go_on
    dispatch stream FrameKind.shutdown payload = reply stream FrameKind.shutdown_ack [] stop
    dispatch stream FrameKind.request payload = do
      answer ← call_request payload
      answered stream answer
    dispatch stream other payload =
        reply stream FrameKind.error (as_bytes (codes "unexpected frame kind: " ++ debug other))
          go_on

    unfoldable pub exchange : Stream → Exec (Running World S) Error ConnectionOutcome
    exchange stream = do
      frame ← on_world (read_frame (os.reader stream) daemon.config.max_payload_len)
      dispatch stream frame.kind frame.payload

    -- The stream is dropped when the function returns.
    unfoldable pub process_connection : Stream → Exec (Running World S) Error ConnectionOutcome
    unfolding exchange
    process_connection stream r =
        let (answer, r') = exchange stream r in
        (answer, record r' { world = os.close stream r'.world })
