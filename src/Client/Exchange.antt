-- ===== src/Client/Exchange.antt =====
-- The single exchanges of src/client.rs: `try_ping_once` and `send_request_once`.
use sockd.Common.{ℕ, List, []}
use sockd.Outcome.{Exec, pure, raise, mapping_err, ◌>>=◌, ◌>>◌}
use sockd.Error.{Error, io, unexpected_frame_kind, daemon_returned_error}
use sockd.Frame.{FrameKind, label, read_frame, write_frame}
use sockd.Os.{Os}
use sockd.Client.{Client, with_stream}

module _ (os : Os) where
  open os use {World}

  unfoldable pub pong_of : FrameKind → Exec World Error (Unit {0})
  pong_of FrameKind.pong = pure tt
  pong_of other = raise (unexpected_frame_kind (label FrameKind.pong) (label other))

  unfoldable pub try_ping_once : Client → Exec World Error (Unit {0})
  unfolding pong_of with_stream
  try_ping_once c = do
    stream ← mapping_err io (os.connect c.socket_path)
    with_stream os stream do
      write_frame (os.writer stream) FrameKind.ping []
      frame ← read_frame (os.reader stream) c.max_payload_len
      pong_of frame.kind

  unfoldable pub response_of : FrameKind → List ℕ → Exec World Error (List ℕ)
  response_of FrameKind.response payload = pure payload
  response_of FrameKind.error payload = raise (daemon_returned_error (os.from_utf8_lossy payload))
  response_of other payload = raise (unexpected_frame_kind (label FrameKind.response) (label other))

  unfoldable pub send_request_once : Client → List ℕ → Exec World Error (List ℕ)
  unfolding response_of with_stream
  send_request_once c payload = do
    stream ← mapping_err io (os.connect c.socket_path)
    with_stream os stream do
      write_frame (os.writer stream) FrameKind.request payload
      frame ← read_frame (os.reader stream) c.max_payload_len
      response_of frame.kind frame.payload
