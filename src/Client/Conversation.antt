-- ===== src/Client/Conversation.antt =====
-- One exchange of the client with whatever answers on the socket.
use sockd.Common.{ℕ, ◌≤◌, ◌<◌, ◌^◌, ◌≡◌, ◌∙◌, List, [], ◌++◌, arith, length}
use sockd.Common.Words.{u32_max}
use sockd.Outcome.{Result, ok, err}
use sockd.Error.{Error, unexpected_frame_kind, daemon_returned_error}
use sockd.Frame.{FrameKind, label, encode, write_frame, write_frame_with_flags}
use sockd.Frame.Streams.{ReadsFrom, WritesTo, header_of, wire}
use sockd.Frame.Receiving.{read_frame-wire}
use sockd.Os.{Os}
use sockd.Client.{Client}
use sockd.Client.Exchange.{try_ping_once, send_request_once}

-- A stream on which `peer` answers: once a message has been flushed, what can be read is the
-- answer to all that was written.
pub record IsConversation (os : Os) (s : os.Stream) (input output : os.World → List ℕ)
    (peer : List ℕ → List ℕ) : Type 0 where
  pub reading : ReadsFrom (os.reader s) input
  pub writing : WritesTo (os.writer s) output
  pub answered : (w : os.World) → input ((os.writer s).flush w).1 ≡ peer (output w)

-- What a request gives for the frame that comes back.
abbrev pub expected_result : Os → FrameKind → List ℕ → Result (List ℕ) Error
expected_result os FrameKind.response answer = ok answer
expected_result os FrameKind.error answer = err (daemon_returned_error (os.from_utf8_lossy answer))
expected_result os other answer =
    err (unexpected_frame_kind (label FrameKind.response) (label other))

module _ (os : Os) (s : os.Stream) (input output : os.World → List ℕ) (peer : List ℕ → List ℕ)
    (talks : IsConversation os s input output peer) where
  -- After a frame was sent on a fresh stream, the answer to it can be read.
  pub sent_input :
      (kind : FrameKind) (payload : List ℕ) (w : os.World)
      → output w ≡ []
      → length payload ≤ u32_max
      → ((write_frame (os.writer s) kind payload w).0 ≡ ok tt)
        × (input (write_frame (os.writer s) kind payload w).1 ≡ peer (wire kind 0 payload))
  unfolding write_frame write_frame_with_flags wire
  sent_input kind payload w fresh fits =
      let header = encode (header_of kind 0 payload) in
      let w₁ = ((os.writer s).write_all header w).1 in
      let w₂ = ((os.writer s).write_all payload w₁).1 in
      ground (
        arith,
        talks.writing.written header w,
        talks.writing.appended header w,
        talks.writing.written payload w₁,
        talks.writing.appended payload w₁,
        talks.writing.flushed w₂,
        talks.answered w₂,
      )

  -- A client that connects sends one `Request` frame. If what is answered begins with a whole frame
  -- within the client's limit, the result is decided by that frame's kind: the payload of a
  -- `Response`, the message of an `Error`, and an error that names both kinds for any other.
  pub send_request_once_answered :
      (c : Client) (payload answer rest : List ℕ) (kind : FrameKind) (flags : ℕ) (w w₁ : os.World)
      → os.connect c.socket_path w ≡ (ok s, w₁)
      → output w₁ ≡ []
      → length payload ≤ u32_max
      → flags < 2 ^ 16
      → length answer ≤ u32_max
      → length answer ≤ c.max_payload_len
      → peer (wire FrameKind.request 0 payload) ≡ wire kind flags answer ++ rest
      → (send_request_once os c payload w).0 ≡ expected_result os kind answer
  unfolding send_request_once
  send_request_once_answered c payload answer rest kind flags w w₁ connected fresh fp ff fa fm
        answers =
      let sent = sent_input FrameKind.request payload w₁ fresh fp in
      let w₂ = (write_frame (os.writer s) FrameKind.request payload w₁).1 in
      let received =
        read_frame-wire (os.reader s) input talks.reading c.max_payload_len kind flags answer rest
          w₂ ff fa fm (sent.1 ∙ answers) in
      ground (arith, connected, sent.0, received.0)

  -- The same for a ping that is answered by a `Pong`.
  pub try_ping_once_answered :
      (c : Client) (answer rest : List ℕ) (flags : ℕ) (w w₁ : os.World)
      → os.connect c.socket_path w ≡ (ok s, w₁)
      → output w₁ ≡ []
      → flags < 2 ^ 16
      → length answer ≤ u32_max
      → length answer ≤ c.max_payload_len
      → peer (wire FrameKind.ping 0 []) ≡ wire FrameKind.pong flags answer ++ rest
      → (try_ping_once os c w).0 ≡ ok tt
  unfolding try_ping_once
  try_ping_once_answered c answer rest flags w w₁ connected fresh ff fa fm answers =
      let sent = sent_input FrameKind.ping [] w₁ fresh (omega arith) in
      let w₂ = (write_frame (os.writer s) FrameKind.ping [] w₁).1 in
      let received =
        read_frame-wire (os.reader s) input talks.reading c.max_payload_len FrameKind.pong flags
          answer rest w₂ ff fa fm (sent.1 ∙ answers) in
      ground (arith, connected, sent.0, received.0)
