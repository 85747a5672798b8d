-- ===== src/Client/Kept.antt =====
-- What the exchanges of src/client.rs leave alone: whatever the calls on the socket leave alone.
use sockd.Common.{ℕ, ◌≡◌, refl, ◌∙◌, ap, arith, List, []}
use sockd.Outcome.{Exec, mapping_err, bind-keeps, ◌>>=◌, ◌>>◌}
use sockd.Error.{Error, io, FilePath}
use sockd.Frame.{Frame, FrameKind, read_frame, write_frame, write_frame_with_flags}
use sockd.Os.{Os}
use sockd.Client.{Client, with_stream}
use sockd.Client.Exchange.{try_ping_once, pong_of, send_request_once, response_of}

-- `view` is a part of the state that no call on a socket or a stream changes.
pub record KeepsView {V : Type 0} (os : Os) (view : os.World → V) : Type 0 where
  pub connects : (p : FilePath) (w : os.World) → view (os.connect p w).1 ≡ view w
  pub gets : (s : os.Stream) (n : ℕ) (w : os.World) → view ((os.reader s).read_exact n w).1 ≡ view w
  pub puts :
      (s : os.Stream) (bytes : List ℕ) (w : os.World)
      → view ((os.writer s).write_all bytes w).1 ≡ view w
  pub flushes : (s : os.Stream) (w : os.World) → view ((os.writer s).flush w).1 ≡ view w
  pub closes : (s : os.Stream) (w : os.World) → view (os.close s w) ≡ view w

pong_of-keeps : (os : Os) (kind : FrameKind) (w : os.World) → (pong_of os kind w).1 ≡ w
unfolding pong_of
pong_of-keeps os FrameKind.pong w = refl
pong_of-keeps os _ w = refl

response_of-keeps :
    (os : Os) (kind : FrameKind) (payload : List ℕ) (w : os.World)
    → (response_of os kind payload w).1 ≡ w
unfolding response_of
response_of-keeps os FrameKind.response payload w = refl
response_of-keeps os FrameKind.error payload w = refl
response_of-keeps os _ payload w = refl

module _ {V : Type 0} (os : Os) (view : os.World → V) (keeps : KeepsView os view) where
  pub write_frame-keeps :
      (s : os.Stream) (kind : FrameKind) (payload : List ℕ) (w : os.World)
      → view (write_frame (os.writer s) kind payload w).1 ≡ view w
  unfolding write_frame write_frame_with_flags
  write_frame-keeps s kind payload w = grind (arith, keeps.puts s, keeps.flushes s)

  pub read_frame-keeps :
      (s : os.Stream) (max : ℕ) (w : os.World) → view (read_frame (os.reader s) max w).1 ≡ view w
  unfolding read_frame
  read_frame-keeps s max w = grind (arith, keeps.gets s)

  -- A call on a new connection, whose part on the stream keeps the view.
  connected-keeps :
      {A : Type 0} (p : FilePath) (part : os.Stream → Exec os.World Error A)
      → ((s : os.Stream) (w : os.World) → view (part s w).1 ≡ view w)
      → (w : os.World)
      → let call = λ (s : os.Stream). with_stream os s (part s) in
        view ((mapping_err io (os.connect p) >>= call) w).1 ≡ view w
  unfolding with_stream
  connected-keeps p part held w =
      bind-keeps view (λ s v. with_stream os s (part s) v) (mapping_err io (os.connect p))
        (keeps.connects p) (λ s v. keeps.closes s (part s v).1 ∙ held s v) w

  exchanged-keeps :
      {A : Type 0} (s : os.Stream) (kind : FrameKind) (payload : List ℕ) (max : ℕ)
      (finish : Frame → Exec os.World Error A)
      → ((frame : Frame) (w : os.World) → (finish frame w).1 ≡ w)
      → (w : os.World)
      → let read = read_frame (os.reader s) max >>= finish in
        view ((write_frame (os.writer s) kind payload >> read) w).1 ≡ view w
  exchanged-keeps s kind payload max finish held w =
      let read = read_frame (os.reader s) max >>= finish in
      bind-keeps view (λ _. read) (write_frame (os.writer s) kind payload)
        (write_frame-keeps s kind payload)
        (λ _.
          bind-keeps view finish (read_frame (os.reader s) max) (read_frame-keeps s max)
            (λ f v. ap view (held f v)))
        w

  pub try_ping_once-keeps : (c : Client) (w : os.World) → view (try_ping_once os c w).1 ≡ view w
  unfolding try_ping_once
  try_ping_once-keeps c w =
      let finish = λ (f : Frame). pong_of os f.kind in
      let part = λ (s : os.Stream).
        write_frame (os.writer s) FrameKind.ping []
        >> (read_frame (os.reader s) c.max_payload_len >>= finish) in
      connected-keeps c.socket_path part
        (λ s.
          exchanged-keeps s FrameKind.ping [] c.max_payload_len finish
            (λ f. pong_of-keeps os f.kind))
        w

  pub send_request_once-keeps :
      (c : Client) (payload : List ℕ) (w : os.World)
      → view (send_request_once os c payload w).1 ≡ view w
  unfolding send_request_once
  send_request_once-keeps c payload w =
      let finish = λ (f : Frame). response_of os f.kind f.payload in
      let part = λ (s : os.Stream).
        write_frame (os.writer s) FrameKind.request payload
        >> (read_frame (os.reader s) c.max_payload_len >>= finish) in
      connected-keeps c.socket_path part
        (λ s.
          exchanged-keeps s FrameKind.request payload c.max_payload_len finish
            (λ f. response_of-keeps os f.kind f.payload))
        w
