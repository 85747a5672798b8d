-- ===== src/Client/Served.antt =====
-- A client of src/client.rs whose stream ends at a daemon of src/daemon.rs: what the client's
-- caller gets is what the daemon's handler returned.
use sockd.Common.{ℕ, ◌≤◌, ◌≡◌, refl, ◌∙◌, ap, sym, List, [], ◌++◌, arith, length}
use mathlib.Core.List.{append-nil}
use sockd.Common.Words.{u32_max}
use sockd.Text.{as_bytes}
use sockd.Outcome.{Result, ok, err}
use sockd.Error.{Error, BoxError, daemon_returned_error}
use sockd.Frame.{FrameKind, read_frame}
use sockd.Frame.Streams.{wire}
use sockd.Os.{Os}
use sockd.Daemon.{Daemon, Running}
use sockd.Daemon.Connection.{process_connection}
use sockd.Daemon.Duplex.{IsDuplex}
use sockd.Daemon.Replies.{answer_kind, answer_bytes, request_lem}
use sockd.Client.{Client}
use sockd.Client.Exchange.{send_request_once}
use sockd.Client.Conversation.{IsConversation, expected_result, send_request_once_answered}

-- The handler's answer as the caller of `request` sees it.
abbrev pub seen : Result (List ℕ) BoxError → Result (List ℕ) Error
seen (ok response) = ok response
seen (err e) = err (daemon_returned_error e.message)

module _ (os : Os) (s : os.Stream) (input output : os.World → List ℕ) (peer : List ℕ → List ℕ)
    (talks : IsConversation os s input output peer) (remote : Os) {S : Type 0}
    (daemon : Daemon remote.World S) (t : remote.Stream) (input' output' : remote.World → List ℕ)
    (duplex : IsDuplex remote t input' output') where
  expected-seen :
      (answer : Result (List ℕ) BoxError)
      → ((e : BoxError) → answer ≡ err e → os.from_utf8_lossy (as_bytes e.message) ≡ e.message)
      → expected_result os (answer_kind answer) (answer_bytes answer) ≡ seen answer
  expected-seen (ok response) decodes = refl
  expected-seen (err e) decodes = rw (decodes e refl)

  -- What the daemon writes in answer to a request.
  daemon_answers :
      (payload : List ℕ) (r : Running remote.World S) (answer : Result (List ℕ) BoxError) (app : S)
      (v : remote.World)
      → length payload ≤ u32_max
      → length payload ≤ daemon.config.max_payload_len
      → input' r.world ≡ wire FrameKind.request 0 payload
      → output' r.world ≡ []
      → (let read = (read_frame (remote.reader t) daemon.config.max_payload_len r.world).1 in
          (daemon.on_request r.app payload read ≡ ((answer, app), v)) × (output' v ≡ output' read))
      → length (answer_bytes answer) ≤ u32_max
      → output' (process_connection remote daemon t r).1.world
        ≡ wire (answer_kind answer) 0 (answer_bytes answer) ++ []
  daemon_answers payload r answer app v fp fd arrived fresh called fa =
      let sent =
        request_lem remote daemon t input' output' duplex FrameKind.request 0 payload [] r
          (omega arith) fp fd (arrived ∙ sym (append-nil _)) answer app v refl called.0 called.1
          fa in
      sent.1
      ∙ ap (λ l. l ++ wire (answer_kind answer) 0 (answer_bytes answer)) fresh
      ∙ sym (append-nil _)

  -- A client sends a request on a fresh connection. At the other end is a daemon whose fresh stream
  -- has received just the bytes that the client sent, and what it writes is what the client reads.
  -- The handler leaves that stream alone. The payload is within the daemon's limit and the answer
  -- within the client's. Then the caller gets the bytes of a handler that succeeded, and
  -- `DaemonReturnedError` with its message from one that failed, if decoding UTF-8 undoes encoding
  -- for that message.
  pub send_request_once_served :
      (c : Client) (payload : List ℕ) (w w₁ : os.World) (r : Running remote.World S)
      (answer : Result (List ℕ) BoxError) (app : S) (v : remote.World)
      → os.connect c.socket_path w ≡ (ok s, w₁)
      → output w₁ ≡ []
      → length payload ≤ u32_max
      → length payload ≤ daemon.config.max_payload_len
      → input' r.world ≡ wire FrameKind.request 0 payload
      → output' r.world ≡ []
      → peer (wire FrameKind.request 0 payload)
        ≡ output' (process_connection remote daemon t r).1.world
      → (let read = (read_frame (remote.reader t) daemon.config.max_payload_len r.world).1 in
          (daemon.on_request r.app payload read ≡ ((answer, app), v)) × (output' v ≡ output' read))
      → length (answer_bytes answer) ≤ u32_max
      → length (answer_bytes answer) ≤ c.max_payload_len
      → ((e : BoxError) → answer ≡ err e → os.from_utf8_lossy (as_bytes e.message) ≡ e.message)
      → (send_request_once os c payload w).0 ≡ seen answer
  send_request_once_served c payload w w₁ r answer app v connected fresh fp fd arrived unused joined
        called fa fc decodes =
      let answers = daemon_answers payload r answer app v fp fd arrived unused called fa in
      send_request_once_answered os s input output peer talks c payload (answer_bytes answer) []
        (answer_kind answer) 0 w w₁ connected fresh fp (omega arith) fa fc (joined ∙ answers)
      ∙ expected-seen answer decodes
