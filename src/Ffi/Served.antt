-- ===== src/Ffi/Served.antt =====
-- `sockd_client_request` of src/ffi.rs whose stream ends at a daemon of src/daemon.rs.
use sockd.Common.{ℕ, ◌≤◌, ◌≡◌, refl, ap, Option, List, [], length, none, some}
use sockd.Common.Words.{u32_max}
use sockd.Text.{Text, as_bytes}
use sockd.Outcome.{Result, ok, err, raised}
use sockd.Config.{AutoStart}
use sockd.Error.{BoxError, daemon_returned_error}
use sockd.Frame.{FrameKind, read_frame}
use sockd.Frame.Streams.{wire}
use sockd.Os.{Os}
use sockd.Daemon.{Daemon, Running}
use sockd.Daemon.Connection.{process_connection}
use sockd.Daemon.Duplex.{IsDuplex}
use sockd.Daemon.Replies.{answer_bytes}
use sockd.Client.{Client, can_attempt_recovery}
use sockd.Client.Exchange.{send_request_once}
use sockd.Client.Waiting.{request, requested, recover_if_needed, recover_with}
use sockd.Client.Conversation.{IsConversation}
use sockd.Client.Served.{seen, send_request_once_served}
use sockd.Ffi.{Pointer, SockdClientConfig, Memory, Foreign, build_client}
use sockd.Ffi.Calls.{sockd_client_request}
use sockd.Ffi.Requests.{finished, code_of, handed, IsRequest, sockd_client_request_lem}

given_up :
    (os : Os) (fuel : ℕ) (c : Client) (start : Option AutoStart) (message : Text) (w : os.World)
    → recover_with os fuel c start (daemon_returned_error message) w
      ≡ (err (raised (daemon_returned_error message)), w)
unfolding recover_with can_attempt_recovery
given_up os fuel c none message w = refl
given_up os fuel c (some a) message w = refl

-- Neither an answer nor the error of a handler makes a client start a daemon.
request_settled :
    (os : Os) (fuel : ℕ) (c : Client) (payload : List ℕ) (w : os.World)
    (answer : Result (List ℕ) BoxError)
    → (send_request_once os c payload w).0 ≡ seen answer
    → request os fuel c payload w ≡ (finished (seen answer), (request os fuel c payload w).1)
unfolding request requested recover_if_needed
request_settled os fuel c payload w (ok response) once = rw once refl
request_settled os fuel c payload w (err e) once =
    let stays = given_up os fuel c c.auto_start e.message (send_request_once os c payload w).1 in
    rw (once, stays) refl

module _ (os : Os) (s : os.Stream) (input output : os.World → List ℕ) (peer : List ℕ → List ℕ)
    (talks : IsConversation os s input output peer) (remote : Os) {S : Type 0}
    (daemon : Daemon remote.World S) (t : remote.Stream) (input' output' : remote.World → List ℕ)
    (duplex : IsDuplex remote t input' output') (from_utf8 : List ℕ → Option Text)
    (fresh : Memory → ℕ) where
  -- A caller in C with the pointers of `IsRequest`, on whose fresh connection a daemon is at the
  -- other end: the daemon's fresh stream has received just what the client sent, and what it writes
  -- is what the client reads. The handler leaves that stream alone; the request and its answer are
  -- within the limits, and decoding UTF-8 undoes encoding for the message of a handler that failed.
  -- Then the caller gets the handler's bytes in a new array with `SOCKD_OK`, or the text of its
  -- error behind `error_out` with `SOCKD_ERR_OPERATION`, and nothing else in memory changes.
  pub sockd_client_request_served :
      (fuel config bytes len ptr_out len_out : ℕ) (error_out : Pointer) (c : SockdClientConfig)
      (payload : List ℕ) (f : Foreign os.World) (w : os.World) (r : Running remote.World S)
      (answer : Result (List ℕ) BoxError) (app : S) (v : remote.World)
      → IsRequest f.memory config c payload bytes len ptr_out len_out error_out
      → os.connect (build_client c).socket_path f.world ≡ (ok s, w)
      → output w ≡ []
      → length payload ≤ u32_max
      → length payload ≤ daemon.config.max_payload_len
      → input' r.world ≡ wire FrameKind.request 0 payload
      → output' r.world ≡ []
      → peer (wire FrameKind.request 0 payload)
        ≡ output' (process_connection remote daemon t r).1.world
      → (let read = (read_frame (remote.reader t) daemon.config.max_payload_len r.world).1 in
          (daemon.on_request r.app payload read ≡ ((answer, app), v)) × (output' v ≡ output' read))
      → length (answer_bytes answer) ≤ u32_max
      → length (answer_bytes answer) ≤ (build_client c).max_payload_len
      → ((e : BoxError) → answer ≡ err e → os.from_utf8_lossy (as_bytes e.message) ≡ e.message)
      → let end =
          sockd_client_request os from_utf8 fresh fuel
            (some config)
            (some bytes)
            len
            (some ptr_out)
            (some len_out)
            error_out
            f in
        (end.0 ≡ ok (code_of (seen answer)))
        × (end.1.memory ≡ handed os fresh f.memory ptr_out len_out error_out (seen answer))
  sockd_client_request_served fuel config bytes len ptr_out len_out error_out c payload f w r answer
        app v is connected unused fp fd arrived silent joined called fa fc decodes =
      let client = build_client c in
      let once =
        send_request_once_served os s input output peer talks remote daemon t input' output' duplex
          client payload f.world w r answer app v connected unused fp fd arrived silent joined
          called fa fc decodes in
      let done = request_settled os fuel client payload f.world answer once in
      let lem =
        sockd_client_request_lem os from_utf8 fresh fuel config bytes len ptr_out len_out error_out
          c payload (seen answer) f (request os fuel client payload f.world).1 is done in
      (ap (λ x. x.0) lem, ap (λ x. x.1.memory) lem)
