-- ===== src/Client/Waiting.antt =====
-- The calls of src/client.rs that wait: `ping`, `request` and `shutdown`, with the recovery that
-- starts the daemon. The fuel is the number of rounds that a waiting loop may take.
use sockd.Common.{
  ℕ, zero, suc, ◌+◌, Bool, true, false, not, Option, none, some, List, [], ltb, leb, if◌then◌else◌,
}
use sockd.Text.{Text}
use sockd.Outcome.{
  Result, ok, err, Exec, Halt, raised, unfinished, pure, raise, effect, silently, attempt,
  mapping_err, ◌>>=◌, ◌>>◌,
}
use sockd.Error.{
  Error, IoError, ErrorKind, Duration, io, unexpected_frame_kind, daemon_returned_error,
  ready_timeout, shutdown_timeout,
}
use sockd.Config.{AutoStart, from_millis}
use sockd.Frame.{FrameKind, label, read_frame, write_frame}
use sockd.Os.{Os}
use sockd.Pidfile.{read_pid, is_process_alive}
use sockd.Process.{spawn_detached}
use sockd.Client.{
  Client, matches_recoverable_connect_error, can_attempt_recovery, next_backoff, with_stream,
}
use sockd.Client.Exchange.{try_ping_once, send_request_once}

module _ (os : Os) where
  open os use {World, Stream}

  unfoldable pub alive_pid : Option ℕ → Exec World Error Bool
  alive_pid none = pure false
  alive_pid (some pid) = effect (is_process_alive os pid)

  unfoldable pub live_at : Option Text → Exec World Error Bool
  unfolding alive_pid
  live_at none = pure false
  live_at (some path) = do pid ← read_pid os path; alive_pid pid

  unfoldable pub pid_file_points_to_live_process : Client → Exec World Error Bool
  unfolding live_at
  pid_file_points_to_live_process c = live_at c.pid_file

  -- What a round of `wait_for_ready` does with the outcome of its ping; `again` is the next round.
  unfoldable pub ready_round :
      Client
      → AutoStart
      → ℕ
      → Duration
      → Exec World (Halt Error) (Unit {0})
      → Result (Unit {0}) Error
      → Exec World (Halt Error) (Unit {0})
  ready_round c a deadline backoff again (ok _) = pure tt
  ready_round c a deadline backoff again (err e) =
      if can_attempt_recovery e
      then (do
        now ← effect os.now
        if ltb now deadline
            then (do silently (os.sleep backoff); again)
            else raise (raised (ready_timeout c.socket_path a.ready_timeout)))
      else raise (raised e)

  unfoldable pub ready_loop :
      ℕ → Client → AutoStart → ℕ → Duration → Exec World (Halt Error) (Unit {0})
  unfolding ready_round
  ready_loop zero c a deadline backoff = raise unfinished
  ready_loop (suc fuel) c a deadline backoff = do
    answer ← attempt (try_ping_once os c)
    ready_round c a deadline backoff
        (ready_loop fuel c a deadline (next_backoff a.max_backoff backoff)) answer

  unfoldable pub wait_for_ready : ℕ → Client → AutoStart → Exec World (Halt Error) (Unit {0})
  wait_for_ready fuel c a = do
    now ← effect os.now
    ready_loop fuel c a (now + a.ready_timeout) a.initial_backoff

  unfoldable pub start_unless : Bool → AutoStart → Exec World Error (Unit {0})
  start_unless true a = pure tt
  start_unless false a = spawn_detached os a

  unfoldable pub recover_with :
      ℕ → Client → Option AutoStart → Error → Exec World (Halt Error) (Unit {0})
  unfolding start_unless
  recover_with fuel c none e = raise (raised e)
  recover_with fuel c (some a) e =
      if can_attempt_recovery e
      then (do
        live ← mapping_err raised (pid_file_points_to_live_process c)
        mapping_err raised (start_unless live a)
        wait_for_ready fuel c a)
      else raise (raised e)

  unfoldable pub recover_if_needed : ℕ → Client → Error → Exec World (Halt Error) (Unit {0})
  unfolding recover_with
  recover_if_needed fuel c e = recover_with fuel c c.auto_start e

  unfoldable pub pinged : ℕ → Client → Result (Unit {0}) Error → Exec World (Halt Error) (Unit {0})
  pinged fuel c (ok _) = pure tt
  pinged fuel c (err e) = recover_if_needed fuel c e

  unfoldable pub ping : ℕ → Client → Exec World (Halt Error) (Unit {0})
  unfolding pinged
  ping fuel c = do answer ← attempt (try_ping_once os c); pinged fuel c answer

  unfoldable pub requested :
      ℕ → Client → List ℕ → Result (List ℕ) Error → Exec World (Halt Error) (List ℕ)
  requested fuel c payload (ok response) = pure response
  requested fuel c payload (err e) = do
    recover_if_needed fuel c e
    mapping_err raised (send_request_once os c payload)

  unfoldable pub request : ℕ → Client → List ℕ → Exec World (Halt Error) (List ℕ)
  unfolding requested
  request fuel c payload = do
    answer ← attempt (send_request_once os c payload)
    requested fuel c payload answer

  unfoldable pub socket_gone : Result (Unit {0}) IoError → Exec World Error Bool
  socket_gone (ok _) = pure false
  socket_gone (err e) = elim e.kind [ ErrorKind.not_found ↦ pure true | _ ↦ raise (io e) ]

  unfoldable pub shutdown_complete : Client → Exec World Error Bool
  unfolding socket_gone
  shutdown_complete c = do
    answer ← attempt (os.metadata c.socket_path)
    gone ← socket_gone answer
    if gone then (do live ← pid_file_points_to_live_process c; pure (not live)) else pure false

  unfoldable pub shutdown_loop : ℕ → Client → ℕ → Exec World (Halt Error) (Unit {0})
  shutdown_loop zero c deadline = raise unfinished
  shutdown_loop (suc fuel) c deadline = do
    let again = shutdown_loop fuel c deadline
    complete ← mapping_err raised (shutdown_complete c)
    if complete then pure tt else do
      now ← effect os.now
      if leb deadline now
          then raise (raised (shutdown_timeout c.socket_path c.shutdown_timeout))
          else (do silently (os.sleep (from_millis 20)); again)

  unfoldable pub wait_for_shutdown : ℕ → Client → Exec World (Halt Error) (Unit {0})
  wait_for_shutdown fuel c = do now ← effect os.now; shutdown_loop fuel c (now + c.shutdown_timeout)

  unfoldable pub should_treat_connect_error_as_not_running :
      Client → IoError → Exec World Error Bool
  should_treat_connect_error_as_not_running c e =
      if matches_recoverable_connect_error e.kind
      then (do live ← pid_file_points_to_live_process c; pure (not live))
      else pure false

  unfoldable pub acked : ℕ → Client → FrameKind → List ℕ → Exec World (Halt Error) Bool
  acked fuel c FrameKind.shutdown_ack payload = do wait_for_shutdown fuel c; pure true
  acked fuel c FrameKind.error payload =
      raise (raised (daemon_returned_error (os.from_utf8_lossy payload)))
  acked fuel c other payload =
      raise (raised (unexpected_frame_kind (label FrameKind.shutdown_ack) (label other)))

  unfoldable pub stopping : ℕ → Client → Result Stream IoError → Exec World (Halt Error) Bool
  unfolding acked with_stream
  stopping fuel c (ok stream) = with_stream os stream do
    mapping_err raised (write_frame (os.writer stream) FrameKind.shutdown [])
    frame ← mapping_err raised (read_frame (os.reader stream) c.max_payload_len)
    acked fuel c frame.kind frame.payload
  stopping fuel c (err e) = do
    idle ← mapping_err raised (should_treat_connect_error_as_not_running c e)
    if idle then pure false else raise (raised (io e))

  unfoldable pub shutdown : ℕ → Client → Exec World (Halt Error) Bool
  unfolding stopping
  shutdown fuel c = do answer ← attempt (os.connect c.socket_path); stopping fuel c answer
