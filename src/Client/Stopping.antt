-- ===== src/Client/Stopping.antt =====
-- What `shutdown` of src/client.rs tells its caller.
use sockd.Common.{ℕ, ◌+◌, ◌≡◌, refl, ap, ◌⊎◌, Bool, true, false, inl, inr, arith, List, []}
use sockd.Outcome.{ok, err, Result-cases}
use sockd.Error.{IoError, ErrorKind}
use sockd.Frame.{Frame, FrameKind, read_frame, write_frame}
use sockd.Os.{Os}
use sockd.Client.{Client, with_stream, matches_recoverable_connect_error}
use sockd.Client.Waiting.{
  should_treat_connect_error_as_not_running, shutdown_loop, wait_for_shutdown, acked, stopping,
  shutdown,
}
use sockd.Client.Absence.{Unowned, FoundGone, pid_file-Unowned, shutdown_loop-FoundGone}

module _ (os : Os) where
  -- From `w` to `w'` a Shutdown frame is written to the stream and acknowledged.
  abbrev pub Acknowledged : Client → os.Stream → os.World → os.World → Type 0
  Acknowledged c s w w' =
      (v : os.World) × (frame : Frame) × (write_frame (os.writer s) FrameKind.shutdown [] w
        ≡ (ok tt, v))
      × (read_frame (os.reader s) c.max_payload_len v ≡ (ok frame, w'))
      × (frame.kind ≡ FrameKind.shutdown_ack)

  -- The kinds of error that an absent daemon explains.
  abbrev pub ExplainedByAbsence : ErrorKind → Type 0
  ExplainedByAbsence k =
      (k ≡ ErrorKind.not_found)
      ⊎ ((k ≡ ErrorKind.connection_refused)
          ⊎ ((k ≡ ErrorKind.connection_aborted) ⊎ (k ≡ ErrorKind.not_connected)))

  -- What each answer rests on, in a call that began at `w` and returned at `w'`.
  abbrev pub Grounds : Client → os.World → os.World → Bool → Type 0
  Grounds c w w' true =
      (s : os.Stream) × (w₁ : os.World) × (w₂ : os.World) × (w₃ : os.World) × (w₄ : os.World)
      × (os.connect c.socket_path w ≡ (ok s, w₁))
      × Acknowledged c s w₁ w₂
      × FoundGone os c w₃ w₄
      × (w' ≡ os.close s w₄)
  Grounds c w w' false =
      (e : IoError) × (w₁ : os.World) × (os.connect c.socket_path w ≡ (err e, w₁))
      × ExplainedByAbsence e.kind
      × Unowned os c.pid_file w₁ w'

  recoverable-ExplainedByAbsence :
      (k : ErrorKind) → matches_recoverable_connect_error k ≡ true → ExplainedByAbsence k
  unfolding matches_recoverable_connect_error
  recoverable-ExplainedByAbsence ErrorKind.not_found h = inl refl
  recoverable-ExplainedByAbsence ErrorKind.connection_refused h = inr (inl refl)
  recoverable-ExplainedByAbsence ErrorKind.connection_aborted h = inr (inr (inl refl))
  recoverable-ExplainedByAbsence ErrorKind.not_connected h = inr (inr (inr refl))
  recoverable-ExplainedByAbsence _ h = absurd cc

  acked_answers :
      (fuel : ℕ) (c : Client) (kind : FrameKind) (payload : List ℕ) (w w' : os.World)
      (answer : Bool)
      → acked os fuel c kind payload w ≡ (ok answer, w')
      → (answer ≡ true) × (kind ≡ FrameKind.shutdown_ack) × ((w₃ : os.World) × FoundGone os c w₃ w')
  unfolding acked wait_for_shutdown
  acked_answers fuel c FrameKind.shutdown_ack payload w w' answer h =
      let deadline = (os.now w).0 + c.shutdown_timeout in
      let waited = shutdown_loop os fuel c deadline (os.now w).1 in
      elim (Result-cases waited.0) [
        | inr (e, failed) ↦ absurd (ground (arith, h, failed))
        | inl (done, ended) ↦ (
          ground (arith, h, ended),
          refl,
          shutdown_loop-FoundGone os fuel c deadline (os.now w).1 w' (ground (arith, h, ended)),
        )
      ]
  acked_answers fuel c FrameKind.error payload w w' answer h = absurd (ground (arith, h))
  acked_answers fuel c _ payload w w' answer h = absurd (ground (arith, h))

  asked_answers :
      (fuel : ℕ) (c : Client) (s : os.Stream) (w w' : os.World) (answer : Bool)
      → stopping os fuel c (ok s) w ≡ (ok answer, w')
      → (answer ≡ true)
        × ((w₂ : os.World) × (w₃ : os.World) × (w₄ : os.World) × Acknowledged c s w w₂
            × FoundGone os c w₃ w₄
            × (w' ≡ os.close s w₄))
  unfolding stopping with_stream
  asked_answers fuel c s w w' answer h =
      let w₁ = (write_frame (os.writer s) FrameKind.shutdown [] w).1 in
      let w₂ = (read_frame (os.reader s) c.max_payload_len w₁).1 in
      elim (Result-cases (write_frame (os.writer s) FrameKind.shutdown [] w).0) [
        | inr (e, failed) ↦ absurd (ground (arith, h, failed))
        | inl (done, sent) ↦ elim (Result-cases (read_frame (os.reader s) c.max_payload_len w₁).0) [
          | inr (e, failed) ↦ absurd (ground (arith, h, sent, failed))
          | inl (frame, got) ↦
              let w₄ = (acked os fuel c frame.kind frame.payload w₂).1 in
              let told =
                acked_answers fuel c frame.kind frame.payload w₂ w₄ answer
                  (ground (arith, h, sent, got)) in
              let (w₃, gone) = told.2 in
              (
                told.0,
                (
                  w₂,
                  w₃,
                  w₄,
                  (w₁, frame, ap (λ r. (r, w₁)) sent, ap (λ r. (r, w₂)) got, told.1),
                  gone,
                  ground (arith, h, sent, got),
                ),
              )
        ]
      ]

  unreached_answers :
      (fuel : ℕ) (c : Client) (e : IoError) (w w' : os.World) (answer : Bool)
      → stopping os fuel c (err e) w ≡ (ok answer, w')
      → (answer ≡ false) × ExplainedByAbsence e.kind × Unowned os c.pid_file w w'
  unfolding stopping should_treat_connect_error_as_not_running
  unreached_answers fuel c e w w' answer h =
      let recoverable : matches_recoverable_connect_error e.kind ≡ true = ground (arith, h) in
      (
        ground (arith, h),
        recoverable-ExplainedByAbsence e.kind recoverable,
        pid_file-Unowned os c w w' (ground (arith, h, recoverable)),
      )

  -- If `shutdown` answers true, it had reached a daemon, which acknowledged the Shutdown frame; then
  -- the client found no socket file at its path, and that there is no PID file, that it holds no
  -- number or that a signal to the process it names fails and not for want of permission; and with
  -- that it closed its stream and returned. If it answers false, nothing was sent: the connection
  -- failed with an error of a kind that an absent daemon explains, and the client found the same of
  -- the PID file and returned. A client that knows no PID file does not look for one.
  pub shutdown_answers :
      (fuel : ℕ) (c : Client) (w : os.World) (answer : Bool)
      → (shutdown os fuel c w).0 ≡ ok answer
      → Grounds c w (shutdown os fuel c w).1 answer
  unfolding shutdown
  shutdown_answers fuel c w true h =
      let w₁ = (os.connect c.socket_path w).1 in
      let w' = (shutdown os fuel c w).1 in
      elim (Result-cases (os.connect c.socket_path w).0) [
        | inl (s, reached) ↦
            let (w₂, w₃, w₄, acknowledged, gone, closed) =
              (asked_answers fuel c s w₁ w' true (ground (arith, h, reached))).1 in
            (s, w₁, w₂, w₃, w₄, ap (λ r. (r, w₁)) reached, acknowledged, gone, closed)
        | inr (e, failed) ↦
            absurd (cc ((unreached_answers fuel c e w₁ w' true (ground (arith, h, failed))).0))
      ]
  shutdown_answers fuel c w false h =
      let w₁ = (os.connect c.socket_path w).1 in
      let w' = (shutdown os fuel c w).1 in
      elim (Result-cases (os.connect c.socket_path w).0) [
        | inl (s, reached) ↦
            absurd (cc ((asked_answers fuel c s w₁ w' false (ground (arith, h, reached))).0))
        | inr (e, failed) ↦
            let idle = unreached_answers fuel c e w₁ w' false (ground (arith, h, failed)) in
            (e, w₁, ap (λ r. (r, w₁)) failed, idle.1, idle.2)
      ]
