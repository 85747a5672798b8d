-- ===== src/Client/Departure.antt =====
-- `shutdown` of src/client.rs with a daemon that acknowledges and then cleans up.
use sockd.Common.{
  ℕ, zero, suc, ◌+◌, ◌*◌, ◌≤◌, ◌<◌, ◌^◌, ◌≡◌, refl, ◌∙◌, inl, inr, true, false, arith, Bool-cases,
  ltb, leb, ltb→lt, List, [], ◌++◌, length,
}
use sockd.Common.Words.{u32_max}
use sockd.Outcome.{ok, err}
use sockd.Error.{IoError, ErrorKind}
use sockd.Config.{from_millis}
use sockd.Frame.{FrameKind, read_frame, write_frame}
use sockd.Frame.Streams.{wire}
use sockd.Frame.Receiving.{read_frame-wire}
use sockd.Os.{Os}
use sockd.Client.{Client}
use sockd.Client.Waiting.{
  pid_file_points_to_live_process, socket_gone, shutdown_complete, shutdown_loop, wait_for_shutdown,
  acked, stopping, shutdown,
}
use sockd.Client.Clock.{IsTimed, write_frame-later, read_frame-later}
use sockd.Client.Conversation.{IsConversation, sent_input}

-- A daemon that goes: from the time `gone` on its socket is not there, and its PID file names no
-- live process.
pub record IsLeaving (os : Os) (clock : os.World → ℕ) (c : Client) (gone : ℕ) (absent : IoError)
    : Type 0 where
  pub absent_kind : absent.kind ≡ ErrorKind.not_found
  pub there :
      (w : os.World)
      → clock (os.metadata c.socket_path w).1 < gone
      → (os.metadata c.socket_path w).0 ≡ ok tt
  pub removed :
      (w : os.World)
      → gone ≤ clock (os.metadata c.socket_path w).1
      → (os.metadata c.socket_path w).0 ≡ err absent
  pub released :
      (w : os.World) → gone ≤ clock w → (pid_file_points_to_live_process os c w).0 ≡ ok false

module _ (os : Os) (clock : os.World → ℕ) (timed : IsTimed os clock) (c : Client) (gone : ℕ)
    (absent : IoError) (leaving : IsLeaving os clock c gone absent) where
  abbrev looked : os.World → os.World
  looked w = (os.metadata c.socket_path w).1

  still_there :
      (w : os.World) → clock (looked w) < gone → shutdown_complete os c w ≡ (ok false, looked w)
  unfolding shutdown_complete socket_gone
  still_there w early = rw (leaving.there w early)

  gone_now : (w : os.World) → gone ≤ clock (looked w) → (shutdown_complete os c w).0 ≡ ok true
  unfolding shutdown_complete socket_gone
  gone_now w late =
      rw (leaving.removed w late, leaving.absent_kind, leaving.released (looked w) late)

  abbrev slept : os.World → os.World
  slept w = os.sleep (from_millis 20) (looked w)

  early_round :
      (fuel deadline : ℕ) (w : os.World)
      → clock (looked w) < gone
      → gone ≤ deadline
      → shutdown_loop os (suc fuel) c deadline w ≡ shutdown_loop os fuel c deadline (slept w)
  unfolding shutdown_loop
  early_round fuel deadline w early timely =
      let before : leb deadline (clock (looked w)) ≡ false = ground arith in
      rw (still_there w early, timed.reads (looked w), before) refl

  shutdown_loop-ok :
      (fuel deadline : ℕ) (w : os.World)
      → gone ≤ deadline
      → gone ≤ clock w + fuel * from_millis 20
      → (shutdown_loop os (suc fuel) c deadline w).0 ≡ ok tt
  unfolding shutdown_loop
  shutdown_loop-ok zero deadline w timely h =
      let later = timed.looks c.socket_path w in rw (gone_now w (omega arith))
  shutdown_loop-ok (suc fuel) deadline w timely h =
      elim (Bool-cases (ltb (clock (looked w)) gone)) [
        | inr late ↦ rw (gone_now w (ground (arith, late)))
        | inl before ↦
            let early = ltb→lt (clock (looked w)) gone before in
            let later = timed.looks c.socket_path w in
            let waited = timed.sleeps (from_millis 20) (looked w) in
            rw (early_round (suc fuel) deadline w early timely)
              (shutdown_loop-ok fuel deadline (slept w) timely (omega arith))
      ]

  module _ (s : os.Stream) (input output : os.World → List ℕ) (peer : List ℕ → List ℕ)
      (talks : IsConversation os s input output peer) (greeting rest : List ℕ) (flags : ℕ)
      (word : flags < 2 ^ 16) (fits : length greeting ≤ u32_max)
      (allowed : length greeting ≤ c.max_payload_len)
      (acks : peer (wire FrameKind.shutdown 0 [])
        ≡ wire FrameKind.shutdown_ack flags greeting ++ rest) where
    -- The daemon acknowledges the Shutdown frame of a fresh connection, and within the shutdown
    -- timeout its socket is gone and its PID file names no live process. Then shutdown returns, and
    -- tells its caller that a daemon was stopped. The fuel is more than the time until then over the
    -- 20 milliseconds of a round.
    pub shutdown_succeeds :
        (fuel : ℕ) (w w₁ : os.World)
        → os.connect c.socket_path w ≡ (ok s, w₁)
        → output w₁ ≡ []
        → gone ≤ clock w₁ + c.shutdown_timeout
        → gone ≤ clock w₁ + fuel * from_millis 20
        → (shutdown os (suc fuel) c w).0 ≡ ok true
    unfolding shutdown stopping acked wait_for_shutdown
    shutdown_succeeds fuel w w₁ connected fresh timely enough =
        let sent =
          sent_input os s input output peer talks FrameKind.shutdown [] w₁ fresh (omega arith) in
        let w₂ = (write_frame (os.writer s) FrameKind.shutdown [] w₁).1 in
        let received =
          read_frame-wire (os.reader s) input talks.reading c.max_payload_len FrameKind.shutdown_ack
            flags greeting rest w₂ word fits allowed (sent.1 ∙ acks) in
        let w₃ = (read_frame (os.reader s) c.max_payload_len w₂).1 in
        let wrote = write_frame-later os clock timed s FrameKind.shutdown [] w₁ in
        let read = read_frame-later os clock timed s c.max_payload_len w₂ in
        let waited =
          shutdown_loop-ok fuel (clock w₃ + c.shutdown_timeout) w₃ (omega arith) (omega arith) in
        rw (connected, sent.0, received.0, timed.reads w₃, waited)
