-- ===== src/Client/Recovery.antt =====
-- Auto-start in src/client.rs: the daemon that a request starts comes to answer it.
use sockd.Common.{
  ℕ, zero, suc, ◌+◌, ◌*◌, ◌≤◌, ◌<◌, ◌^◌, ◌≡◌, refl, ap, ◌⊎◌, inl, inr, true, false, Option, none,
  some, arith, Bool-cases, ltb, ltb→lt, lt→ltb, List, [], ◌++◌, length, ◌∙◌,
}
use sockd.Common.Words.{u32_max}
use sockd.Outcome.{ok, err}
use sockd.Error.{IoError, io, Duration}
use sockd.Config.{AutoStart}
use sockd.Process.{command_of, spawn_detached}
use sockd.Frame.{FrameKind}
use sockd.Frame.Streams.{wire}
use sockd.Os.{Os}
use sockd.Client.{
  Client, matches_recoverable_connect_error, can_attempt_recovery, next_backoff, duration_max,
}
use sockd.Client.Exchange.{try_ping_once, send_request_once}
use sockd.Client.Waiting.{
  pid_file_points_to_live_process, start_unless, ready_round, ready_loop, wait_for_ready,
  recover_with, recover_if_needed, requested, request,
}
use sockd.Client.Clock.{IsTimed, try_ping_once-later, connected_ping-later}
use sockd.Client.Kept.{KeepsView, try_ping_once-keeps}
use sockd.Client.Conversation.{IsConversation, send_request_once_answered, try_ping_once_answered}
use sockd.Client.Patience.{next_backoff-least}

-- A daemon that is not there until it is started: `due w` is the time from which it answers, if
-- somebody has started it. Until then a connection is refused with `refusal`.
pub record IsBooting (os : Os) (clock : os.World → ℕ) (due : os.World → Option ℕ) (c : Client)
    (a : AutoStart) (s : os.Stream) (output : os.World → List ℕ) (refusal : IoError) : Type 0 where
  pub recoverable : matches_recoverable_connect_error refusal.kind ≡ true
  pub down : (w : os.World) → due w ≡ none → (os.connect c.socket_path w).0 ≡ err refusal
  pub early :
      (t : ℕ) (w : os.World)
      → due w ≡ some t
      → clock (os.connect c.socket_path w).1 < t
      → (os.connect c.socket_path w).0 ≡ err refusal
  pub up :
      (t : ℕ) (w : os.World)
      → due w ≡ some t
      → t ≤ clock (os.connect c.socket_path w).1
      → ((os.connect c.socket_path w).0 ≡ ok s) × (output (os.connect c.socket_path w).1 ≡ [])
  pub unowned :
      (w : os.World)
      → due w ≡ none
      → ((pid_file_points_to_live_process os c w).0 ≡ ok false)
        × (due (pid_file_points_to_live_process os c w).1 ≡ none)
  pub starts :
      (w : os.World)
      → due w ≡ none
      → ((os.spawn (command_of a) w).0 ≡ ok tt)
        × ((t : ℕ) × (due (os.spawn (command_of a) w).1 ≡ some t)
            × (t ≤ clock (os.spawn (command_of a) w).1 + a.ready_timeout))
  pub keeps : KeepsView os due
  pub sleeps : (d : Duration) (w : os.World) → due (os.sleep d w) ≡ due w

module _ (os : Os) (clock : os.World → ℕ) (timed : IsTimed os clock) (due : os.World → Option ℕ)
    (c : Client) (a : AutoStart) (s : os.Stream) (input output : os.World → List ℕ)
    (peer : List ℕ → List ℕ) (talks : IsConversation os s input output peer) (refusal : IoError)
    (booting : IsBooting os clock due c a s output refusal) where
  abbrev connected : os.World → os.World
  connected w = (os.connect c.socket_path w).1

  -- A call on a refused connection is that refusal.
  refused_ping :
      (w : os.World)
      → (os.connect c.socket_path w).0 ≡ err refusal
      → try_ping_once os c w ≡ (err (io refusal), connected w)
  unfolding try_ping_once
  refused_ping w refused = rw refused

  refused_request :
      (payload : List ℕ) (w : os.World)
      → (os.connect c.socket_path w).0 ≡ err refusal
      → send_request_once os c payload w ≡ (err (io refusal), connected w)
  unfolding send_request_once
  refused_request payload w refused = rw refused

  -- From the time `t` on the daemon answers.
  abbrev Serves : ℕ → os.World → Type 0
  Serves t w = (due w ≡ some t) × (t ≤ clock w)

  module _ (greeting rest : List ℕ) (flags : ℕ) (word : flags < 2 ^ 16)
      (fits : length greeting ≤ u32_max) (allowed : length greeting ≤ c.max_payload_len)
      (pongs : peer (wire FrameKind.ping 0 []) ≡ wire FrameKind.pong flags greeting ++ rest) where
    -- A ping is answered if the daemon is up when the connection is made, and refused otherwise.
    ping_cases :
        (t : ℕ) (w : os.World)
        → due w ≡ some t
        → (((try_ping_once os c w).0 ≡ ok tt) × Serves t (try_ping_once os c w).1)
          ⊎ (((try_ping_once os c w).0 ≡ err (io refusal)) × (clock (try_ping_once os c w).1 < t))
    ping_cases t w at = elim (Bool-cases (ltb (clock (connected w)) t)) [
      | inl before ↦
          let early = ltb→lt (clock (connected w)) t before in
          rw (refused_ping w (booting.early t w at early)) (inr (refl, early))
      | inr from ↦
          let reached = booting.up t w at (ground (arith, from)) in
          let opened : os.connect c.socket_path w ≡ (ok s, connected w) = cc reached.0 in
          let later = connected_ping-later os clock timed c s w (connected w) opened in
          let kept = try_ping_once-keeps os due booting.keeps c w in
          inl (
            try_ping_once_answered os s input output peer talks c greeting rest flags w
                (connected w) opened reached.1 word fits allowed pongs,
            (kept ∙ at, ground (arith, from, later)),
          )
    ]

    -- The rounds of waiting lead to a ping that is answered, if the daemon is up by the deadline.
    ready_loop-Serves :
        (fuel t deadline b backoff : ℕ) (w : os.World)
        → due w ≡ some t
        → t ≤ deadline
        → b ≤ backoff
        → b ≤ a.max_backoff
        → a.max_backoff ≤ duration_max
        → t ≤ clock w + fuel * b
        → ((ready_loop os (suc fuel) c a deadline backoff w).0 ≡ ok tt)
          × Serves t (ready_loop os (suc fuel) c a deadline backoff w).1
    unfolding ready_loop ready_round can_attempt_recovery
    ready_loop-Serves zero t deadline b backoff w at timely h₁ h₂ h₃ h = elim (ping_cases t w at) [
      | inl (answered, serves) ↦ rw answered (refl, serves)
      | inr (refused, before) ↦
          let later = try_ping_once-later os clock timed c w in absurd (omega arith)
    ]
    ready_loop-Serves (suc fuel) t deadline b backoff w at timely h₁ h₂ h₃ h =
        let w₁ = (try_ping_once os c w).1 in
        elim (ping_cases t w at) [
          | inl (answered, serves) ↦ rw answered (refl, serves)
          | inr (refused, before) ↦
              let later = try_ping_once-later os clock timed c w in
              let slept = timed.sleeps backoff w₁ in
              let kept = booting.sleeps backoff w₁ ∙ try_ping_once-keeps os due booting.keeps c w in
              let early = lt→ltb (clock w₁) deadline (omega arith) in
              rw (refused, booting.recoverable, timed.reads w₁, early)
                (ready_loop-Serves fuel t deadline b (next_backoff a.max_backoff backoff)
                  (os.sleep backoff w₁) (kept ∙ at) timely
                  (next_backoff-least b a.max_backoff backoff h₁ h₂ h₃) h₂ h₃ (omega arith))
        ]

    -- After the start of the daemon, the wait for it ends with an answered ping.
    recover-Serves :
        (fuel b : ℕ) (w : os.World)
        → due w ≡ none
        → b ≤ a.initial_backoff
        → b ≤ a.max_backoff
        → a.max_backoff ≤ duration_max
        → a.ready_timeout ≤ fuel * b
        → let end = recover_with os (suc fuel) c (some a) (io refusal) w in
          (end.0 ≡ ok tt) × ((t : ℕ) × Serves t end.1)
    unfolding recover_with start_unless spawn_detached wait_for_ready can_attempt_recovery
    recover-Serves fuel b w none_due h₁ h₂ h₃ h =
        let w₁ = (pid_file_points_to_live_process os c w).1 in
        let w₂ = (os.spawn (command_of a) w₁).1 in
        let free = booting.unowned w none_due in
        let (started, (t, at, soon)) = booting.starts w₁ free.1 in
        let ready =
          ready_loop-Serves fuel t (clock w₂ + a.ready_timeout) b a.initial_backoff w₂ at soon h₁ h₂
            h₃ (omega arith) in
        rw (booting.recoverable, free.0, started, timed.reads w₂) (ready.0, (t, ready.1))

    -- A daemon that nobody has started is started by the first request with auto-start: where it
    -- comes up within the ready timeout after the spawn, answers pings with a Pong and this request
    -- with a Response, and no live process owns the PID file before, the request returns the
    -- response. The fuel is more than the ready timeout over a least backoff.
    pub request_starts_daemon :
        (fuel b : ℕ) (payload response rest' : List ℕ) (flags' : ℕ) (w : os.World)
        → due w ≡ none
        → c.auto_start ≡ some a
        → b ≤ a.initial_backoff
        → b ≤ a.max_backoff
        → a.max_backoff ≤ duration_max
        → a.ready_timeout ≤ fuel * b
        → length payload ≤ u32_max
        → flags' < 2 ^ 16
        → length response ≤ u32_max
        → length response ≤ c.max_payload_len
        → peer (wire FrameKind.request 0 payload) ≡ wire FrameKind.response flags' response ++ rest'
        → (request os (suc fuel) c payload w).0 ≡ ok response
    unfolding request requested recover_if_needed
    request_starts_daemon fuel b payload response rest' flags' w none_due auto h₁ h₂ h₃ h fp ff fr
          fm answers =
        let down = booting.down w none_due in
        let kept = booting.keeps.connects c.socket_path w ∙ none_due in
        let (recovered, (t, (at, since))) = recover-Serves fuel b (connected w) kept h₁ h₂ h₃ h in
        let w₁ = (recover_with os (suc fuel) c (some a) (io refusal) (connected w)).1 in
        let later = timed.connects c.socket_path w₁ in
        let reached = booting.up t w₁ at (omega arith) in
        let opened : os.connect c.socket_path w₁ ≡ (ok s, connected w₁) = cc reached.0 in
        let served =
          send_request_once_answered os s input output peer talks c payload response rest'
            FrameKind.response flags' w₁ (connected w₁) opened reached.1 fp ff fr fm answers in
        let same = ap (λ x. recover_with os (suc fuel) c x (io refusal) (connected w)) auto in
        let here : recover_with os (suc fuel) c c.auto_start (io refusal) (connected w)
            ≡ (ok tt, w₁) =
          same ∙ cc recovered in
        rw (refused_request payload w down, here, served)
