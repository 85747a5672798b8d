-- ===== src/Client/Clock.antt =====
-- The monotonic clock that the waiting loops of src/client.rs read, and that the single exchanges
-- do not turn it back.
use sockd.Common.{ℕ, ◌+◌, ◌≤◌, ◌≡◌, arith, List, []}
use sockd.Outcome.{ok}
use sockd.Error.{FilePath, Duration}
use sockd.Common.Int.{ℤ}
use sockd.Frame.{FrameKind, read_frame, write_frame, write_frame_with_flags}
use sockd.Os.{Os}
use sockd.Pidfile.{read_pid, is_process_alive}
use sockd.Client.{Client}
use sockd.Client.Exchange.{try_ping_once, pong_of}
use sockd.Client.Waiting.{alive_pid, live_at, pid_file_points_to_live_process}

-- What `Instant` documents: it never goes back. A sleep lasts at least as long as it is told to.
pub record IsTimed (os : Os) (clock : os.World → ℕ) : Type 0 where
  pub reads : (w : os.World) → os.now w ≡ (clock w, w)
  pub sleeps : (d : Duration) (w : os.World) → clock w + d ≤ clock (os.sleep d w)
  pub connects : (p : FilePath) (w : os.World) → clock w ≤ clock (os.connect p w).1
  pub gets :
      (s : os.Stream) (n : ℕ) (w : os.World) → clock w ≤ clock ((os.reader s).read_exact n w).1
  pub puts :
      (s : os.Stream) (bytes : List ℕ) (w : os.World)
      → clock w ≤ clock ((os.writer s).write_all bytes w).1
  pub flushes : (s : os.Stream) (w : os.World) → clock w ≤ clock ((os.writer s).flush w).1
  pub closes : (s : os.Stream) (w : os.World) → clock w ≤ clock (os.close s w)
  pub looks : (p : FilePath) (w : os.World) → clock w ≤ clock (os.metadata p w).1
  pub loads : (p : FilePath) (w : os.World) → clock w ≤ clock (os.read_to_string p w).1
  pub probes : (z : ℤ) (signal : ℕ) (w : os.World) → clock w ≤ clock (os.kill z signal w).1

module _ (os : Os) (clock : os.World → ℕ) (timed : IsTimed os clock) where
  pub write_frame-later :
      (s : os.Stream) (kind : FrameKind) (payload : List ℕ) (w : os.World)
      → clock w ≤ clock (write_frame (os.writer s) kind payload w).1
  unfolding write_frame write_frame_with_flags
  write_frame-later s kind payload w = grind (arith, timed.puts s, timed.flushes s)

  pub read_frame-later :
      (s : os.Stream) (max : ℕ) (w : os.World) → clock w ≤ clock (read_frame (os.reader s) max w).1
  unfolding read_frame
  read_frame-later s max w = grind (arith, timed.gets s)

  pub try_ping_once-later : (c : Client) (w : os.World) → clock w ≤ clock (try_ping_once os c w).1
  unfolding try_ping_once pong_of
  try_ping_once-later c w = grind (
    arith,
    timed.connects c.socket_path,
    timed.closes,
    (λ (s : os.Stream). write_frame-later s FrameKind.ping []),
    (λ (s : os.Stream). read_frame-later s c.max_payload_len),
  )

  pub connected_ping-later :
      (c : Client) (s : os.Stream) (w w₁ : os.World)
      → os.connect c.socket_path w ≡ (ok s, w₁)
      → clock w₁ ≤ clock (try_ping_once os c w).1
  unfolding try_ping_once pong_of
  connected_ping-later c s w w₁ connected = rw connected (
      grind (
        arith,
        timed.closes,
        write_frame-later s FrameKind.ping [],
        read_frame-later s c.max_payload_len,
      ))

  pub live-later :
      (c : Client) (w : os.World) → clock w ≤ clock (pid_file_points_to_live_process os c w).1
  unfolding pid_file_points_to_live_process live_at alive_pid read_pid is_process_alive
  live-later c w = grind (arith, timed.loads, timed.probes)
