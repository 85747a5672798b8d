-- ===== src/Client.antt =====
-- src/client.rs: one connection for each call, auto-start of the daemon and the waiting for it.
pub mod Backoff
pub mod Exchange
pub mod Kept
pub mod Waiting
pub mod Conversation
pub mod Served
pub mod Clock
pub mod Patience
pub mod Spawning
pub mod Absence
pub mod Stopping
pub mod Ending
pub mod Recovery
pub mod Departure
use sockd.Common.{
  ℕ, zero, suc, ◌+◌, ◌*◌, ◌-◌, ◌^◌, min, Bool, true, false, not, Option, none, some, List, [], ltb,
  leb, if◌then◌else◌,
}
use sockd.Outcome.{
  Result, ok, err, Exec, Halt, raised, unfinished, pure, raise, effect, attempt, mapping_err, ◌>>=◌,
  ◌>>◌,
}
use sockd.Error.{
  Error, IoError, ErrorKind, FilePath, Duration, io, unexpected_frame_kind, daemon_returned_error,
}
use sockd.Config.{AutoStart, default_max_payload_len, from_secs, from_millis}
use sockd.Config.Starting
use sockd.Frame.{Frame, FrameKind, label, read_frame, write_frame}
use sockd.Os.{Os}
use sockd.Pidfile.{read_pid, is_process_alive}
use sockd.Process.{spawn_detached}

pub record Client : Type 0 where
  pub socket_path : FilePath
  pub pid_file : Option FilePath
  pub auto_start : Option AutoStart
  pub max_payload_len : ℕ
  pub shutdown_timeout : Duration

unfoldable pub new : FilePath → Client
new socket_path = record {
  socket_path = socket_path;
  pid_file = none;
  auto_start = none;
  max_payload_len = default_max_payload_len;
  shutdown_timeout = from_secs 2;
}

unfoldable pub with_pid_file : Client → FilePath → Client
with_pid_file c pid_file = record c { pid_file = some pid_file }

unfoldable pub with_auto_start : Client → FilePath → Client
unfolding Starting.new
with_auto_start c program = record c { auto_start = some (Starting.new program) }

unfoldable pub with_auto_start_config : Client → AutoStart → Client
with_auto_start_config c auto_start = record c { auto_start = some auto_start }

unfoldable pub with_max_payload_len : Client → ℕ → Client
with_max_payload_len c max_payload_len = record c { max_payload_len = max_payload_len }

unfoldable pub with_shutdown_timeout : Client → Duration → Client
with_shutdown_timeout c shutdown_timeout = record c { shutdown_timeout = shutdown_timeout }

unfoldable pub matches_recoverable_connect_error : ErrorKind → Bool
matches_recoverable_connect_error ErrorKind.not_found = true
matches_recoverable_connect_error ErrorKind.connection_refused = true
matches_recoverable_connect_error ErrorKind.connection_aborted = true
matches_recoverable_connect_error ErrorKind.not_connected = true
matches_recoverable_connect_error _ = false

unfoldable pub can_attempt_recovery : Error → Bool
unfolding matches_recoverable_connect_error
can_attempt_recovery (io e) = matches_recoverable_connect_error e.kind
can_attempt_recovery _ = false

-- `Duration::MAX`, and `backoff.saturating_mul(2).min(max_backoff)`
abbrev pub duration_max : Duration
duration_max = 2 ^ 64 * 1_000_000_000 - 1

unfoldable pub next_backoff : Duration → Duration → Duration
next_backoff max_backoff backoff = min (min (backoff * 2) duration_max) max_backoff

module _ (os : Os) {E A : Type 0} where
  -- The body of a function that opens a stream, which is dropped when the body ends.
  unfoldable pub with_stream : os.Stream → Exec os.World E A → Exec os.World E A
  with_stream stream body w = let (r, w') = body w in (r, os.close stream w')
