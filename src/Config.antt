-- ===== src/Config.antt =====
-- src/config.rs: the settings of a daemon, and those of a client's auto-start.
-- The methods of `AutoStart` are in the module `Starting`.
pub mod Starting
use sockd.Common.{ℕ, ◌*◌, String, Option, none, List, [], ◌∷◌, ◌++◌, codes}
use sockd.Text.{Text}
use sockd.Error.{FilePath, Duration}

-- `Duration::from_secs` and `Duration::from_millis`
abbrev pub from_secs : ℕ → Duration
from_secs n = n * 1_000_000_000

abbrev pub from_millis : ℕ → Duration
from_millis n = n * 1_000_000

-- `DEFAULT_MAX_PAYLOAD_LEN` of src/frame.rs
abbrev pub default_max_payload_len : ℕ
default_max_payload_len = 16 * 1024 * 1024

pub record DaemonConfig : Type 0 where
  pub socket_path : FilePath
  pub pid_file : Option FilePath
  pub idle_timeout : Duration
  pub poll_interval : Duration
  pub max_payload_len : ℕ

unfoldable pub default_config : DaemonConfig
default_config = record {
  socket_path = codes "/tmp/sockd.sock";
  pid_file = none;
  idle_timeout = from_secs 300;
  poll_interval = from_millis 250;
  max_payload_len = default_max_payload_len;
}

pub record AutoStart : Type 0 where
  pub program : FilePath
  pub args : List Text
  pub ready_timeout : Duration
  pub initial_backoff : Duration
  pub max_backoff : Duration
