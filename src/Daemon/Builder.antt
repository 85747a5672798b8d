-- ===== src/Daemon/Builder.antt =====
-- `DaemonBuilder` of src/daemon.rs.
use sockd.Common.{ℕ, Option, none, some, codes}
use sockd.Outcome.{Result, ok, err, pure}
use sockd.Error.{Error, FilePath, Duration, missing_callback}
use sockd.Config.{default_config}
use sockd.Daemon.{Daemon, DaemonBuilder, StartCallback, RequestCallback, StopCallback}

module _ {W : Type 0} where
  -- `Daemon::builder()`
  unfoldable pub builder : DaemonBuilder W (Unit {0})
  unfolding default_config
  builder = record {
    config = default_config;
    on_start = pure tt;
    on_request = none;
    on_stop = λ _. pure tt;
  }

  -- The state's type changes, so the callbacks that were set before are dropped.
  unfoldable pub on_start :
      {S : Type 0} → DaemonBuilder W (Unit {0}) → StartCallback W S → DaemonBuilder W S
  on_start b f = record {
    config = b.config;
    on_start = f;
    on_request = none;
    on_stop = λ _. pure tt;
  }

module _ {W S : Type 0} where
  unfoldable pub socket : DaemonBuilder W S → FilePath → DaemonBuilder W S
  socket b path = record b { config = record b.config { socket_path = path } }

  unfoldable pub pid_file : DaemonBuilder W S → FilePath → DaemonBuilder W S
  pid_file b path = record b { config = record b.config { pid_file = some path } }

  unfoldable pub idle_timeout : DaemonBuilder W S → Duration → DaemonBuilder W S
  idle_timeout b d = record b { config = record b.config { idle_timeout = d } }

  unfoldable pub poll_interval : DaemonBuilder W S → Duration → DaemonBuilder W S
  poll_interval b d = record b { config = record b.config { poll_interval = d } }

  unfoldable pub max_payload_len : DaemonBuilder W S → ℕ → DaemonBuilder W S
  max_payload_len b n = record b { config = record b.config { max_payload_len = n } }

  unfoldable pub on_request : DaemonBuilder W S → RequestCallback W S → DaemonBuilder W S
  on_request b f = record b { on_request = some f }

  unfoldable pub on_stop : DaemonBuilder W S → StopCallback W S → DaemonBuilder W S
  on_stop b f = record b { on_stop = f }

  build_with : DaemonBuilder W S → Option (RequestCallback W S) → Result (Daemon W S) Error
  build_with b none = err (missing_callback (codes "on_request"))
  build_with b (some f) =
      ok (record { config = b.config; on_start = b.on_start; on_request = f; on_stop = b.on_stop })

  unfoldable pub build : DaemonBuilder W S → Result (Daemon W S) Error
  unfolding build_with
  build b = build_with b b.on_request
