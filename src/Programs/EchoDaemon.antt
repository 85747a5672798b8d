-- ===== src/Programs/EchoDaemon.antt =====
-- `main` of examples/echo_daemon.rs, without the line that it prints to stderr.
use sockd.Common.{ℕ, Option, none, some, codes}
use sockd.Text.{Text}
use sockd.Text.Decimal.{parse_u64}
use sockd.Outcome.{Result, Exec, Halt, raised, lift, mapping_err, map_err, ◌>>=◌}
use sockd.Config.{from_secs, from_millis}
use sockd.Os.{Os}
use sockd.Daemon.{Daemon}
use sockd.Daemon.Builder.{builder, socket, pid_file, idle_timeout, poll_interval, on_request, build}
use sockd.Daemon.Run.{run}
use sockd.Programs.{
  MainError, crate, of_crate, upper, Environment, unwrap_or, socket_path, pid_path,
}

abbrev pub sockd_idle_secs : Text
sockd_idle_secs = codes "SOCKD_IDLE_SECS"

-- `.and_then(|value| value.parse::<u64>().ok())`
unfoldable pub parsed : Option Text → Option ℕ
parsed none = none
parsed (some value) = parse_u64 value

unfoldable pub idle_secs : Environment → ℕ
unfolding parsed
idle_secs var = unwrap_or (parsed (var sockd_idle_secs)) 300

unfoldable pub daemon_of : {W : Type 0} → Environment → Result (Daemon W (Unit {0})) MainError
unfolding builder socket pid_file idle_timeout poll_interval on_request build socket_path pid_path
    idle_secs
daemon_of var =
    let b = pid_file (socket builder (socket_path var)) (pid_path var) in
    let b' = poll_interval (idle_timeout b (from_secs (idle_secs var))) (from_millis 50) in
    map_err crate (build (on_request b' upper))

unfoldable pub main : (os : Os) → ℕ → Environment → Exec os.World (Halt MainError) (Unit {0})
unfolding daemon_of
main os fuel var = do
  daemon ← mapping_err raised (lift (daemon_of var))
  mapping_err of_crate (run os daemon fuel)
