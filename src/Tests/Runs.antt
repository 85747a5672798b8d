-- ===== src/Tests/Runs.antt =====
-- `run` of src/daemon.rs on the machine in memory.
use sockd.Common.{◌≡◌, refl, none, arith}
use sockd.Outcome.{ok}
use sockd.Pidfile.{claim}
use sockd.Daemon.Connection.{poll_listener}
use sockd.Socket.{bind, cleanup}
use sockd.Daemon.Run.{run, serve, event_loop, run_event_loop, install_shutdown_flag}
use sockd.Daemon.Stops.{CountsStops, serve_stops_once}
use sockd.Daemon.Release.{run_releases}
use sockd.Text.{same_text_iff}
use sockd.Tests.Machine.{Machine, machine, files_of, blank}
use sockd.Tests.Pidfiles.{pid_path}
use sockd.Tests.Daemons.{echo, stops_of}

installs : (m : Machine) → install_shutdown_flag machine m ≡ (ok tt, m)
unfolding install_shutdown_flag
installs m = refl

-- The daemon starts on a machine with no files, idles out and cleans up.
returns : (run machine echo 5 blank).0 ≡ ok tt
unfolding run install_shutdown_flag claim serve bind run_event_loop event_loop poll_listener cleanup
returns = refl

abbrev claimed_world : Machine
claimed_world = (claim machine pid_path blank).1

claims : claim machine pid_path blank ≡ (ok (record { path = pid_path }), claimed_world)
unfolding claim
claims = refl

abbrev HasNoPidFile : Machine → Type 0
HasNoPidFile m = files_of m pid_path ≡ none

removes_pid_file : (m : Machine) → HasNoPidFile (machine.remove_file pid_path m).1
removes_pid_file m = ground (arith, same_text_iff pid_path pid_path)

run_releases_example : HasNoPidFile (run machine echo 5 blank).1
run_releases_example =
    run_releases machine echo pid_path blank blank tt refl (installs blank) HasNoPidFile 5
      claimed_world removes_pid_file claims (λ h. cc (returns, h))

echo-CountsStops : CountsStops machine echo stops_of
echo-CountsStops = record {
  looping = record {
    load = λ f m. refl;
    now = λ m. refl;
    poll = λ l ms m. refl;
    accept = λ l m. refl;
    stream_nonblocking = λ s b m. refl;
    close = λ s m. refl;
    read_exact = λ s n m. ground arith;
    write_all = λ s bytes m. refl;
    flush = λ s m. refl;
    on_request = λ n payload m. refl;
  };
  binding = record {
    create_dir_all = λ d m. refl;
    exists = λ m. refl;
    symlink_is_socket = λ m. refl;
    connect = λ m. refl;
    close = λ s m. refl;
    remove_file = λ m. ground arith;
    listen = λ m. refl;
    listener_nonblocking = λ l b m. refl;
    close_listener = λ l m. refl;
  };
  on_start = λ m. refl;
  on_stop = λ n m. refl;
}

serves : (serve machine echo 5 tt blank).0 ≡ ok tt
unfolding serve bind run_event_loop event_loop poll_listener cleanup
serves = refl

serve_stops_once_example : stops_of (serve machine echo 5 tt blank).1 ≡ 1
serve_stops_once_example =
    serve_stops_once machine echo stops_of echo-CountsStops 5 tt 0 blank refl (λ h. cc (serves, h))
