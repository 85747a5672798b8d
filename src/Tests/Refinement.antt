-- ===== src/Tests/Refinement.antt =====
-- A daemon that starts where another has crashed, idles out and is gone.
use sockd.Common.{ℕ, ◌≡◌, ◌≢◌, refl, some, false, codes, ◌+◌}
use sockd.Common.Interleaving.{Run}
use sockd.Outcome.{ok, err, pure, unfinished}
use sockd.Pidfile.Claimants
use sockd.Socket.Binders.{Found}
use sockd.Daemon.{Daemon}
use sockd.Daemon.Run.{run, install_shutdown_flag, serve, run_event_loop, event_loop}
use sockd.Daemon.Connection.{poll_listener, poll_millis}
use sockd.Pidfile.{claim, claim_loop, read_pid, is_process_alive, alive_of, remove_if_exists}
use sockd.Socket.{bind, is_stale_kind, cleanup}
use sockd.Text.{trim}
use sockd.Common.Int.{as_i32}
use sockd.Text.Decimal.{parse_u32}
use sockd.Daemon.Instances.{claiming, gone, Move}
use sockd.Daemon.Refinement.{IsQuietFor, place_of}
use sockd.Daemon.Refinement.Whole.{run-Run}
use sockd.Tests.Host.{
  Host, host, pid_path, socket_path, disk_of, site_of, runs, host-HasDisk, host-HasSite,
}

abbrev idler : Daemon Host ℕ
idler = record {
  config = record {
    socket_path = socket_path;
    pid_file = some pid_path;
    idle_timeout = 3;
    poll_interval = 250_000_000;
    max_payload_len = 100;
  };
  on_start = pure 0;
  on_request = λ n payload h. ((ok payload, n + 1), h);
  on_stop = λ n. pure tt;
}

idler-IsQuiet : IsQuietFor host idler pid_path disk_of site_of runs 4242
idler-IsQuiet = record {
  on_disk = host-HasDisk;
  on_site = host-HasSite;
  claim_keeps = record {
    create_dir_all = λ d h. refl;
    exists = λ h. refl;
    read_to_string = λ h. refl;
    kill = λ z h. refl;
    remove_file = λ h. refl;
    create_new = λ h. refl;
    write_file = λ f t h. refl;
    flush_file = λ f h. refl;
  };
  bind_keeps = record {
    create_dir_all = λ d h. refl;
    exists = λ h. refl;
    symlink_is_socket = λ h. refl;
    connect = λ h. refl;
    close = λ s h. refl;
    remove_file = λ h. refl;
    listen = λ h. refl;
    listener_nonblocking = λ l b h. refl;
    close_listener = λ l h. refl;
  };
  loop_keeps = record {
    load = λ f h. refl;
    now = λ h. refl;
    poll = λ l ms h. refl;
    accept = λ l h. refl;
    stream_nonblocking = λ s b h. refl;
    close = λ s h. refl;
    read_exact = λ s n h. refl;
    write_all = λ s bytes h. refl;
    flush = λ s h. refl;
    on_request = λ n payload h. refl;
  };
  start_keeps = λ h. refl;
  stop_keeps = λ n h. refl;
}

-- The process 9 does not run.
abbrev crashed : Host
crashed = record {
  disk = record { file = some 0; content = λ n. codes "9\n"; next = 1 };
  site = record { at_path = Found.a_socket 0; listened_on = λ n. false; next = 1 };
  clock = 0;
}

idles_out : (run host idler 5 crashed).0 ≡ ok tt
unfolding run install_shutdown_flag claim claim_loop read_pid is_process_alive alive_of trim
    parse_u32 as_i32 remove_if_exists serve bind is_stale_kind run_event_loop event_loop
    poll_listener poll_millis cleanup
idles_out = refl

returns : (run host idler 5 crashed).0 ≢ err unfinished
returns h = cc (idles_out, h)

installs : install_shutdown_flag host crashed ≡ (ok tt, crashed)
unfolding install_shutdown_flag
installs = refl

run-Run_example :
    Run
      (Move runs 4242)
      (place_of disk_of site_of crashed)
      (claiming (Claimants.looking 3))
      (place_of disk_of site_of (run host idler 5 crashed).1)
      gone
run-Run_example =
    run-Run host idler pid_path disk_of site_of runs 4242 idler-IsQuiet 5 tt crashed crashed refl
      installs refl returns
