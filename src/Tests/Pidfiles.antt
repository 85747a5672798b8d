-- ===== src/Tests/Pidfiles.antt =====
-- src/pidfile.rs at concrete files.
use sockd.Common.{◌≡◌, ◌≢◌, refl, none, some, codes}
use sockd.Common.Int.{as_i32}
use sockd.Text.{Text, trim}
use sockd.Text.Decimal.{parse_u32}
use sockd.Outcome.{ok, err}
use sockd.Error.{FilePath, daemon_already_running}
use sockd.Pidfile.{alive_of, claim, read_pid}
use sockd.Pidfile.Files.{live_owner}
use sockd.Pidfile.Claim.{claim_refuses, claim_takes}
use sockd.Tests.Machine.{Machine, machine, machine-IsQuiet, answers, files_of, update, blank}

abbrev pub pid_path : FilePath
pid_path = codes "/tmp/sockd.pid"

abbrev pub holding : Text → Machine
holding content = record blank { files = update blank.files pid_path (some content) }

-- The process 7 is alive.
pub live_seven : live_owner machine answers (some (codes "7\n")) ≡ some 7
unfolding live_owner trim parse_u32 as_i32 alive_of
live_seven = refl

claim_refuses_example :
    ((claim machine pid_path (holding (codes "7\n"))).0
      ≡ err (daemon_already_running (some 7) none))
    × (files_of (claim machine pid_path (holding (codes "7\n"))).1
        ≡ files_of (holding (codes "7\n")))
claim_refuses_example =
    claim_refuses machine files_of answers 4242 pid_path (machine-IsQuiet pid_path) 7
      (holding (codes "7\n")) live_seven

-- A PID file that holds `0` is taken for that of a live process, since `kill(0, 0)` succeeds.
zero_is_live : live_owner machine answers (some (codes "0\n")) ≡ some 0
unfolding live_owner trim parse_u32 as_i32 alive_of
zero_is_live = refl

-- The test `daemon_reclaims_malformed_pid_file`
malformed : live_owner machine answers (some (codes "not-a-pid\n")) ≡ none
unfolding live_owner trim parse_u32 as_i32 alive_of
malformed = refl

claim_takes_example :
    let m = holding (codes "not-a-pid\n") in
    let m' = (claim machine pid_path m).1 in
    ((claim machine pid_path m).0 ≡ ok (record { path = pid_path }))
    × (read_pid machine pid_path m' ≡ (ok (some 4242), m'))
    × ((q : FilePath) → q ≢ pid_path → files_of m' q ≡ files_of m q)
claim_takes_example =
    claim_takes machine files_of answers 4242 pid_path (machine-IsQuiet pid_path)
      (holding (codes "not-a-pid\n")) malformed
