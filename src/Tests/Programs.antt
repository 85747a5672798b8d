-- ===== src/Tests/Programs.antt =====
-- The programs of the crate at concrete arguments.
use sockd.Common.{ℕ, refl, ◌≡◌, All, none, List, [], ◌∷◌, arith, codes}
use sockd.Text.{Text, as_bytes}
use sockd.Outcome.{ok, mapping_err}
use sockd.Frame.{FrameKind}
use sockd.Frame.Streams.{wire}
use sockd.Daemon.{Running}
use sockd.Daemon.Run.{run}
use sockd.Daemon.Connection.{process_connection}
use sockd.Programs.{of_crate, Environment, to_ascii_uppercase}
use sockd.Programs.TestDaemon
use sockd.Programs.TestDaemon.{initial, unknown_argument}
use sockd.Programs.CommandLine.{Setting, Fits, at_socket, at_pid, idling, shown, applied, main_runs}
use sockd.Programs.CommandLine
use sockd.Programs.EchoClient
use sockd.Programs.Echo
use sockd.Programs.Echo.{main_echoes}
use sockd.Tests.Machine.{Machine, machine, blank}
use sockd.Tests.Daemons.{machine-IsDuplex, incoming_of, outgoing_of}
use sockd.Tests.Clients.{answering, answering-IsConversation}

-- The second count of milliseconds replaces the first.
abbrev options : List Setting
options = idling 7 ∷ at_socket (codes "/tmp/a.sock") ∷ at_pid (codes "/tmp/a.pid") ∷ idling 3 ∷ []

options-Fits : All Fits options
options-Fits = (omega arith, (tt, (tt, (omega arith, tt))))

main_runs_example :
    TestDaemon.main machine 5 (shown options) blank
    ≡ mapping_err of_crate
        (run machine (CommandLine.daemon_for (codes "/tmp/a.sock") (applied initial options)) 5)
        blank
main_runs_example = main_runs machine 5 options options-Fits blank (codes "/tmp/a.sock") refl

-- No environment, and the daemon with the given bytes on its stream.
abbrev nothing : Environment
nothing name = none

abbrev reached : List ℕ → Running Machine (Unit {0})
reached bytes = record { app = tt; world = record blank { incoming = bytes } }

abbrev echoing : List ℕ → List ℕ
echoing bytes =
    outgoing_of (process_connection machine (Echo.daemon_for nothing) tt (reached bytes)).1.world

abbrev words : List Text
words = codes "Hi" ∷ codes "you" ∷ []

main_echoes_example :
    (EchoClient.main (answering echoing) 0 nothing words blank).0 ≡ ok (codes "HI YOU")
unfolding EchoClient.pattern_of EchoClient.message to_ascii_uppercase as_bytes
main_echoes_example =
    main_echoes (answering echoing) tt incoming_of outgoing_of echoing
      (answering-IsConversation echoing) machine tt incoming_of outgoing_of machine-IsDuplex nothing
      nothing words 0 blank blank (reached (wire FrameKind.request 0 (codes "Hi you")))
      (refl, (refl, tt)) refl refl (omega arith) refl refl refl
