-- ===== src/Process.antt =====
-- src/process.rs: starting the daemon's program, detached.
use sockd.Common.{true}
use sockd.Outcome.{Exec, mapping_err}
use sockd.Error.{Error, io}
use sockd.Config.{AutoStart}
use sockd.Os.{Os, Command}

abbrev pub command_of : AutoStart → Command
command_of a = record { program = a.program; args = a.args; null_stdio = true; new_session = true }

unfoldable pub spawn_detached : (os : Os) → AutoStart → Exec os.World Error (Unit {0})
spawn_detached os a = mapping_err io (os.spawn (command_of a))
