-- ===== src/Programs/TestDaemon.antt =====
-- `main` of src/bin/sockd_test_daemon.rs.
use sockd.Common.{ℕ, Option, none, some, List, [], ◌∷◌, ◌++◌, codes, if◌then◌else◌}
use sockd.Text.{Text, same_text}
use sockd.Text.Decimal.{parse_u64}
use sockd.Outcome.{Result, ok, err, Exec, Halt, raised, lift, mapping_err, and_then, map_err, ◌>>=◌}
use sockd.Error.{FilePath}
use sockd.Config.{from_millis}
use sockd.Os.{Os}
use sockd.Daemon.{Daemon, DaemonBuilder}
use sockd.Daemon.Builder.{builder, socket, pid_file, idle_timeout, poll_interval, on_request, build}
use sockd.Daemon.Run.{run}
use sockd.Programs.{MainError, invalid_number, text, crate, of_crate, upper}

-- The variables that the loop over the arguments assigns.
pub record Arguments : Type 0 where
  pub socket : Option FilePath
  pub pid : Option FilePath
  pub idle_ms : ℕ

abbrev pub initial : Arguments
initial = record { socket = none; pid = none; idle_ms = 1000 }

-- The patterns of the `match`.
pub data Pattern : Type 0 where
  dash_socket dash_pid dash_idle_ms other : Pattern

unfoldable pub pattern_of : Text → Pattern
pattern_of arg =
    if same_text arg (codes "--socket")
    then dash_socket
    else if same_text arg (codes "--pid")
    then dash_pid
    else if same_text arg (codes "--idle-ms")
    then dash_idle_ms
    else other

abbrev pub unknown_argument : Text → MainError
unknown_argument arg = text (codes "unknown argument: " ++ arg)

-- The last argument: `args.next()` is None.
unfoldable pub last_argument : Pattern → Arguments → Text → Result Arguments MainError
last_argument dash_socket a arg = ok (record a { socket = none })
last_argument dash_pid a arg = ok (record a { pid = none })
last_argument dash_idle_ms a arg = ok a
last_argument other a arg = err (unknown_argument arg)

-- An argument that a value follows.
unfoldable pub with_value : Pattern → Arguments → Text → Text → Result Arguments MainError
with_value dash_socket a arg value = ok (record a { socket = some value })
with_value dash_pid a arg value = ok (record a { pid = some value })
with_value dash_idle_ms a arg value = elim (parse_u64 value) [
  | none ↦ err invalid_number
  | some n ↦ ok (record a { idle_ms = n })
]
with_value other a arg value = err (unknown_argument arg)

unfoldable pub parse_args : Arguments → List Text → Result Arguments MainError
unfolding pattern_of last_argument with_value
parse_args a [] = ok a
parse_args a (arg ∷ []) = last_argument (pattern_of arg) a arg
parse_args a (arg ∷ value ∷ args) =
    and_then (with_value (pattern_of arg) a arg value) (λ next. parse_args next args)

abbrev pub missing_socket : MainError
missing_socket = text (codes "missing --socket")

-- `socket.ok_or("missing --socket")?`
unfoldable pub required : Option FilePath → Result FilePath MainError
required none = err missing_socket
required (some path) = ok path

module _ {W : Type 0} where
  unfoldable pub with_pid :
      DaemonBuilder W (Unit {0}) → Option FilePath → DaemonBuilder W (Unit {0})
  unfolding pid_file
  with_pid b none = b
  with_pid b (some path) = pid_file b path

  unfoldable pub daemon_of : FilePath → Arguments → Result (Daemon W (Unit {0})) MainError
  unfolding builder socket idle_timeout poll_interval on_request build with_pid
  daemon_of path a =
      let b = idle_timeout (socket builder path) (from_millis a.idle_ms) in
      let b' = on_request (poll_interval b (from_millis 20)) upper in
      map_err crate (build (with_pid b' a.pid))

  unfoldable pub configured : List Text → Result (Daemon W (Unit {0})) MainError
  unfolding required
  configured args =
      and_then (parse_args initial args)
        (λ a. and_then (required a.socket) (λ path. daemon_of path a))

unfoldable pub main : (os : Os) → ℕ → List Text → Exec os.World (Halt MainError) (Unit {0})
unfolding configured
main os fuel args = do
  daemon ← mapping_err raised (lift (configured args))
  mapping_err of_crate (run os daemon fuel)
