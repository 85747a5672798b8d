-- ===== src/Programs/CommandLine.antt =====
-- What the test daemon of src/bin/sockd_test_daemon.rs makes of its arguments.
use sockd.Common.{
  ℕ, ◌<◌, ◌^◌, ◌≡◌, refl, ap, sym, ◌∙◌, inl, inr, Option-cases, none, some, List, [], ◌∷◌, ◌++◌,
  All, codes,
}
use mathlib.Core.List.{append-nil}
use sockd.Text.{Text}
use sockd.Text.Decimal.{show, parse_u64-show}
use sockd.Outcome.{ok, err, raised, pure, mapping_err, and_then}
use sockd.Error.{FilePath}
use sockd.Config.{from_millis, default_max_payload_len}
use sockd.Os.{Os}
use sockd.Daemon.{Daemon}
use sockd.Daemon.Run.{run}
use sockd.Programs.{MainError, of_crate, upper}
use sockd.Programs.TestDaemon.{
  Arguments, initial, dash_idle_ms, other, pattern_of, last_argument, with_value, daemon_of,
  with_pid, required, unknown_argument, missing_socket, parse_args, configured, main,
}

-- An option with its value, as one would mean it.
pub data Setting : Type 0 where
  at_socket : FilePath → Setting
  at_pid : FilePath → Setting
  idling : ℕ → Setting

abbrev pub shown : List Setting → List Text
shown [] = []
shown (at_socket path ∷ more) = codes "--socket" ∷ path ∷ shown more
shown (at_pid path ∷ more) = codes "--pid" ∷ path ∷ shown more
shown (idling ms ∷ more) = codes "--idle-ms" ∷ show ms ∷ shown more

-- A later setting replaces an earlier one.
abbrev pub applied : Arguments → List Setting → Arguments
applied a [] = a
applied a (at_socket path ∷ more) = applied (record a { socket = some path }) more
applied a (at_pid path ∷ more) = applied (record a { pid = some path }) more
applied a (idling ms ∷ more) = applied (record a { idle_ms = ms }) more

-- The milliseconds are a u64.
abbrev pub Fits : Setting → Type 0
Fits (at_socket path) = Unit
Fits (at_pid path) = Unit
Fits (idling ms) = ms < 2 ^ 64

with_value-idling :
    (a : Arguments) (arg : Text) (ms : ℕ)
    → ms < 2 ^ 64
    → with_value dash_idle_ms a arg (show ms) ≡ ok (record a { idle_ms = ms })
unfolding with_value
with_value-idling a arg ms h = rw (parse_u64-show ms h, with_value)

parse_args-shown :
    (a : Arguments) (settings : List Setting) (rest : List Text)
    → All Fits settings
    → parse_args a (shown settings ++ rest) ≡ parse_args (applied a settings) rest
unfolding parse_args
parse_args-shown a [] rest h = refl
parse_args-shown a (at_socket path ∷ more) rest (h, hs) = parse_args-shown _ more rest hs
parse_args-shown a (at_pid path ∷ more) rest (h, hs) = parse_args-shown _ more rest hs
parse_args-shown a (idling ms ∷ more) rest (h, hs) =
    ap (λ r. and_then r (λ next. parse_args next (shown more ++ rest)))
      (with_value-idling a (codes "--idle-ms") ms h)
    ∙ parse_args-shown _ more rest hs

-- An argument that is none of the three is refused wherever it stands, if a value follows or not.
parse_args-other :
    (a : Arguments) (arg : Text) (rest : List Text)
    → pattern_of arg ≡ other
    → parse_args a (arg ∷ rest) ≡ err (unknown_argument arg)
unfolding parse_args last_argument with_value
parse_args-other a arg [] h = rw h
parse_args-other a arg (value ∷ rest) h = rw h

-- What the options stand for, with the socket that they name.
abbrev pub daemon_for : {W : Type 0} → FilePath → Arguments → Daemon W (Unit {0})
daemon_for path a = record {
  config = record {
    socket_path = path;
    pid_file = a.pid;
    idle_timeout = from_millis a.idle_ms;
    poll_interval = from_millis 20;
    max_payload_len = default_max_payload_len;
  };
  on_start = pure tt;
  on_request = upper;
  on_stop = λ _. pure tt;
}

daemon_of_lem :
    {W : Type 0} (path : FilePath) (a : Arguments)
    → daemon_of {W = W} path a ≡ ok (daemon_for path a)
unfolding daemon_of
daemon_of_lem path a = elim (Option-cases a.pid) [
  | inl absent ↦ rw (absent, with_pid)
  | inr (pid, given) ↦ rw (given, with_pid)
]

module _ {W : Type 0} (args : List Text) where
  configured-ok :
      (a : Arguments) (path : FilePath)
      → parse_args initial args ≡ ok a
      → a.socket ≡ some path
      → configured {W = W} args ≡ ok (daemon_for path a)
  unfolding configured daemon_of
  configured-ok a path parsed given = rw (parsed, given, required) (daemon_of_lem path a)

  configured-err :
      (e : MainError) → parse_args initial args ≡ err e → configured {W = W} args ≡ err e
  unfolding configured
  configured-err e parsed = rw parsed

  configured-missing :
      (a : Arguments)
      → parse_args initial args ≡ ok a
      → a.socket ≡ none
      → configured {W = W} args ≡ err missing_socket
  unfolding configured
  configured-missing a parsed given = rw (parsed, given, required)

module _ (os : Os) (fuel : ℕ) (args : List Text) (w : os.World) where
  main-ok :
      (d : Daemon os.World Unit)
      → configured args ≡ ok d
      → main os fuel args w ≡ mapping_err of_crate (run os d fuel) w
  unfolding main
  main-ok d h = rw h

  main-err :
      (e : MainError)
      → configured {W = os.World} args ≡ err e
      → main os fuel args w ≡ (err (raised e), w)
  unfolding main
  main-err e h = rw h

module _ (os : Os) (fuel : ℕ) (settings : List Setting) (fits : All Fits settings)
    (w : os.World) where
  parsed : parse_args initial (shown settings) ≡ ok (applied initial settings)
  unfolding parse_args
  parsed =
      ap (parse_args initial) (sym (append-nil (shown settings)))
      ∙ parse_args-shown initial settings [] fits

  -- The test daemon that is given options with their values, each count of milliseconds in 64 bits,
  -- runs the daemon that the last option of each kind stands for, if a socket is among them.
  pub main_runs :
      (path : FilePath)
      → (applied initial settings).socket ≡ some path
      → main os fuel (shown settings) w
        ≡ mapping_err of_crate (run os (daemon_for path (applied initial settings)) fuel) w
  main_runs path given =
      main-ok os fuel (shown settings) w _ (configured-ok (shown settings) _ path parsed given)

  -- After options with their values, each count of milliseconds in 64 bits, the test daemon refuses
  -- an argument that is no option, whatever follows it, and has done nothing to the machine.
  main_refuses :
      (arg : Text) (rest : List Text)
      → pattern_of arg ≡ other
      → main os fuel (shown settings ++ arg ∷ rest) w ≡ (err (raised (unknown_argument arg)), w)
  main_refuses arg rest unknown = main-err os fuel _ w _ (
      configured-err _ _
        (parse_args-shown initial settings _ fits ∙ parse_args-other _ arg rest unknown))

  -- With options and their values, each count of milliseconds in 64 bits, and no socket among them,
  -- the test daemon says that the socket is missing and has done nothing to the machine.
  main_needs_socket :
      (applied initial settings).socket ≡ none
      → main os fuel (shown settings) w ≡ (err (raised missing_socket), w)
  main_needs_socket given = main-err os fuel _ w _ (configured-missing _ _ parsed given)
