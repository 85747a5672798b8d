-- ===== src/Programs.antt =====
-- The programs of the crate: src/bin/sockd_test_daemon.rs and the two in examples/. The arguments are
-- those behind the program's name, and the environment is a function from a variable's name to its
-- value, if it has one that is UTF-8.
pub mod TestDaemon
pub mod EchoDaemon
pub mod EchoClient
pub mod CommandLine
pub mod Words
pub mod Echo
use sockd.Common.{ℕ, ◌-◌, ◌&&◌, Option, none, some, leb, map, codes, if◌then◌else◌}
use sockd.Text.{Text}
use sockd.Outcome.{Result, ok, err, Halt, raised, unfinished}
use sockd.Error.{Error, FilePath}
use sockd.Daemon.{RequestCallback}

-- `Box<dyn Error>` as `main` returns it: that of `u64::from_str`, a text, or an error of the crate.
pub data MainError : Type 0 where
  invalid_number : MainError
  text : Text → MainError
  crate : Error → MainError

abbrev pub of_crate : Halt Error → Halt MainError
of_crate (raised e) = raised (crate e)
of_crate unfinished = unfinished

-- `u8::to_ascii_uppercase`
unfoldable pub to_ascii_uppercase : ℕ → ℕ
to_ascii_uppercase b = if leb 97 b && leb b 122 then b - 32 else b

-- `|_, req| Ok(req.iter().map(u8::to_ascii_uppercase).collect())`
unfoldable pub upper : {W : Type 0} → RequestCallback W (Unit {0})
unfolding to_ascii_uppercase
upper state req w = ((ok (map to_ascii_uppercase req), state), w)

abbrev pub Environment : Type 0
Environment = Text → Option Text

abbrev pub unwrap_or {ℓ} : {A : Type ℓ} → Option A → A → A
unwrap_or none default = default
unwrap_or (some a) default = a

abbrev pub sockd_socket : Text
sockd_socket = codes "SOCKD_SOCKET"

abbrev pub sockd_pid : Text
sockd_pid = codes "SOCKD_PID"

-- What both examples make of the environment.
unfoldable pub socket_path : Environment → FilePath
socket_path var = unwrap_or (var sockd_socket) (codes "/tmp/sockd-example.sock")

unfoldable pub pid_path : Environment → FilePath
pid_path var = unwrap_or (var sockd_pid) (codes "/tmp/sockd-example.pid")
