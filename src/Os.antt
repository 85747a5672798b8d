-- ===== src/Os.antt =====
-- What the crate calls of the operating system through `std::{fs, path, process, thread, time}`,
-- `std::os::unix::net`, `libc` and `signal_hook`, over a state that the processes of the machine
-- share. Each call returns the state that it leaves, in which others may have acted too.
use sockd.Common.{ℕ, Bool, Option, List}
use sockd.Common.Int.{ℤ}
use sockd.Text.{Text}
use sockd.Outcome.{Exec}
use sockd.Error.{IoError, FilePath, Duration}
use sockd.Frame.{Read, Write}

-- `libc::poll` on one descriptor: how many are ready and whether POLLIN is among the returned
-- events, or the error.
pub data Polled : Type 0 where
  polled : ℕ → Bool → Polled
  poll_failed : IoError → Polled

-- `std::process::Command`, as src/process.rs fills it in.
pub record Command : Type 0 where
  pub program : FilePath
  pub args : List Text
  pub null_stdio : Bool
  pub new_session : Bool

pub record Os : Type 1 where
  pub World : Type 0
  pub Stream : Type 0
  pub Listener : Type 0
  pub File : Type 0
  pub Flag : Type 0
  -- `Path::parent`, and the printing of a `Duration` by `{:?}`
  pub parent : FilePath → Option FilePath
  pub show_duration : Duration → Text
  pub from_utf8_lossy : List ℕ → Text
  -- std::fs
  pub create_dir_all : FilePath → Exec World IoError (Unit {0})
  pub exists : FilePath → World → Bool × World
  pub read_to_string : FilePath → Exec World IoError Text
  pub remove_file : FilePath → Exec World IoError (Unit {0})
  pub create_new : FilePath → Exec World IoError File
  pub write_file : File → Text → Exec World IoError (Unit {0})
  pub flush_file : File → Exec World IoError (Unit {0})
  pub metadata : FilePath → Exec World IoError (Unit {0})
  pub symlink_is_socket : FilePath → Exec World IoError Bool
  -- processes: `none` is the return code 0 of `kill`, `some e` stands for -1 with errno e
  pub process_id : World → ℕ
  pub kill : ℤ → ℕ → World → Option ℕ × World
  pub spawn : Command → Exec World IoError (Unit {0})
  -- sockets
  pub connect : FilePath → Exec World IoError Stream
  pub reader : Stream → Read World
  pub writer : Stream → Write World
  pub stream_nonblocking : Stream → Bool → Exec World IoError (Unit {0})
  pub close : Stream → World → World
  pub listen : FilePath → Exec World IoError Listener
  pub listener_nonblocking : Listener → Bool → Exec World IoError (Unit {0})
  pub accept : Listener → Exec World IoError Stream
  pub poll : Listener → ℕ → World → Polled × World
  pub close_listener : Listener → World → World
  -- time in nanoseconds, sleep, and the flag that signals set
  pub now : World → ℕ × World
  pub sleep : Duration → World → World
  pub new_flag : World → Flag × World
  pub register : ℕ → Flag → Exec World IoError (Unit {0})
  pub load : Flag → World → Bool × World
