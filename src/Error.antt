-- ===== src/Error.antt =====
-- src/error.rs, and of `std::io::Error` what the crate reads: its kind and its message.
pub mod Display
use sockd.Common.{ℕ, Option, none, some}
use sockd.Text.{Text}

-- The kinds that the crate tells apart; `other` is any of the remaining kinds.
pub data ErrorKind : Type 0 where
  not_found connection_refused connection_aborted not_connected : ErrorKind
  already_exists would_block interrupted unexpected_eof : ErrorKind
  other : ℕ → ErrorKind

pub record IoError : Type 0 where
  pub kind : ErrorKind
  pub message : Text

abbrev pub FilePath : Type 0
FilePath = Text

-- `std::time::Duration`, in nanoseconds.
abbrev pub Duration : Type 0
Duration = ℕ

-- A boxed error of a callback, by the text that its `to_string` gives.
pub record BoxError : Type 0 where
  pub message : Text

pub data Error : Type 0 where
  io : IoError → Error
  missing_callback : Text → Error
  invalid_frame_magic unsupported_frame_version unknown_frame_kind : ℕ → Error
  unexpected_frame_kind : Text → Text → Error
  payload_too_large : ℕ → ℕ → Error
  daemon_already_running : Option ℕ → Option FilePath → Error
  ready_timeout shutdown_timeout : FilePath → Duration → Error
  daemon_returned_error : Text → Error
  startup request shutdown : BoxError → Error

-- What `StdError::source` may return.
pub data Source : Type 0 where
  of_io : IoError → Source
  of_callback : BoxError → Source

unfoldable pub source : Error → Option Source
source (io e) = some (of_io e)
source (startup e) = some (of_callback e)
source (request e) = some (of_callback e)
source (shutdown e) = some (of_callback e)
source _ = none
