-- ===== src/Socket.antt =====
-- src/socket.rs: the socket file, from the check of a stale one to its removal.
pub mod Nodes
pub mod Binding
pub mod Binders
pub mod Listening
pub mod Rivals
pub mod Runs
pub mod Kept
use sockd.Common.{Bool, true, false, Option, none, some, ◌++◌, codes, if◌then◌else◌}
use sockd.Outcome.{
  Result, ok, err, Exec, pure, raise, effect, silently, attempt, mapping_err, ◌>>=◌, ◌>>◌,
}
use sockd.Error.{Error, IoError, ErrorKind, FilePath, io, daemon_already_running}
use sockd.Os.{Os}

-- `io::Error::new(AlreadyExists, ..)`
abbrev pub not_a_socket : FilePath → IoError
not_a_socket path = record {
  kind = ErrorKind.already_exists;
  message = codes "socket path exists and is not a socket: " ++ path;
}

-- The kinds after which the file is taken for stale.
unfoldable pub is_stale_kind : ErrorKind → Bool
is_stale_kind ErrorKind.connection_refused = true
is_stale_kind ErrorKind.connection_aborted = true
is_stale_kind ErrorKind.not_found = true
is_stale_kind _ = false

module _ (os : Os) where
  open os use {World, Stream, Listener}

  -- The arms of the `match` on `UnixStream::connect`. A stream that is returned is dropped.
  unfoldable pub probed : FilePath → Result Stream IoError → Exec World Error (Unit {0})
  probed path (ok stream) = do
    silently (os.close stream)
    raise (daemon_already_running none (some path))
  probed path (err e) =
      if is_stale_kind e.kind then mapping_err io (os.remove_file path) else raise (io e)

  unfoldable pub clear_socket : FilePath → Bool → Exec World Error (Unit {0})
  unfolding probed
  clear_socket path false = pure tt
  clear_socket path true = do
    is_socket ← mapping_err io (os.symlink_is_socket path)
    if is_socket
        then (do answer ← attempt (os.connect path); probed path answer)
        else raise (io (not_a_socket path))

  unfoldable pub make_parent : Option FilePath → Exec World Error (Unit {0})
  make_parent none = pure tt
  make_parent (some dir) = mapping_err io (os.create_dir_all dir)

  -- A listener that cannot be made nonblocking is dropped on the way out.
  unfoldable pub nonblocking : Listener → Result (Unit {0}) IoError → Exec World Error Listener
  nonblocking listener (ok _) = pure listener
  nonblocking listener (err e) = do silently (os.close_listener listener); raise (io e)

  unfoldable pub open_listener : FilePath → Exec World Error Listener
  unfolding nonblocking
  open_listener path = do
    listener ← mapping_err io (os.listen path)
    answer ← attempt (os.listener_nonblocking listener true)
    nonblocking listener answer

  unfoldable pub bind : FilePath → Exec World Error Listener
  unfolding clear_socket make_parent open_listener
  bind path = do
    make_parent (os.parent path)
    present ← effect (os.exists path)
    clear_socket path present
    open_listener path

  unfoldable pub cleaned : Result (Unit {0}) IoError → Exec World Error (Unit {0})
  cleaned (ok _) = pure tt
  cleaned (err e) = elim e.kind [ ErrorKind.not_found ↦ pure tt | _ ↦ raise (io e) ]

  unfoldable pub cleanup : FilePath → Exec World Error (Unit {0})
  unfolding cleaned
  cleanup path = do r ← attempt (os.remove_file path); cleaned r
