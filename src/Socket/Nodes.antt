-- ===== src/Socket/Nodes.antt =====
-- What may be found at the path of the socket, and what the calls of src/socket.rs are documented to
-- do with it, on a machine where no other process acts while the code runs.
use sockd.Common.{◌≡◌, ◌≢◌, Bool, true, false, some}
use sockd.Outcome.{ok, err}
use sockd.Error.{IoError, ErrorKind, FilePath}
use sockd.Os.{Os}

-- A socket is live while some process listens on it. What is no directory and no socket is other.
pub data Node : Type 0 where
  absent : Node
  directory : Node
  stale : Node
  live : Node
  other : Node

abbrev pub is_present : Node → Bool
is_present Node.absent = false
is_present _ = true

abbrev pub is_socket : Node → Bool
is_socket Node.stale = true
is_socket Node.live = true
is_socket _ = false

-- Where `create_dir_all` has nothing to do, and where it makes a directory.
abbrev pub MayBeDir : Node → Type 0
MayBeDir Node.absent = Unit
MayBeDir Node.directory = Unit
MayBeDir _ = ⊥

-- `Within d p`: `p` is `d` or one of its parents.
pub data Within (os : Os) : FilePath → FilePath → Type 0 where
  itself : {d : FilePath} → Within os d d
  above : {d e p : FilePath} → os.parent d ≡ some e → Within os e p → Within os d p

pub record HasNodes (os : Os) (node : os.World → FilePath → Node) (listener : os.Listener)
    : Type 0 where
  pub refused : FilePath → IoError
  pub stream : FilePath → os.Stream
  pub refused_kind : (p : FilePath) → (refused p).kind ≡ ErrorKind.connection_refused
  -- A path without its final component is not below that path.
  pub no_loop : (p d : FilePath) → os.parent p ≡ some d → ¬ Within os d p
  pub dirs_made :
      (d : FilePath) (w : os.World)
      → ((p : FilePath) → Within os d p → MayBeDir (node w p))
      → ((os.create_dir_all d w).0 ≡ ok tt)
        × ((p : FilePath) → Within os d p → node (os.create_dir_all d w).1 p ≡ Node.directory)
  pub dirs_keep :
      (d p : FilePath) (w : os.World)
      → ¬ Within os d p
      → node (os.create_dir_all d w).1 p ≡ node w p
  pub exists_lem : (p : FilePath) (w : os.World) → os.exists p w ≡ (is_present (node w p), w)
  pub looked :
      (p : FilePath) (w : os.World)
      → is_present (node w p) ≡ true
      → os.symlink_is_socket p w ≡ (ok (is_socket (node w p)), w)
  pub connected :
      (p : FilePath) (w : os.World)
      → node w p ≡ Node.live
      → ((os.connect p w).0 ≡ ok (stream p)) × (node (os.connect p w).1 ≡ node w)
  pub not_connected :
      (p : FilePath) (w : os.World) → node w p ≡ Node.stale → os.connect p w ≡ (err (refused p), w)
  pub closed : (s : os.Stream) (w : os.World) → node (os.close s w) ≡ node w
  pub removed :
      (p : FilePath) (w : os.World)
      → node w p ≡ Node.stale
      → ((os.remove_file p w).0 ≡ ok tt) × (node (os.remove_file p w).1 p ≡ Node.absent)
  pub removed_other :
      (p q : FilePath) (w : os.World) → q ≢ p → node (os.remove_file p w).1 q ≡ node w q
  pub listens :
      (p : FilePath) (w : os.World)
      → node w p ≡ Node.absent
      → ((os.listen p w).0 ≡ ok listener) × (node (os.listen p w).1 p ≡ Node.live)
  pub listens_other : (p q : FilePath) (w : os.World) → q ≢ p → node (os.listen p w).1 q ≡ node w q
  pub unblocked : (b : Bool) (w : os.World) → os.listener_nonblocking listener b w ≡ (ok tt, w)
