-- ===== src/Pidfile.antt =====
-- src/pidfile.rs: who owns the daemon, by a file that holds the owner's process id.
pub mod Files
pub mod Claim
pub mod Claimants
pub mod Ownership
pub mod Alone
pub mod Race
pub mod Steps
pub mod Kept
use sockd.Common.{
  ℕ, zero, suc, Bool, true, false, Option, none, some, [], ◌∷◌, ◌++◌, ◌==◌, if◌then◌else◌,
}
use sockd.Common.Int.{as_i32}
use sockd.Text.{Text, trim}
use sockd.Text.Decimal.{show, parse_u32}
use sockd.Outcome.{
  Result, ok, err, Exec, pure, raise, gets, effect, attempt, mapping_err, ◌>>=◌, ◌>>◌,
}
use sockd.Error.{Error, IoError, ErrorKind, FilePath, io, daemon_already_running}
use sockd.Os.{Os}

-- The errno of a process that exists and may not be signalled.
abbrev pub eperm : ℕ
eperm = 1

pub record PidGuard : Type 0 where
  pub path : FilePath

module _ (os : Os) where
  open os use {World, File}

  unfoldable pub read_content : Result Text IoError → Exec World Error (Option ℕ)
  read_content (ok content) = pure (parse_u32 (trim content))
  read_content (err e) = elim e.kind [ ErrorKind.not_found ↦ pure none | _ ↦ raise (io e) ]

  unfoldable pub read_pid : FilePath → Exec World Error (Option ℕ)
  unfolding read_content
  read_pid path = do content ← attempt (os.read_to_string path); read_content content

  unfoldable pub alive_of : Option ℕ → Bool
  alive_of none = true
  alive_of (some errno) = errno == eperm

  unfoldable pub is_process_alive : ℕ → World → Bool × World
  unfolding alive_of
  is_process_alive pid w = let (rc, w') = os.kill (as_i32 pid) 0 w in (alive_of rc, w')

  removed : Result (Unit {0}) IoError → Exec World Error (Unit {0})
  removed (ok _) = pure tt
  removed (err e) = elim e.kind [ ErrorKind.not_found ↦ pure tt | _ ↦ raise (io e) ]

  unfoldable pub remove_if_exists : FilePath → Exec World Error (Unit {0})
  unfolding removed
  remove_if_exists path = do r ← attempt (os.remove_file path); removed r

  -- `if let Some(pid) = read_pid(path)? && is_process_alive(pid) { return Err(..) }`
  refuse_live : Option ℕ → Exec World Error (Unit {0})
  refuse_live none = pure tt
  refuse_live (some pid) = do
    alive ← effect (is_process_alive pid)
    if alive then raise (daemon_already_running (some pid) none) else pure tt

  clear_stale : FilePath → Bool → Exec World Error (Unit {0})
  unfolding refuse_live
  clear_stale path false = pure tt
  clear_stale path true = do recorded ← read_pid path; refuse_live recorded; remove_if_exists path

  -- The two arms of the `match` on `create_new`; `again` is `continue`.
  created : FilePath → Exec World Error PidGuard → Result File IoError → Exec World Error PidGuard
  created path again (ok file) = do
    pid ← gets os.process_id
    mapping_err io (os.write_file file (show pid ++ b'\n' ∷ []))
    mapping_err io (os.flush_file file)
    pure (record { path = path })
  created path again (err e) = elim e.kind [ ErrorKind.already_exists ↦ again | _ ↦ raise (io e) ]

  -- The rounds of `for _ in 0..3` that are left.
  unfoldable pub claim_loop : ℕ → FilePath → Exec World Error PidGuard
  unfolding clear_stale created
  claim_loop zero path = do pid ← read_pid path; raise (daemon_already_running pid none)
  claim_loop (suc rounds) path = do
    present ← effect (os.exists path)
    clear_stale path present
    file ← attempt (os.create_new path)
    created path (claim_loop rounds path) file

  make_parent : Option FilePath → Exec World Error (Unit {0})
  make_parent none = pure tt
  make_parent (some dir) = mapping_err io (os.create_dir_all dir)

  -- `PidGuard::claim`
  unfoldable pub claim : FilePath → Exec World Error PidGuard
  unfolding claim_loop make_parent
  claim path = do make_parent (os.parent path); claim_loop 3 path

  -- `Drop for PidGuard`
  unfoldable pub drop_guard : PidGuard → World → World
  drop_guard guard w = (os.remove_file guard.path w).1
