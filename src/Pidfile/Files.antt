-- ===== src/Pidfile/Files.antt =====
-- What `std::fs` and `kill` document for regular files and for signal 0, on a machine where no other
-- process acts while the code runs.
use sockd.Common.{
  ℕ, ◌<◌, ◌^◌, ◌≡◌, ◌≢◌, Bool, true, false, Option, none, some, [], ◌++◌, if◌then◌else◌,
}
use sockd.Common.Int.{ℤ, as_i32}
use sockd.Text.{Text, trim}
use sockd.Text.Decimal.{parse_u32}
use sockd.Outcome.{ok, err}
use sockd.Error.{IoError, ErrorKind, FilePath}
use sockd.Os.{Os}
use sockd.Pidfile.{alive_of}

abbrev pub is_some {ℓ} : {A : Type ℓ} → Option A → Bool
is_some none = false
is_some (some a) = true

-- `file w p` is the content of the regular file `p`, `answers z` the errno of `kill(z, 0)`. At `path`
-- there is a regular file or nothing, and its directory is there or can be made.
pub record IsQuiet (os : Os) (file : os.World → FilePath → Option Text) (answers : ℤ → Option ℕ)
    (own_pid : ℕ) (path : FilePath) : Type 0 where
  pub path_of : os.File → FilePath
  pub handle : FilePath → os.World → os.File
  pub absent : FilePath → IoError
  pub path_of-handle : (p : FilePath) (w : os.World) → path_of (handle p w) ≡ p
  pub absent_kind : (p : FilePath) → (absent p).kind ≡ ErrorKind.not_found
  pub own : (w : os.World) → os.process_id w ≡ own_pid
  pub own_fits : own_pid < 2 ^ 32
  pub probe : (z : ℤ) (w : os.World) → os.kill z 0 w ≡ (answers z, w)
  pub dirs_made :
      (d : FilePath) (w : os.World) → os.parent path ≡ some d → (os.create_dir_all d w).0 ≡ ok tt
  pub dirs_keep : (d : FilePath) (w : os.World) → file (os.create_dir_all d w).1 ≡ file w
  pub exists_lem : (w : os.World) → os.exists path w ≡ (is_some (file w path), w)
  pub read_present :
      (p : FilePath) (t : Text) (w : os.World)
      → file w p ≡ some t
      → os.read_to_string p w ≡ (ok t, w)
  pub read_absent :
      (p : FilePath) (w : os.World) → file w p ≡ none → os.read_to_string p w ≡ (err (absent p), w)
  pub removed :
      (p : FilePath) (t : Text) (w : os.World)
      → file w p ≡ some t
      → ((os.remove_file p w).0 ≡ ok tt) × (file (os.remove_file p w).1 p ≡ none)
  pub removed_other :
      (p q : FilePath) (w : os.World) → q ≢ p → file (os.remove_file p w).1 q ≡ file w q
  pub created :
      (p : FilePath) (w : os.World)
      → file w p ≡ none
      → ((os.create_new p w).0 ≡ ok (handle p w)) × (file (os.create_new p w).1 p ≡ some [])
  pub created_other :
      (p q : FilePath) (w : os.World) → q ≢ p → file (os.create_new p w).1 q ≡ file w q
  pub written :
      (f : os.File) (t old : Text) (w : os.World)
      → file w (path_of f) ≡ some old
      → ((os.write_file f t w).0 ≡ ok tt)
        × (file (os.write_file f t w).1 (path_of f) ≡ some (old ++ t))
  pub written_other :
      (f : os.File) (t : Text) (q : FilePath) (w : os.World)
      → q ≢ path_of f
      → file (os.write_file f t w).1 q ≡ file w q
  pub flushed : (f : os.File) (w : os.World) → (os.flush_file f w).0 ≡ ok tt
  pub flush_keeps : (f : os.File) (w : os.World) → file (os.flush_file f w).1 ≡ file w

-- The process that a PID file with this content names, if it is alive by the answer of `kill`.
unfoldable pub live_pid : Os → (ℤ → Option ℕ) → Option ℕ → Option ℕ
live_pid os answers none = none
live_pid os answers (some pid) = if alive_of os (answers (as_i32 pid)) then some pid else none

unfoldable pub live_owner : Os → (ℤ → Option ℕ) → Option Text → Option ℕ
unfolding live_pid
live_owner os answers none = none
live_owner os answers (some content) = live_pid os answers (parse_u32 (trim content))
