-- ===== src/Pidfile/Kept.antt =====
-- What `PidGuard::claim` of src/pidfile.rs leaves alone, and which guard it gives out.
use sockd.Common.{
  ℕ, zero, suc, ◌≡◌, refl, Bool, true, false, Option, none, some, [], ◌∷◌, ◌++◌, arith,
}
use sockd.Common.Int.{ℤ, as_i32}
use sockd.Text.{Text}
use sockd.Text.Decimal.{show}
use sockd.Outcome.{
  Result, ok, err, Exec, bind-keeps, bind-ends, ◌>>=◌, ◌>>◌, mapping_err, attempt, effect, pure,
  raise,
}
use sockd.Error.{Error, IoError, ErrorKind, FilePath, io, daemon_already_running}
use sockd.Os.{Os}
use sockd.Pidfile.{
  PidGuard, read_content, read_pid, is_process_alive, removed, remove_if_exists, refuse_live,
  clear_stale, created, claim_loop, make_parent, claim,
}

-- `view` is a part of the state that no call changes that is made for the PID file at the path `p`.
pub record KeepsClaim {V : Type 0} (os : Os) (p : FilePath) (view : os.World → V) : Type 0 where
  pub create_dir_all : (d : FilePath) (w : os.World) → view (os.create_dir_all d w).1 ≡ view w
  pub exists : (w : os.World) → view (os.exists p w).1 ≡ view w
  pub read_to_string : (w : os.World) → view (os.read_to_string p w).1 ≡ view w
  pub kill : (z : ℤ) (w : os.World) → view (os.kill z 0 w).1 ≡ view w
  pub remove_file : (w : os.World) → view (os.remove_file p w).1 ≡ view w
  pub create_new : (w : os.World) → view (os.create_new p w).1 ≡ view w
  pub write_file : (f : os.File) (t : Text) (w : os.World) → view (os.write_file f t w).1 ≡ view w
  pub flush_file : (f : os.File) (w : os.World) → view (os.flush_file f w).1 ≡ view w

module _ {V : Type 0} (os : Os) (p : FilePath) (view : os.World → V)
    (kept : KeepsClaim os p view) where
  read_content-keeps :
      (r : Result Text IoError) (w : os.World) → view (read_content os r w).1 ≡ view w
  unfolding read_content
  read_content-keeps (ok _) w = refl
  read_content-keeps (err e) w = ground arith

  read_pid-keeps : (w : os.World) → view (read_pid os p w).1 ≡ view w
  unfolding read_pid
  read_pid-keeps w =
      bind-keeps view (read_content os) (attempt (os.read_to_string p)) kept.read_to_string
        read_content-keeps w

  removed-keeps : (r : Result (Unit {0}) IoError) (w : os.World) → view (removed os r w).1 ≡ view w
  unfolding removed
  removed-keeps (ok _) w = refl
  removed-keeps (err e) w = ground arith

  remove_if_exists-keeps : (w : os.World) → view (remove_if_exists os p w).1 ≡ view w
  unfolding remove_if_exists
  remove_if_exists-keeps w =
      bind-keeps view (removed os) (attempt (os.remove_file p)) kept.remove_file removed-keeps w

  refuse_live-keeps :
      (recorded : Option ℕ) (w : os.World) → view (refuse_live os recorded w).1 ≡ view w
  unfolding refuse_live is_process_alive
  refuse_live-keeps none w = refl
  refuse_live-keeps (some pid) w = ground (arith, kept.kill (as_i32 pid) w)

  clear_stale-keeps : (present : Bool) (w : os.World) → view (clear_stale os p present w).1 ≡ view w
  unfolding clear_stale
  clear_stale-keeps false w = refl
  clear_stale-keeps true w =
      bind-keeps view (λ recorded. refuse_live os recorded >> remove_if_exists os p) (read_pid os p)
        read_pid-keeps
        (λ recorded.
          bind-keeps view (λ _. remove_if_exists os p) (refuse_live os recorded)
            (refuse_live-keeps recorded) (λ _. remove_if_exists-keeps))
        w

  created-keeps :
      (again : Exec os.World Error PidGuard)
      → ((w : os.World) → view (again w).1 ≡ view w)
      → (r : Result os.File IoError) (w : os.World) → view (created os p again r w).1 ≡ view w
  unfolding created
  created-keeps again held (ok file) w =
      bind-keeps view (λ _. mapping_err io (os.flush_file file) >> pure (record { path = p }))
        (mapping_err io (os.write_file file (show (os.process_id w) ++ b'\n' ∷ [])))
        (kept.write_file file (show (os.process_id w) ++ b'\n' ∷ []))
        (λ _.
          bind-keeps view (λ _. pure (record { path = p })) (mapping_err io (os.flush_file file))
            (kept.flush_file file) (λ _ v. refl))
        w
  created-keeps again held (err e) w = ground (arith, held w)

  claim_loop-keeps : (rounds : ℕ) (w : os.World) → view (claim_loop os rounds p w).1 ≡ view w
  unfolding claim_loop
  claim_loop-keeps zero w =
      bind-keeps view (λ pid. raise (daemon_already_running pid none)) (read_pid os p)
        read_pid-keeps (λ pid v. refl) w
  claim_loop-keeps (suc rounds) w =
      let rest = attempt (os.create_new p) >>= created os p (claim_loop os rounds p) in
      bind-keeps view (λ present. clear_stale os p present >> rest) (effect (os.exists p))
        kept.exists
        (λ present.
          bind-keeps view (λ _. rest) (clear_stale os p present) (clear_stale-keeps present)
            (λ _.
              bind-keeps view (created os p (claim_loop os rounds p)) (attempt (os.create_new p))
                kept.create_new (created-keeps (claim_loop os rounds p) (claim_loop-keeps rounds))))
        w

  make_parent-keeps : (d : Option FilePath) (w : os.World) → view (make_parent os d w).1 ≡ view w
  unfolding make_parent
  make_parent-keeps none w = refl
  make_parent-keeps (some d) w = kept.create_dir_all d w

  pub claim_keeps : (w : os.World) → view (claim os p w).1 ≡ view w
  unfolding claim
  claim_keeps w =
      bind-keeps view (λ _. claim_loop os 3 p) (make_parent os (os.parent p))
        (make_parent-keeps (os.parent p)) (λ _. claim_loop-keeps 3) w

-- A guard is given out for the path that was claimed.
abbrev pub IsGuardOf : FilePath → Result PidGuard Error → Type 0
IsGuardOf p (ok guard) = guard.path ≡ p
IsGuardOf p (err e) = Unit

module _ (os : Os) (p : FilePath) where
  created-IsGuardOf :
      (again : Exec os.World Error PidGuard)
      → ((w : os.World) → IsGuardOf p (again w).0)
      → (r : Result os.File IoError) (w : os.World) → IsGuardOf p (created os p again r w).0
  unfolding created
  created-IsGuardOf again held (ok file) w =
      bind-ends (IsGuardOf p) (λ e. tt)
        (λ _. mapping_err io (os.flush_file file) >> pure (record { path = p }))
        (mapping_err io (os.write_file file (show (os.process_id w) ++ b'\n' ∷ [])))
        (λ _.
          bind-ends (IsGuardOf p) (λ e. tt) (λ _. pure (record { path = p }))
            (mapping_err io (os.flush_file file)) (λ _ v. refl))
        w
  created-IsGuardOf again held (err e) w =
      elim e.kind
        as (λ k.
          IsGuardOf p
            ((elim k as (λ _. Exec os.World Error PidGuard) [
              | ErrorKind.already_exists ↦ again
              | _ ↦ raise (io e)
            ])
              w).0) [ ErrorKind.already_exists ↦ held w | _ ↦ tt ]

  claim_loop-IsGuardOf : (rounds : ℕ) (w : os.World) → IsGuardOf p (claim_loop os rounds p w).0
  unfolding claim_loop
  claim_loop-IsGuardOf zero w =
      bind-ends (IsGuardOf p) (λ e. tt) (λ pid. raise (daemon_already_running pid none))
        (read_pid os p) (λ pid v. tt) w
  claim_loop-IsGuardOf (suc rounds) w =
      let rest = attempt (os.create_new p) >>= created os p (claim_loop os rounds p) in
      bind-ends (IsGuardOf p) (λ e. tt) (λ present. clear_stale os p present >> rest)
        (effect (os.exists p))
        (λ present.
          bind-ends (IsGuardOf p) (λ e. tt) (λ _. rest) (clear_stale os p present)
            (λ _.
              bind-ends (IsGuardOf p) (λ e. tt) (created os p (claim_loop os rounds p))
                (attempt (os.create_new p))
                (created-IsGuardOf (claim_loop os rounds p) (claim_loop-IsGuardOf rounds))))
        w

  pub claim-IsGuardOf : (w : os.World) → IsGuardOf p (claim os p w).0
  unfolding claim
  claim-IsGuardOf w =
      bind-ends (IsGuardOf p) (λ e. tt) (λ _. claim_loop os 3 p) (make_parent os (os.parent p))
        (λ _. claim_loop-IsGuardOf 3) w
