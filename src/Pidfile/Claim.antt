-- ===== src/Pidfile/Claim.antt =====
-- Who gets the PID file.
use sockd.Common.{
  ℕ, suc, true, ◌≡◌, refl, ◌∙◌, ap, ◌≢◌, Option, none, some, [], ◌∷◌, ◌++◌, arith, inl, inr,
  Option-cases,
}
use sockd.Common.Int.{ℤ, as_i32}
use sockd.Text.{Text, trim}
use sockd.Text.Decimal.{show, parse_u32, parse_u32-trim-show}
use sockd.Outcome.{ok, err, Exec}
use sockd.Error.{Error, FilePath, daemon_already_running}
use sockd.Os.{Os}
use sockd.Pidfile.{
  PidGuard, read_pid, is_process_alive, refuse_live, clear_stale, created, remove_if_exists,
  make_parent, claim_loop, claim,
}
use sockd.Pidfile.Files.{IsQuiet, live_pid, live_owner}

module _ (os : Os) (file : os.World → FilePath → Option Text) (answers : ℤ → Option ℕ) (own_pid : ℕ)
    (p : FilePath) (quiet : IsQuiet os file answers own_pid p) where
  read_pid_present :
      (p : FilePath) (t : Text) (w : os.World)
      → file w p ≡ some t
      → read_pid os p w ≡ (ok (parse_u32 (trim t)), w)
  unfolding read_pid
  read_pid_present p t w e = rw (quiet.read_present p t w e)

  refuse_live_alive :
      (r : Option ℕ) (pid : ℕ) (w : os.World)
      → live_pid os answers r ≡ some pid
      → refuse_live os r w ≡ (err (daemon_already_running (some pid) none), w)
  unfolding refuse_live live_pid is_process_alive
  refuse_live_alive none pid w h = cc
  refuse_live_alive (some n) pid w h = ground (arith, quiet.probe (as_i32 n) w)

  refuse_live_dead :
      (r : Option ℕ) (w : os.World) → live_pid os answers r ≡ none → refuse_live os r w ≡ (ok tt, w)
  unfolding refuse_live live_pid is_process_alive
  refuse_live_dead none w h = refl
  refuse_live_dead (some n) w h = ground (arith, quiet.probe (as_i32 n) w)

  -- The check of a file that names a live process.
  clear_stale_live :
      (p : FilePath) (t : Text) (pid : ℕ) (w : os.World)
      → file w p ≡ some t
      → live_owner os answers (some t) ≡ some pid
      → clear_stale os p true w ≡ (err (daemon_already_running (some pid) none), w)
  unfolding clear_stale live_owner
  clear_stale_live p t pid w e live =
      rw (read_pid_present p t w e) (rw (refuse_live_alive (parse_u32 (trim t)) pid w live))

  -- The check of a file that names none, by its content or because the process is dead.
  clear_stale_dead :
      (p : FilePath) (t : Text) (w : os.World)
      → file w p ≡ some t
      → live_owner os answers (some t) ≡ none
      → clear_stale os p true w ≡ (ok tt, (os.remove_file p w).1)
  unfolding clear_stale live_owner remove_if_exists
  clear_stale_dead p t w e dead =
      rw (read_pid_present p t w e)
        (rw (refuse_live_dead (parse_u32 (trim t)) w dead) (ground (arith, quiet.removed p t w e)))

  abbrev own_line : Text
  own_line = show own_pid ++ b'\n' ∷ []

  -- Where a free file is created, the world after the writing of this process's id.
  abbrev after_create : FilePath → os.World → os.World
  after_create p w =
      let f = quiet.handle p w in
      (os.flush_file f (os.write_file f own_line (os.create_new p w).1).1).1

  created_lem :
      (again : Exec os.World Error PidGuard) (p : FilePath) (w : os.World)
      → file w p ≡ none
      → created os p again (os.create_new p w).0 (os.create_new p w).1
        ≡ (ok (record { path = p }), after_create p w)
  unfolding created
  created_lem again p w free =
      let f = quiet.handle p w in
      let w₂ = (os.create_new p w).1 in
      rw ((quiet.created p w free).0, quiet.own w₂)
        (ground (
          arith,
          quiet.written f own_line [] w₂ (rw quiet.path_of-handle (quiet.created p w free).1),
          quiet.flushed f (os.write_file f own_line w₂).1,
        ))

  after_create_file :
      (p : FilePath) (w : os.World) → file w p ≡ none → file (after_create p w) p ≡ some own_line
  after_create_file p w free =
      let f = quiet.handle p w in
      let w₂ = (os.create_new p w).1 in
      let held : file w₂ (quiet.path_of f) ≡ some [] =
        rw quiet.path_of-handle ((quiet.created p w free).1) in
      let line = (quiet.written f own_line [] w₂ held).1 in
      rw quiet.flush_keeps (rw quiet.path_of-handle at line)

  after_create_other :
      (p q : FilePath) (w : os.World) → q ≢ p → file (after_create p w) q ≡ file w q
  after_create_other p q w ne =
      let f = quiet.handle p w in
      let w₂ = (os.create_new p w).1 in
      rw quiet.flush_keeps (
        quiet.written_other f own_line q w₂ (λ e. ne (e ∙ quiet.path_of-handle p w))
        ∙ quiet.created_other p q w ne)

  read_back :
      (p : FilePath) (w : os.World)
      → file w p ≡ none
      → read_pid os p (after_create p w) ≡ (ok (some own_pid), after_create p w)
  read_back p w free =
      read_pid_present p own_line (after_create p w) (after_create_file p w free)
      ∙ rw (parse_u32-trim-show own_pid quiet.own_fits)

  -- A round of the loop, by what the file holds.
  round_refuses :
      (rounds pid : ℕ) (w : os.World)
      → live_owner os answers (file w p) ≡ some pid
      → claim_loop os (suc rounds) p w ≡ (err (daemon_already_running (some pid) none), w)
  unfolding claim_loop
  round_refuses rounds pid w live = elim (Option-cases (file w p)) [
    | inl free ↦ absurd (unfold live_owner in cc (free, live))
    | inr (t, e) ↦ rw (quiet.exists_lem w, e) (rw (clear_stale_live p t pid w e (rw e at live)))
  ]

  round_takes :
      (rounds : ℕ) (w : os.World)
      → live_owner os answers (file w p) ≡ none
      → (w₁ : os.World) × (claim_loop os (suc rounds) p w
          ≡ (ok (record { path = p }), after_create p w₁))
        × (file w₁ p ≡ none)
        × ((q : FilePath) → q ≢ p → file w₁ q ≡ file w q)
  unfolding claim_loop
  round_takes rounds w dead = elim (Option-cases (file w p)) [
    | inl free ↦ (
      w,
      rw (quiet.exists_lem w, free) (created_lem (claim_loop os rounds p) p w free),
      free,
      λ q ne. refl,
    )
    | inr (t, e) ↦
        let w₁ = (os.remove_file p w).1 in
        let gone = (quiet.removed p t w e).1 in
        (
          w₁,
          rw (quiet.exists_lem w, e)
              (rw (clear_stale_dead p t w e (rw e at dead))
                (created_lem (claim_loop os rounds p) p w₁ gone)),
          gone,
          λ q ne. quiet.removed_other p q w ne,
        )
  ]

  make_parent_lem :
      (d : Option FilePath) (w : os.World)
      → os.parent p ≡ d
      → (w₁ : os.World) × (make_parent os d w ≡ (ok tt, w₁)) × (file w₁ ≡ file w)
  unfolding make_parent
  make_parent_lem none w e = (w, refl, refl)
  make_parent_lem (some d) w e =
      ((os.create_dir_all d w).1, rw (quiet.dirs_made d w e), quiet.dirs_keep d w)

  -- On a quiet machine, a PID file that names a live process makes `claim` fail with that process's
  -- id, and every file keeps its content.
  pub claim_refuses :
      (pid : ℕ) (w : os.World)
      → live_owner os answers (file w p) ≡ some pid
      → ((claim os p w).0 ≡ err (daemon_already_running (some pid) none))
        × (file (claim os p w).1 ≡ file w)
  unfolding claim
  claim_refuses pid w live =
      let (w₁, made, same) = make_parent_lem (os.parent p) w refl in
      let refused = round_refuses 2 pid w₁ (rw same live) in rw made (rw refused (refl, same))

  -- On a quiet machine, where there is no PID file, or it holds no number, or the process that it
  -- names is dead, `claim` succeeds. Then the file reads back as the id of this process, and every
  -- other file keeps its content.
  pub claim_takes :
      (w : os.World)
      → live_owner os answers (file w p) ≡ none
      → let w' = (claim os p w).1 in
        ((claim os p w).0 ≡ ok (record { path = p }))
        × (read_pid os p w' ≡ (ok (some own_pid), w'))
        × ((q : FilePath) → q ≢ p → file w' q ≡ file w q)
  unfolding claim
  claim_takes w dead =
      let (w₁, made, same) = make_parent_lem (os.parent p) w refl in
      let (w₂, taken, free, others) = round_takes 2 w₁ (rw same dead) in
      rw made (
        rw taken (
          refl,
          read_back p w₂ free,
          λ q ne. after_create_other p q w₂ ne ∙ others q ne ∙ ap (λ g. g q) same,
        ))
