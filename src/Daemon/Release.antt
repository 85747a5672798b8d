-- ===== src/Daemon/Release.antt =====
-- The PID file at the end of `run`.
use sockd.Common.{ℕ, ◌≡◌, ◌≢◌, refl, ap, ◌∙◌, Option, none, some}
use sockd.Common.Int.{ℤ}
use sockd.Text.{Text}
use sockd.Outcome.{Result, ok, err, Halt, raised, unfinished}
use sockd.Error.{Error, FilePath, daemon_already_running}
use sockd.Os.{Os}
use sockd.Pidfile.{claim, drop_guard}
use sockd.Pidfile.Files.{IsQuiet, live_owner}
use sockd.Pidfile.Claim.{claim_refuses}
use sockd.Daemon.{Daemon}
use sockd.Daemon.Run.{install_shutdown_flag, serve, release, run}

release_lem :
    (os : Os) {S : Type 0} (daemon : Daemon os.World S) (path : FilePath) (Gone : os.World → Type 0)
    → ((v : os.World) → Gone (os.remove_file path v).1)
    → (r : Result (Unit {0}) (Halt Error)) (v : os.World) → r ≢ err unfinished
    → Gone (release os daemon (record { path = path }) r v)
unfolding release drop_guard
release_lem os daemon path Gone gone (ok _) v h = gone v
release_lem os daemon path Gone gone (err (raised e)) v h = gone v
release_lem os daemon path Gone gone (err unfinished) v h = absurd (h refl)

module _ (os : Os) {S : Type 0} (daemon : Daemon os.World S) (path : FilePath) (w w₁ : os.World)
    (flag : os.Flag) (owned : daemon.config.pid_file ≡ some path)
    (installed : install_shutdown_flag os w ≡ (ok flag, w₁)) where
  pub run_claimed :
      (fuel : ℕ) (w₂ : os.World)
      → claim os path w₁ ≡ (ok (record { path = path }), w₂)
      → run os daemon fuel w ≡ (
        (serve os daemon fuel flag w₂).0,
        release os daemon
            (record { path = path })
            (serve os daemon fuel flag w₂).0
            (serve os daemon fuel flag w₂).1,
      )
  unfolding run
  run_claimed fuel w₂ claimed = rw (installed, owned, claimed)

  -- Once `run` has claimed its PID file, it does not return without having removed the file: what
  -- holds after every `remove_file` of that path holds when `run` returns, with or without an
  -- error.
  pub run_releases :
      (Gone : os.World → Type 0) (fuel : ℕ) (w₂ : os.World)
      → ((v : os.World) → Gone (os.remove_file path v).1)
      → claim os path w₁ ≡ (ok (record { path = path }), w₂)
      → (run os daemon fuel w).0 ≢ err unfinished
      → Gone (run os daemon fuel w).1
  run_releases Gone fuel w₂ gone claimed returned =
      let same = run_claimed fuel w₂ claimed in
      let (r, v) = serve os daemon fuel flag w₂ in
      rw same (release_lem os daemon path Gone gone r v (λ e. returned (ap (λ x. x.0) same ∙ e)))

  -- On a quiet machine where the installing of the signal handlers touches no file, a daemon that
  -- finds a live owner in its PID file fails with that owner's process id and leaves every file as
  -- it was, the owner's PID file among them.
  run_refused :
      (file : os.World → FilePath → Option Text) (answers : ℤ → Option ℕ) (own_pid : ℕ)
      (quiet : IsQuiet os file answers own_pid path) (fuel pid : ℕ)
      → file w₁ ≡ file w
      → live_owner os answers (file w path) ≡ some pid
      → ((run os daemon fuel w).0 ≡ err (raised (daemon_already_running (some pid) none)))
        × (file (run os daemon fuel w).1 ≡ file w)
  unfolding run
  run_refused file answers own_pid quiet fuel pid same live =
      let refused = claim_refuses os file answers own_pid path quiet pid w₁ (rw same live) in
      rw (installed, owned, refused.0) (refl, refused.1 ∙ same)
