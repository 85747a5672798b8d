-- ===== src/Daemon/Refinement/Whole.antt =====
-- All of `run` of src/daemon.rs, on every path through it.
use mathlib.Core.Path.{subst}
use sockd.Common.{ℕ, ◌≡◌, ◌≢◌, refl, sym, ap, ◌∙◌, inl, inr, Bool, Option, some, Option-cases}
use sockd.Common.Interleaving.{Run, stop, go, from, to, Run-append}
use sockd.Outcome.{
  Result, ok, err, Result-cases, Halt, raised, unfinished, bind-keeps, mapping_err, raise,
}
use sockd.Error.{Error, FilePath, shutdown}
use sockd.Os.{Os}
use sockd.Daemon.Refinement.{
  IsQuietFor, place_of, both, claim-Goes, bind-Goes, wind_down-Goes, Returned-IsOver,
}
use sockd.Pidfile.{PidGuard, claim, drop_guard}
use sockd.Pidfile.Claimants
use sockd.Pidfile.Claimants.{Disk, owning}
use sockd.Pidfile.Kept.{IsGuardOf, claim-IsGuardOf}
use sockd.Pidfile.Steps.{returned}
use sockd.Socket.{bind}
use sockd.Socket.Binders
use sockd.Socket.Binders.{Site, holding, done, failed}
use sockd.Socket.Runs.{Returned}
use sockd.Daemon.{Daemon, Running}
use sockd.Daemon.Run.{
  install_shutdown_flag, run_event_loop, after_loop, bound, serve, release, guarded, run,
}
use sockd.Daemon.Kept.{run_event_loop-keeps}
use sockd.Daemon.Instances.{
  Place, Pc, claiming, binding, releasing, gone, Move, turned_away, starts, fails_to_start, ends,
  releases,
}

module _ (os : Os) {S : Type 0} (daemon : Daemon os.World S) (path : FilePath)
    (disk : os.World → Disk) (site : os.World → Site) (alive : ℕ → Bool) (pid : ℕ)
    (quiet : IsQuietFor os daemon path disk site alive pid) where
  abbrev place : os.World → Place
  place w = place_of disk site w

  abbrev Goes : os.World → Pc → os.World → Pc → Type 0
  Goes w p w' p' = Run (Move alive pid) (place w) p (place w') p'

  -- From the arms of the `match` on `bind` to the end of `run`, unless its event loop goes on.
  after_loop-Goes :
      (n : ℕ) (state : S) (loop_result : Result (Unit {0}) (Halt Error)) (w : os.World)
      → (after_loop os daemon (quiet.on_site.handle n) state loop_result w).0 ≢ err unfinished
      → Goes w
          (binding (holding n))
          (after_loop os daemon (quiet.on_site.handle n) state loop_result w).1
          releasing
  unfolding after_loop
  after_loop-Goes n state (ok _) w h =
      wind_down-Goes os daemon path disk site alive pid quiet n state (ok tt) w
  after_loop-Goes n state (err (raised e)) w h =
      wind_down-Goes os daemon path disk site alive pid quiet n state (err e) w
  after_loop-Goes n state (err unfinished) w h = absurd (h refl)

  listening-Goes :
      (fuel : ℕ) (flag : os.Flag) (state : S) (n : ℕ) (w : os.World)
      → (bound os daemon fuel flag state (ok (quiet.on_site.handle n)) w).0 ≢ err unfinished
      → Goes w
          (binding (holding n))
          (bound os daemon fuel flag state (ok (quiet.on_site.handle n)) w).1
          releasing
  unfolding bound
  listening-Goes fuel flag state n w h =
      let start : Running os.World S = record { app = state; world = w } in
      let l = quiet.on_site.handle n in
      let (loop_result, r) = run_event_loop os daemon fuel flag l start in
      from (run_event_loop-keeps os daemon (place_of disk site) quiet.loop_keeps fuel flag l start)
        (after_loop-Goes n r.app loop_result r.world h)

  bound-Goes :
      (fuel : ℕ) (flag : os.Flag) (state : S) (answer : Result os.Listener Error) (q : Binders.Pc)
      (w : os.World)
      → Returned os daemon.config.socket_path site quiet.on_site answer q
      → (bound os daemon fuel flag state answer w).0 ≢ err unfinished
      → Goes w (binding q) (bound os daemon fuel flag state answer w).1 releasing
  unfolding bound
  bound-Goes fuel flag state (ok l) (holding n) w same h =
      subst
        (λ x.
          (bound os daemon fuel flag state (ok x) w).0 ≢ err unfinished
          → Goes w (binding (holding n)) (bound os daemon fuel flag state (ok x) w).1 releasing)
        (sym same) (listening-Goes fuel flag state n w) h
  bound-Goes fuel flag state (ok l) _ w r h = absurd r
  bound-Goes fuel flag state (err e) q w r h =
      let stopping = mapping_err shutdown (daemon.on_stop state) in
      let kept =
        bind-keeps (λ v. place v) (λ _. raise e) stopping (quiet.stop_keeps state) (λ _ v. refl)
          w in
      to (sym kept)
        (go (ends (Returned-IsOver os daemon path disk site alive pid quiet e q r)) stop)

  -- From `on_start` on.
  serve-Goes :
      (fuel : ℕ) (flag : os.Flag) (w : os.World)
      → (serve os daemon fuel flag w).0 ≢ err unfinished
      → Goes w (claiming owning) (serve os daemon fuel flag w).1 releasing
  unfolding serve
  serve-Goes fuel flag w h =
      let w₁ = (daemon.on_start w).1 in
      let kept = quiet.start_keeps w in
      elim (Result-cases (daemon.on_start w).0) [
        | inr (e, crashed) ↦ rw crashed (to (sym kept) (go fails_to_start stop))
        | inl (state, started) ↦
            let (q, bound_to, r) = bind-Goes os daemon path disk site alive pid quiet w₁ in
            let (answer, w₂) = bind os daemon.config.socket_path w₁ in
            let runs : serve os daemon fuel flag w ≡ bound os daemon fuel flag state answer w₂ =
              rw started refl in
            let steps =
              bound-Goes fuel flag state answer q w₂ r (λ e. h (ap (λ x. x.0) runs ∙ e)) in
            rw runs (go starts (from kept (Run-append bound_to steps)))
      ]

  -- The drop of the guard.
  removed-Goes : (w : os.World) → Goes w releasing (os.remove_file path w).1 gone
  removed-Goes w =
      let without : Disk → Option ℕ → Disk = λ d f. record d { file = f } in
      let aside = quiet.claim_keeps.remove_file w in
      elim (Option-cases (disk w).file) [
        | inl missing ↦
            let kept = quiet.on_disk.not_removed w missing ∙ ap (without (disk w)) missing in
            to (sym (both kept aside)) (go releases stop)
        | inr (n, there) ↦
            to (sym (both (quiet.on_disk.removed n w there).1 aside)) (go releases stop)
      ]

  release-Goes :
      (guard : PidGuard) (r : Result (Unit {0}) (Halt Error)) (w : os.World)
      → guard.path ≡ path
      → r ≢ err unfinished
      → Goes w releasing (release os daemon guard r w) gone
  unfolding release drop_guard
  release-Goes guard (ok _) w same h = rw same (removed-Goes w)
  release-Goes guard (err (raised e)) w same h = rw same (removed-Goes w)
  release-Goes guard (err unfinished) w same h = absurd (h refl)

  guarded-Goes :
      (fuel : ℕ) (flag : os.Flag) (guard : PidGuard) (w : os.World)
      → guard.path ≡ path
      → (guarded os daemon guard (serve os daemon fuel flag) w).0 ≢ err unfinished
      → Goes w (claiming owning) (guarded os daemon guard (serve os daemon fuel flag) w).1 gone
  unfolding guarded
  guarded-Goes fuel flag guard w same h =
      let (r, w') = serve os daemon fuel flag w in
      Run-append (serve-Goes fuel flag w h) (release-Goes guard r w' same h)

  -- On a machine where nobody else acts, with the laws of `IsQuietFor`: what a daemon with a PID file
  -- does to that and to the path of its socket, from the start of run to its return, are steps of
  -- one process in Move, from the one that is about to begin to the one that is gone, whatever it
  -- returns. The handlers of the signals are installed, and that touches neither.
  pub run-Run :
      (fuel : ℕ) (flag : os.Flag) (w w₁ : os.World)
      → daemon.config.pid_file ≡ some path
      → install_shutdown_flag os w ≡ (ok flag, w₁)
      → place w₁ ≡ place w
      → (run os daemon fuel w).0 ≢ err unfinished
      → Run
          (Move alive pid)
          (place w)
          (claiming (Claimants.looking 3))
          (place (run os daemon fuel w).1)
          gone
  unfolding run
  run-Run fuel flag w w₁ owned installed same h =
      let w₂ = (claim os path w₁).1 in
      let claimed : Goes w (claiming (Claimants.looking 3)) w₂ _ =
        from same (claim-Goes os daemon path disk site alive pid quiet w₁) in
      elim (Result-cases (claim os path w₁).0) [
        | inr (e, refusal) ↦
            let runs : run os daemon fuel w ≡ (err (raised e), w₂) =
              rw (installed, owned, refusal) refl in
            let away : Goes w (claiming (Claimants.looking 3)) w₂ (claiming Claimants.refused) =
              subst (λ r. Goes w (claiming (Claimants.looking 3)) w₂ (claiming (returned r)))
                refusal claimed in
            rw runs (Run-append away (go turned_away stop))
        | inl (guard, got) ↦
            let ours : guard.path ≡ path =
              subst (IsGuardOf path) got (claim-IsGuardOf os path w₁) in
            let runs : run os daemon fuel w
                ≡ guarded os daemon guard (serve os daemon fuel flag) w₂ =
              rw (installed, owned, got) refl in
            let owns : Goes w (claiming (Claimants.looking 3)) w₂ (claiming owning) =
              subst (λ r. Goes w (claiming (Claimants.looking 3)) w₂ (claiming (returned r))) got
                claimed in
            let steps = guarded-Goes fuel flag guard w₂ ours (λ e. h (ap (λ x. x.0) runs ∙ e)) in
            rw runs (Run-append owns steps)
      ]
