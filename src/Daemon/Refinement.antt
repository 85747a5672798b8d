-- ===== src/Daemon/Refinement.antt =====
-- `run` of src/daemon.rs as a run of one daemon of Daemon/Instances.
pub mod Whole
use mathlib.Core.Path.{subst}
use sockd.Common.{
  ℕ, zero, suc, ◌≡◌, ◌≢◌, refl, sym, ap, ◌∙◌, inl, inr, Bool, Option, none, some, Option-cases,
}
use sockd.Common.Interleaving.{Run, stop, go, from, to, Run-append}
use sockd.Outcome.{
  Result, ok, err, Result-cases, Halt, raised, unfinished, lift, bind-keeps, mapping_err, raise,
  ◌>>◌, ◌>>=◌,
}
use sockd.Error.{Error, BoxError, FilePath, shutdown}
use sockd.Os.{Os}
use sockd.Pidfile.{PidGuard, claim, drop_guard}
use sockd.Pidfile.Claimants
use sockd.Pidfile.Claimants.{Disk, owning}
use sockd.Pidfile.Kept.{KeepsClaim, claim_keeps, IsGuardOf, claim-IsGuardOf}
use sockd.Pidfile.Steps.{HasDisk, returned, claim-Run}
use sockd.Socket.{bind, cleanup}
use sockd.Socket.Binders
use sockd.Socket.Binders.{Site, holding, done, failed}
use sockd.Socket.Kept.{KeepsBind, bind_keeps, cleanup_keeps}
use sockd.Socket.Runs.{HasSite, Returned, bind-Run, cleanup-Run}
use sockd.Daemon.{Daemon, Running}
use sockd.Daemon.Run.{
  install_shutdown_flag, run_event_loop, wind_down, after_loop, bound, serve, release, guarded, run,
}
use sockd.Daemon.Kept.{KeepsLoop, run_event_loop-keeps}
use sockd.Daemon.Instances.{
  Place, Pc, claiming, binding, releasing, gone, IsOver, Move, turned_away, starts, fails_to_start,
  ends, releases, claiming-Run, binding-Run,
}

abbrev pub place_of : {W : Type 0} → (W → Disk) → (W → Site) → W → Place
place_of disk site w = record { disk = disk w; site = site w }

pub both :
    {d d' : Disk} {e e' : Site}
    → d ≡ d'
    → e ≡ e'
    → let old : Place = record { disk = d; site = e } in old ≡ record { disk = d'; site = e' }
both {d'} {e} p q =
    ap (λ x. record { disk = x; site = e }) p ∙ ap (λ x. record { disk = d'; site = x }) q

-- A machine on which nobody else acts. The calls for the PID file leave the socket's path alone and
-- the calls for the socket the PID file; the callbacks and the event loop leave both alone.
pub record IsQuietFor (os : Os) {S : Type 0} (daemon : Daemon os.World S) (path : FilePath)
    (disk : os.World → Disk) (site : os.World → Site) (alive : ℕ → Bool) (pid : ℕ) : Type 0 where
  pub on_disk : HasDisk os path disk alive pid
  pub on_site : HasSite os daemon.config.socket_path site
  pub claim_keeps : KeepsClaim os path site
  pub bind_keeps : KeepsBind os daemon.config.socket_path disk
  pub loop_keeps : KeepsLoop os daemon (place_of disk site)
  pub start_keeps : (w : os.World) → place_of disk site (daemon.on_start w).1 ≡ place_of disk site w
  pub stop_keeps :
      (app : S) (w : os.World) → place_of disk site (daemon.on_stop app w).1 ≡ place_of disk site w

module _ (os : Os) {S : Type 0} (daemon : Daemon os.World S) (path : FilePath)
    (disk : os.World → Disk) (site : os.World → Site) (alive : ℕ → Bool) (pid : ℕ)
    (quiet : IsQuietFor os daemon path disk site alive pid) where
  abbrev place : os.World → Place
  place w = place_of disk site w

  lifted-keeps :
      (r₁ r₂ r₃ : Result (Unit {0}) Error) (w : os.World)
      → ((lift r₁ >> (lift r₂ >> lift r₃)) w).1 ≡ w
  lifted-keeps r₁ r₂ r₃ w =
      bind-keeps (λ v. v) (λ _. lift r₂ >> lift r₃) (lift r₁) (λ v. refl)
        (λ _. bind-keeps (λ v. v) (λ _. lift r₃) (lift r₂) (λ v. refl) (λ _ v. refl)) w

  -- From one state of the machine to another.
  abbrev Goes : os.World → Pc → os.World → Pc → Type 0
  Goes w p w' p' = Run (Move alive pid) (place w) p (place w') p'

  pub claim-Goes :
      (w : os.World)
      → Goes w
          (claiming (Claimants.looking 3))
          (claim os path w).1
          (claiming (returned (claim os path w).0))
  claim-Goes w =
      let kept = claim_keeps os path site quiet.claim_keeps w in
      to (ap (λ e. record { disk = disk (claim os path w).1; site = e }) (sym kept))
        (claiming-Run alive pid (site w) (claim-Run os path disk alive pid quiet.on_disk w))

  -- `bind` keeps the PID file, and a run of it is one of the daemon.
  pub bind-Goes :
      (w : os.World)
      → (q : Binders.Pc) × Goes w
          (binding Binders.looking)
          (bind os daemon.config.socket_path w).1
          (binding q)
        × Returned os daemon.config.socket_path site quiet.on_site
            (bind os daemon.config.socket_path w).0
            q
  bind-Goes w =
      let p = daemon.config.socket_path in
      let w' = (bind os p w).1 in
      let (q, run, r) = bind-Run os p site quiet.on_site w in
      let kept = bind_keeps os p disk quiet.bind_keeps w in
      (
        q,
        to (ap (λ d. record { disk = d; site = site w' }) (sym kept))
            (binding-Run alive pid (disk w) run),
        r,
      )

  -- The end of `run`: the listener is dropped, and the socket's path is cleaned.
  pub wind_down-Goes :
      (n : ℕ) (state : S) (loop_result : Result (Unit {0}) Error) (w : os.World)
      → Goes w
          (binding (holding n))
          (wind_down os daemon (quiet.on_site.handle n) state loop_result w).1
          releasing
  unfolding wind_down
  wind_down-Goes n state loop_result w =
      let p = daemon.config.socket_path in
      let dropped = os.close_listener (quiet.on_site.handle n) w in
      let cleaned = (cleanup os p dropped).1 in
      let (finished, run) = cleanup-Run os p site quiet.on_site n w in
      let kept =
        cleanup_keeps os p disk quiet.bind_keeps dropped
        ∙ quiet.bind_keeps.close_listener (quiet.on_site.handle n) w in
      let steps : Goes w (binding (holding n)) cleaned (binding done) =
        to (ap (λ d. record { disk = d; site = site cleaned }) (sym kept))
          (binding-Run alive pid (disk w) run) in
      let (stop_result, stopped) = mapping_err shutdown (daemon.on_stop state) cleaned in
      let results = lifted-keeps loop_result (cleanup os p dropped).0 stop_result stopped in
      to (sym (ap (λ v. place v) results ∙ quiet.stop_keeps state cleaned))
        (Run-append steps (go (ends tt) stop))

  -- `bind` that has failed is over.
  pub Returned-IsOver :
      (e : Error) (q : Binders.Pc)
      → Returned os daemon.config.socket_path site quiet.on_site (err e) q
      → IsOver q
  Returned-IsOver (Error.daemon_already_running pid' socket) Binders.refused r = tt
  Returned-IsOver (Error.io e) failed r = tt
  Returned-IsOver _ _ r = absurd r
