-- ===== src/Daemon/Arrival.antt =====
-- A daemon that starts while no other does.
use mathlib.Core.Path.{fun_ext, subst}
use sockd.Common.{ℕ, ◌<◌, ◌^◌, ◌≡◌, refl, ap, ◌∙◌, inl, inr, ◌⊎◌, Bool, true, false, arith}
use sockd.Common.Interleaving.{by, here, later, Run, stop, go, Run-Reach, and_then, moved}
use sockd.Pidfile.Claimants
use sockd.Pidfile.Claimants.{Claimants}
use sockd.Pidfile.Ownership.{IsSettled}
use sockd.Pidfile.Alone.{IsFree, alone_takes}
use sockd.Socket.Binders
use sockd.Socket.Binders.{
  Found, Site, is_there, looking, holding, with_socket, finds_none, finds_some, inspects_socket,
  probes_stale, removes, opens,
}
use sockd.Daemon.Instances.{
  Place, claiming, binding, claims, starts, Moves, Daemons, Reaches, fresh, binding-Run,
}
use sockd.Daemon.Exclusion.{IsInside, HasEnded, insider_stays}

-- Nobody listens at the path, and nothing stands there but perhaps a socket.
abbrev pub IsVacant : Site → Type 0
IsVacant d =
    (d.at_path ≡ Found.nothing)
    ⊎ ((n : ℕ) × (d.at_path ≡ Found.a_socket n) × (d.listened_on n ≡ false))

-- Whatever was there, a new socket leaves its own mark.
abbrev next_holding : Site → Binders.Pc
next_holding d = holding d.next

vacant_opens : (d : Site) → IsVacant d → Run Binders.Move d looking (with_socket d) (next_holding d)
vacant_opens d (inl empty) = go (finds_none empty) (go (opens empty) stop)
vacant_opens d (inr (n, there, stale)) =
    let present : is_there d.at_path ≡ true = ap is_there there in
    go (finds_some present) (
      go (inspects_socket there)
        (go (probes_stale there stale) (go (removes present) (go (opens refl) stop))))

module _ (alive : ℕ → Bool) (pid : ℕ → ℕ) where
  -- Claimants as daemons.
  abbrev with_site : Site → Claimants → Daemons
  with_site e c = record {
    shared = record { disk = c.shared; site = e };
    pc = λ k. claiming (c.pc k);
  }

  with_site-moved :
      (e : Site) (c : Claimants) (j : ℕ) (d : Claimants.Disk) (p : Claimants.Pc)
      → with_site e (moved c j d p)
        ≡ moved (with_site e c) j (record { disk = d; site = e }) (claiming p)
  with_site-moved e c j d p =
      ap (λ f. record { shared = record { disk = d; site = e }; pc = f })
        (fun_ext λ k. ground arith)

  with_site-Reaches :
      (e : Site) {c c' : Claimants}
      → Claimants.Reaches alive pid c c'
      → Reaches alive pid (with_site e c) (with_site e c')
  with_site-Reaches e here = here
  with_site-Reaches e (later {t} r (by j p p' d at move eq)) = later (with_site-Reaches e r) (
      by j (claiming p) (claiming p') (record { disk = d; site = e }) (ap claiming at) (claims move)
        (ap (with_site e) eq ∙ with_site-moved e t j d p'))

  with_site-IsInside :
      (e : Site) (i : ℕ) (c : Claimants)
      → IsSettled alive pid i c
      → IsInside alive pid i (with_site e c)
  with_site-IsInside e i c settled = record {
    made = settled.made;
    at_path = settled.at_path;
    names = settled.names;
    holds = rw settled.owns tt;
    others = settled.others;
  }

  -- A live daemon that runs while no other has begun can reach the state in which it holds a
  -- listener, is the only one past claim, and the PID file names it: if there was no PID file, or it
  -- held no number or named a dead process, and at the path of the socket there was nothing, or a
  -- socket that nobody listened on.
  pub alone_comes_up :
      (i : ℕ) (s : Place)
      → alive (pid i) ≡ true
      → pid i < 2 ^ 32
      → IsFree alive pid s.disk
      → IsVacant s.site
      → (t : Daemons) × Reaches alive pid (fresh s) t
        × IsInside alive pid i t
        × (t.pc i ≡ binding (holding s.site.next))
  alone_comes_up i s up word free vacant =
      let (c, claimed, settled) = alone_takes alive pid i s.disk free in
      let run = go starts (binding-Run alive (pid i) c.shared (vacant_opens s.site vacant)) in
      let (t, r, e, at) =
        Run-Reach (Moves alive pid) i (with_site s.site c) run refl (ap claiming settled.owns) in
      let inside = with_site-IsInside s.site i c settled in
      (
        t,
        and_then (Moves alive pid) (with_site-Reaches s.site claimed) r,
        elim (insider_stays alive pid i up word inside r) [
          | inl still ↦ still
          | inr over ↦ absurd (subst HasEnded at over)
        ],
        at,
      )
