-- ===== src/Daemon/Instances.antt =====
-- Several daemons in `run` of src/daemon.rs at once, with one PID file and one socket, one call of
-- the operating system at a time. No call fails but by what the others do, and none of them is
-- killed. The event loop, on_start and on_stop touch neither the file nor the socket.
use sockd.Common.{ℕ, Bool, none}
use sockd.Common.Interleaving.{System, Reach, Run, stop, go}
use sockd.Pidfile.Claimants
use sockd.Pidfile.Claimants.{Disk, owning}
use sockd.Socket.Binders
use sockd.Socket.Binders.{Site, done, failed}

pub record Place : Type 0 where
  pub disk : Disk
  pub site : Site

-- Where a daemon stands: in `claim`, from `bind` to the end of `cleanup`, before the drop of its
-- guard, and at the end of `run`.
pub data Pc : Type 0 where
  claiming : (p : Claimants.Pc) → Pc
  binding : (q : Binders.Pc) → Pc
  releasing : Pc
  gone : Pc

-- `bind` has failed, or `cleanup` is over.
abbrev pub IsOver : Binders.Pc → Type 0
IsOver done = Unit
IsOver Binders.refused = Unit
IsOver failed = Unit
IsOver _ = ⊥

-- A step of the daemon with the id `pid`. `on_start` may fail; what `on_stop` does is of no account.
pub data Move (alive : ℕ → Bool) (pid : ℕ) (s : Place) : Pc → Place → Pc → Type 0 where
  claims :
      {p p' : Claimants.Pc} {d : Disk}
      → Claimants.Move alive pid s.disk p d p'
      → Move alive pid s (claiming p) (record s { disk = d }) (claiming p')
  turned_away : Move alive pid s (claiming Claimants.refused) s gone
  starts : Move alive pid s (claiming owning) s (binding Binders.looking)
  fails_to_start : Move alive pid s (claiming owning) s releasing
  binds :
      {q q' : Binders.Pc} {e : Site}
      → Binders.Move s.site q e q'
      → Move alive pid s (binding q) (record s { site = e }) (binding q')
  ends : {q : Binders.Pc} → IsOver q → Move alive pid s (binding q) s releasing
  releases : Move alive pid s releasing (record s { disk = record s.disk { file = none } }) gone

abbrev pub Moves : (ℕ → Bool) → (ℕ → ℕ) → ℕ → Place → Pc → Place → Pc → Type 0
Moves alive pid i = Move alive (pid i)

abbrev pub Daemons : Type 0
Daemons = System Place Pc

abbrev pub Reaches : (ℕ → Bool) → (ℕ → ℕ) → Daemons → Daemons → Type 0
Reaches alive pid = Reach (Moves alive pid)

-- Every daemon is about to begin.
abbrev pub fresh : Place → Daemons
fresh s = record { shared = s; pc = λ i. claiming (Claimants.looking 3) }

-- The steps of a claimant, and those of a process with its socket, as steps of a daemon.
pub claiming-Run :
    (alive : ℕ → Bool) (pid : ℕ) (e : Site) {d d' : Disk} {p p' : Claimants.Pc}
    → Run (Claimants.Move alive pid) d p d' p'
    → Run
        (Move alive pid)
        (record { disk = d; site = e })
        (claiming p)
        (record { disk = d'; site = e })
        (claiming p')
claiming-Run alive pid e stop = stop
claiming-Run alive pid e (go move run) = go (claims move) (claiming-Run alive pid e run)

pub binding-Run :
    (alive : ℕ → Bool) (pid : ℕ) (d : Disk) {e e' : Site} {q q' : Binders.Pc}
    → Run Binders.Move e q e' q'
    → Run
        (Move alive pid)
        (record { disk = d; site = e })
        (binding q)
        (record { disk = d; site = e' })
        (binding q')
binding-Run alive pid d stop = stop
binding-Run alive pid d (go move run) = go (binds move) (binding-Run alive pid d run)
