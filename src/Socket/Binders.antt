-- ===== src/Socket/Binders.antt =====
-- Several processes between the start of `bind` and the end of `cleanup` (src/socket.rs) at once, on
-- one path, one call of the operating system at a time. The directory is there, and no call fails
-- but by what the others do. `UnixListener::bind` is one step: the time between its bind and its
-- listen, when a probe is refused, is left out.
use sockd.Common.{ℕ, suc, ◌≡◌, Bool, true, false}
use sockd.Common.Interleaving.{System, Reach, update}

-- What stands at the path. Every socket that was made has a number.
pub data Found : Type 0 where
  nothing : Found
  a_socket : (n : ℕ) → Found
  something_else : Found

abbrev pub is_there : Found → Bool
is_there Found.nothing = false
is_there _ = true

pub record Site : Type 0 where
  pub at_path : Found
  pub listened_on : ℕ → Bool
  pub next : ℕ

-- A new socket that is listened on, and an old one that no longer is, with nothing at the path.
abbrev pub with_socket : Site → Site
with_socket d = record {
  at_path = Found.a_socket d.next;
  listened_on = update d.listened_on d.next true;
  next = suc d.next;
}

abbrev pub without_socket : Site → ℕ → Site
without_socket d n = record {
  at_path = Found.nothing;
  listened_on = update d.listened_on n false;
  next = d.next;
}

-- Where a process stands: before `exists`, before `symlink_metadata`, before `connect`, before the
-- removal and before `UnixListener::bind`. Then it holds a listener, it has dropped it and is before
-- the removal in `cleanup`, and it is done. Or it has returned `DaemonAlreadyRunning`, or an error
-- of the operating system.
pub data Pc : Type 0 where
  looking : Pc
  inspecting : Pc
  probing : Pc
  removing : Pc
  opening : Pc
  holding : (n : ℕ) → Pc
  cleaning : Pc
  done : Pc
  refused : Pc
  failed : Pc

-- A step of one process. What is no socket is never probed: no process puts it there.
pub data Move (d : Site) : Pc → Site → Pc → Type 0 where
  finds_none : d.at_path ≡ Found.nothing → Move d looking d opening
  finds_some : is_there d.at_path ≡ true → Move d looking d inspecting
  inspects_gone : d.at_path ≡ Found.nothing → Move d inspecting d failed
  inspects_socket : {n : ℕ} → d.at_path ≡ Found.a_socket n → Move d inspecting d probing
  inspects_other : d.at_path ≡ Found.something_else → Move d inspecting d failed
  probes_gone : d.at_path ≡ Found.nothing → Move d probing d removing
  probes_stale :
      {n : ℕ} → d.at_path ≡ Found.a_socket n → d.listened_on n ≡ false → Move d probing d removing
  probes_live :
      {n : ℕ} → d.at_path ≡ Found.a_socket n → d.listened_on n ≡ true → Move d probing d refused
  removes :
      is_there d.at_path ≡ true → Move d removing (record d { at_path = Found.nothing }) opening
  removes_none : d.at_path ≡ Found.nothing → Move d removing d failed
  opens : d.at_path ≡ Found.nothing → Move d opening (with_socket d) (holding d.next)
  collides : is_there d.at_path ≡ true → Move d opening d failed
  drops :
      {n : ℕ}
      → Move d (holding n) (record d { listened_on = update d.listened_on n false }) cleaning
  cleans : is_there d.at_path ≡ true → Move d cleaning (record d { at_path = Found.nothing }) done
  cleans_none : d.at_path ≡ Found.nothing → Move d cleaning d done

abbrev pub Moves : ℕ → Site → Pc → Site → Pc → Type 0
Moves i = Move

abbrev pub Binders : Type 0
Binders = System Site Pc

abbrev pub Reaches : Binders → Binders → Type 0
Reaches = Reach Moves

-- Every process is about to begin.
abbrev pub fresh : Site → Binders
fresh d = record { shared = d; pc = λ i. looking }
