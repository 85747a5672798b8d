-- ===== src/Pidfile/Claimants.antt =====
-- Several processes in `PidGuard::claim` of src/pidfile.rs at once, one call of the operating system
-- at a time. The directory is there, and no call fails but by what the others do. The write of the
-- number and its newline is one step; a reader trims, so that it makes the same of the number alone.
use sockd.Common.{ℕ, zero, suc, ◌≡◌, Bool, true, false, Option, none, some, [], ◌∷◌, ◌++◌}
use sockd.Common.Interleaving.{System, Reach, update}
use sockd.Text.{Text, trim}
use sockd.Text.Decimal.{show, parse_u32}

-- The file at the path, if there is one, and the content of every file that was made: a file that is
-- removed can still be written by who made it.
pub record Disk : Type 0 where
  pub file : Option ℕ
  pub content : ℕ → Text
  pub next : ℕ

-- Where a process stands, with the rounds of `for _ in 0..3` that are left behind it: before
-- `exists`, before `read_pid`, before `kill`, before the removal, before `create_new` and before the
-- write. At the end it owns the PID file or has returned `DaemonAlreadyRunning`.
pub data Pc : Type 0 where
  looking : (rounds : ℕ) → Pc
  reading : (rounds : ℕ) → Pc
  probing : (rounds : ℕ) (recorded : ℕ) → Pc
  removing : (rounds : ℕ) → Pc
  creating : (rounds : ℕ) → Pc
  writing : (made : ℕ) → Pc
  owning : Pc
  refused : Pc

-- What `claim` writes, and what `read_pid` makes of it.
abbrev pub line : ℕ → Text
line pid = show pid ++ b'\n' ∷ []

abbrev pub recorded_in : Text → Option ℕ
recorded_in t = parse_u32 (trim t)

-- A step of the process with the id `pid`. `alive` is the answer of `is_process_alive`.
pub data Move (alive : ℕ → Bool) (pid : ℕ) (d : Disk) : Pc → Disk → Pc → Type 0 where
  finds_none : {k : ℕ} → d.file ≡ none → Move alive pid d (looking (suc k)) d (creating k)
  finds_one : {k n : ℕ} → d.file ≡ some n → Move alive pid d (looking (suc k)) d (reading k)
  gives_up : Move alive pid d (looking zero) d refused
  reads_gone : {k : ℕ} → d.file ≡ none → Move alive pid d (reading k) d (removing k)
  reads_garbage :
      {k n : ℕ}
      → d.file ≡ some n
      → recorded_in (d.content n) ≡ none
      → Move alive pid d (reading k) d (removing k)
  reads_pid :
      {k n p : ℕ}
      → d.file ≡ some n
      → recorded_in (d.content n) ≡ some p
      → Move alive pid d (reading k) d (probing k p)
  finds_dead : {k p : ℕ} → alive p ≡ false → Move alive pid d (probing k p) d (removing k)
  finds_alive : {k p : ℕ} → alive p ≡ true → Move alive pid d (probing k p) d refused
  removes : {k : ℕ} → Move alive pid d (removing k) (record d { file = none }) (creating k)
  creates :
      {k : ℕ}
      → d.file ≡ none
      → Move alive pid d
          (creating k)
          (record { file = some d.next; content = update d.content d.next []; next = suc d.next })
          (writing d.next)
  collides : {k n : ℕ} → d.file ≡ some n → Move alive pid d (creating k) d (looking k)
  writes :
      {n : ℕ}
      → Move alive pid d
          (writing n)
          (record d { content = update d.content n (d.content n ++ line pid) })
          owning

-- The steps of several processes; `pid` gives the process ids.
abbrev pub Moves : (ℕ → Bool) → (ℕ → ℕ) → ℕ → Disk → Pc → Disk → Pc → Type 0
Moves alive pid i = Move alive (pid i)

abbrev pub Claimants : Type 0
Claimants = System Disk Pc

abbrev pub Reaches : (ℕ → Bool) → (ℕ → ℕ) → Claimants → Claimants → Type 0
Reaches alive pid = Reach (Moves alive pid)

-- Every process is about to begin.
abbrev pub fresh : Disk → Claimants
fresh d = record { shared = d; pc = λ i. looking 3 }
