-- ===== src/Pidfile/Alone.antt =====
-- A process that claims the PID file while nobody else does.
use mathlib.Core.Path.{subst}
use sockd.Common.{
  ℕ, suc, ◌≡◌, ◌≢◌, refl, sym, inl, inr, ◌⊎◌, Bool, false, Option, none, some, [], ◌++◌, arith,
}
use sockd.Common.Interleaving.{update, moved, advance, here}
use sockd.Pidfile.Claimants.{
  Disk, Pc, looking, reading, probing, removing, creating, writing, owning, line, recorded_in,
  finds_none, finds_one, reads_garbage, reads_pid, finds_dead, removes, creates, writes, fresh,
  Claimants, Reaches, Moves,
}
use sockd.Pidfile.Ownership.{Yields, IsSettled}

module _ (alive : ℕ → Bool) (pid : ℕ → ℕ) where
  -- What a claimant may find that is no live process's file.
  abbrev pub IsStale : Option ℕ → Type 0
  IsStale none = Unit
  IsStale (some p) = alive p ≡ false

  abbrev pub IsFree : Disk → Type 0
  IsFree d = (d.file ≡ none) ⊎ ((n : ℕ) × (d.file ≡ some n) × IsStale (recorded_in (d.content n)))

  -- Nobody but `i` has begun.
  abbrev IsAlone : ℕ → Claimants → Type 0
  IsAlone i s = (j : ℕ) → j ≢ i → s.pc j ≡ looking 3

  moved-IsAlone :
      (i : ℕ) (s : Claimants) (d : Disk) (p : Pc) → IsAlone i s → IsAlone i (moved s i d p)
  moved-IsAlone i s d p alone j other = ground (arith, alone j other)

  -- From `create_new` on.
  creating_takes :
      (i k : ℕ) (s t : Claimants)
      → Reaches alive pid s t
      → t.shared.file ≡ none
      → t.pc i ≡ creating k
      → IsAlone i t
      → (u : Claimants) × Reaches alive pid s u × IsSettled alive pid i u
  creating_takes i k s t r empty at alone =
      let n = t.shared.next in
      let made : Disk = record {
        file = some n;
        content = update t.shared.content n [];
        next = suc n;
      } in
      let named : Disk = record made {
        content = update made.content n (made.content n ++ line (pid i));
      } in
      let t₁ = moved t i made (writing n) in
      let t₂ = moved t₁ i named owning in
      let r₁ : Reaches alive pid s t₁ =
        advance (Moves alive pid) i (creating k) (writing n) made r at (creates empty) in
      let r₂ : Reaches alive pid s t₂ =
        advance (Moves alive pid) i (writing n) owning named r₁ (ground arith) writes in
      (
        t₂,
        r₂,
        record {
          made = n;
          at_path = refl;
          names = ground arith;
          owns = ground arith;
          others = λ j other.
              subst (Yields alive pid (pid i))
                (sym (
                  moved-IsAlone i t₁ named owning (moved-IsAlone i t made (writing n) alone) j
                    other))
                tt;
        },
      )

  -- From the removal of the old file on.
  removing_takes :
      (i k : ℕ) (s t : Claimants)
      → Reaches alive pid s t
      → t.pc i ≡ removing k
      → IsAlone i t
      → (u : Claimants) × Reaches alive pid s u × IsSettled alive pid i u
  removing_takes i k s t r at alone =
      let gone : Disk = record t.shared { file = none } in
      let t₁ = moved t i gone (creating k) in
      let r₁ : Reaches alive pid s t₁ =
        advance (Moves alive pid) i (removing k) (creating k) gone r at removes in
      creating_takes i k s t₁ r₁ refl (ground arith) (moved-IsAlone i t gone (creating k) alone)

  reading_takes :
      (i n : ℕ) (d : Disk) (recorded : Option ℕ)
      → d.file ≡ some n
      → recorded_in (d.content n) ≡ recorded
      → IsStale recorded
      → (u : Claimants) × Reaches alive pid (fresh d) u × IsSettled alive pid i u
  reading_takes i n d none present found stale =
      let s = fresh d in
      let t₁ = moved s i d (reading 2) in
      let t₂ = moved t₁ i d (removing 2) in
      let r₁ : Reaches alive pid s t₁ =
        advance (Moves alive pid) i (looking 3) (reading 2) d here refl (finds_one present) in
      let r₂ : Reaches alive pid s t₂ =
        advance (Moves alive pid) i (reading 2) (removing 2) d r₁ (ground arith)
          (reads_garbage present found) in
      removing_takes i 2 s t₂ r₂ (ground arith) (λ j other. ground (arith, other))
  reading_takes i n d (some p) present found stale =
      let s = fresh d in
      let t₁ = moved s i d (reading 2) in
      let t₂ = moved t₁ i d (probing 2 p) in
      let t₃ = moved t₂ i d (removing 2) in
      let r₁ : Reaches alive pid s t₁ =
        advance (Moves alive pid) i (looking 3) (reading 2) d here refl (finds_one present) in
      let r₂ : Reaches alive pid s t₂ =
        advance (Moves alive pid) i (reading 2) (probing 2 p) d r₁ (ground arith)
          (reads_pid present found) in
      let r₃ : Reaches alive pid s t₃ =
        advance (Moves alive pid) i (probing 2 p) (removing 2) d r₂ (ground arith)
          (finds_dead stale) in
      removing_takes i 2 s t₃ r₃ (ground arith) (λ j other. ground (arith, other))

  -- A process that claims while nobody else has begun owns the file and is settled, if there is no
  -- file, or it holds no number, or the process that it names is dead.
  pub alone_takes :
      (i : ℕ) (d : Disk)
      → IsFree d
      → (t : Claimants) × Reaches alive pid (fresh d) t × IsSettled alive pid i t
  alone_takes i d (inl empty) =
      let s = fresh d in
      let t₁ = moved s i d (creating 2) in
      let r₁ : Reaches alive pid s t₁ =
        advance (Moves alive pid) i (looking 3) (creating 2) d here refl (finds_none empty) in
      creating_takes i 2 s t₁ r₁ empty (ground arith) (λ j other. ground (arith, other))
  alone_takes i d (inr (n, present, stale)) =
      reading_takes i n d (recorded_in (d.content n)) present refl stale
