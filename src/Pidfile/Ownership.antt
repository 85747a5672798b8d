-- ===== src/Pidfile/Ownership.antt =====
-- Who owns the PID file when several processes claim it at once.
use mathlib.Core.Path.{subst}
use sockd.Common.{
  ℕ, ◌<◌, ◌^◌, ◌≡◌, ◌≢◌, refl, ap, ◌∙◌, inl, inr, Bool-cases, Bool, true, some, ◌==◌, arith,
}
use sockd.Text.Decimal.{parse_u32-trim-show}
use sockd.Common.Interleaving.{Step, by, here, later}
use sockd.Pidfile.Claimants.{
  Disk, Pc, looking, reading, probing, owning, refused, line, recorded_in, Move, finds_none,
  finds_one, gives_up, reads_gone, reads_garbage, reads_pid, finds_dead, finds_alive, removes,
  creates, collides, writes, Claimants, Reaches, Moves,
}

module _ (alive : ℕ → Bool) (pid : ℕ → ℕ) where
  -- A process that has not begun, or that will be refused if the file names a live process `p`.
  abbrev pub Yields : ℕ → Pc → Type 0
  Yields p (looking k) = Unit
  Yields p (reading k) = Unit
  Yields p (probing k q) = q ≡ p
  Yields p refused = Unit
  Yields p _ = ⊥

  -- The process `i` owns the file, the file names it, and no other process has got past its check.
  pub record IsSettled (i : ℕ) (s : Claimants) : Type 0 where
    pub made : ℕ
    pub at_path : s.shared.file ≡ some made
    pub names : s.shared.content made ≡ line (pid i)
    pub owns : s.pc i ≡ owning
    pub others : (j : ℕ) → j ≢ i → Yields (pid i) (s.pc j)

  module _ (i q : ℕ) (d : Disk) (n : ℕ) (up : alive (pid i) ≡ true) (at_path : d.file ≡ some n)
      (names : recorded_in (d.content n) ≡ some (pid i)) where
    -- While the file names a live process, a process that yields goes on to yield, and changes no
    -- file.
    pub Move-Yields :
        {p p' : Pc} {d' : Disk}
        → Move alive q d p d' p'
        → Yields (pid i) p
        → (d' ≡ d) × Yields (pid i) p'
    Move-Yields (finds_none e) safe = absurd (cc (at_path, e))
    Move-Yields (finds_one e) safe = (refl, tt)
    Move-Yields gives_up safe = (refl, tt)
    Move-Yields (reads_gone e) safe = absurd (cc (at_path, e))
    Move-Yields (reads_garbage e g) safe = absurd (ground (arith, at_path, names, e, g))
    Move-Yields (reads_pid e g) safe = (refl, ground (arith, at_path, names, e, g))
    Move-Yields (finds_dead e) safe = absurd (ground (arith, up, safe, e))
    Move-Yields (finds_alive e) safe = (refl, tt)
    Move-Yields removes safe = absurd safe
    Move-Yields (creates e) safe = absurd safe
    Move-Yields (collides e) safe = absurd safe
    Move-Yields writes safe = absurd safe

  -- A process that owns the file makes no step.
  pub Move-ne-owning : {q : ℕ} {d d' : Disk} {p p' : Pc} → Move alive q d p d' p' → p ≢ owning
  Move-ne-owning (finds_none e) h = cc
  Move-ne-owning _ h = cc

  Step-IsSettled :
      (i : ℕ) {s t : Claimants}
      → alive (pid i) ≡ true
      → pid i < 2 ^ 32
      → IsSettled i s
      → Step (Moves alive pid) s t
      → IsSettled i t
  Step-IsSettled i {s} {t} up word settled (by j p p' d at move eq) = elim (Bool-cases (j == i)) [
    | inl same ↦ absurd (Move-ne-owning move (ground (arith, same, at, settled.owns)))
    | inr apart ↦
        let recorded = ap recorded_in settled.names ∙ parse_u32-trim-show (pid i) word in
        let safe = settled.others j (ground (arith, apart)) in
        let kept =
          Move-Yields i (pid j) s.shared settled.made up settled.at_path recorded move
            (subst (Yields (pid i)) at safe) in
        record {
          made = settled.made;
          at_path = ground (arith, eq, kept.0, settled.at_path);
          names = ground (arith, eq, kept.0, settled.names);
          owns = ground (arith, eq, apart, settled.owns);
          others = λ k other. elim (Bool-cases (j == k)) [
            | inl moved ↦ subst (Yields (pid i)) (ground (arith, eq, moved)) kept.1
            | inr still ↦
                subst (Yields (pid i)) (ground (arith, eq, still)) (settled.others k other)
          ];
        }
  ]

  -- Once a process owns the PID file, the file names it and no other process has got past its check,
  -- this stays so, whatever the other processes do: every one of them can only be refused.
  pub owner_stays :
      (i : ℕ) {s t : Claimants}
      → alive (pid i) ≡ true
      → pid i < 2 ^ 32
      → IsSettled i s
      → Reaches alive pid s t
      → IsSettled i t
  owner_stays i up word settled here = settled
  owner_stays i up word settled (later r st) =
      Step-IsSettled i up word (owner_stays i up word settled r) st
