-- ===== src/Tests/Claimants.antt =====
-- Several processes in `claim`, on a machine where the processes 10, 11, … run and no others.
use mathlib.Core.Path.{subst}
use sockd.Common.{ℕ, zero, suc, sym, ◌+◌, ◌≡◌, ◌≢◌, refl, Bool, none, some, [], arith, leb}
use sockd.Common.Interleaving.{here, moved, advance}
use sockd.Pidfile.Claimants.{
  Disk, looking, reading, owning, finds_one, fresh, line, Claimants, Reaches, Moves,
}
use sockd.Pidfile.Ownership.{Yields, IsSettled, owner_stays}
use sockd.Pidfile.Race.{both_may_own}

abbrev runs : ℕ → Bool
runs p = leb 10 p

abbrev id_of : ℕ → ℕ
id_of i = 10 + i

abbrev owned : Disk
owned = record { file = some 0; content = λ n. line 10; next = 1 }

-- Process 0 owns the file, and the others are about to begin.
abbrev first : Claimants
first = record { shared = owned; pc = λ i. elim i [ zero ↦ owning | suc j ↦ looking 3 ] }

others_begin : (j : ℕ) → j ≢ 0 → first.pc j ≡ looking 3
others_begin zero h = absurd (h refl)
others_begin (suc j) h = refl

settled : IsSettled runs id_of 0 first
settled = record {
  made = 0;
  at_path = refl;
  names = refl;
  owns = refl;
  others = λ j h. subst (Yields runs id_of 10) (sym (others_begin j h)) tt;
}

abbrev second : Claimants
second = moved first 1 owned (reading 2)

owner_stays_example : IsSettled runs id_of 0 second
owner_stays_example =
    owner_stays runs id_of 0 refl (omega arith) settled
      (advance (Moves runs id_of) 1 (looking 3) (reading 2) owned here refl (finds_one refl))

abbrev nothing : Disk
nothing = record { file = none; content = λ n. []; next = 0 }

both_may_own_example :
    (t : Claimants) × Reaches runs id_of (fresh nothing) t
    × (t.pc 0 ≡ owning)
    × (t.pc 1 ≡ owning)
    × (t.shared.file ≡ some 1)
    × (t.shared.content 1 ≡ line 11)
both_may_own_example = both_may_own runs id_of 0 1 nothing (λ e. omega arith) refl
