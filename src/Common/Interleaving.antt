-- ===== src/Common/Interleaving.antt =====
-- Several processes that take their steps in any order, over what they share.
use mathlib.Core.Path.{subst}
use sockd.Common.{ℕ, ◌≡◌, ◌≢◌, refl, sym, arith, ◌==◌, if◌then◌else◌}

-- What is shared, and where each process stands.
pub record System (D P : Type 0) : Type 0 where
  pub shared : D
  pub pc : ℕ → P

abbrev pub update {ℓ} : {A : Type ℓ} → (ℕ → A) → ℕ → A → ℕ → A
update f i a j = if i == j then a else f j

-- The process `i` moves: the next state.
abbrev pub moved : {D P : Type 0} → System D P → ℕ → D → P → System D P
moved s i d p' = record { shared = d; pc = update s.pc i p' }

module _ {D P : Type 0} (s : System D P) (i : ℕ) (d : D) (p : P) where
  pub moved_same : (moved s i d p).pc i ≡ p
  moved_same = ground arith

  pub moved_other : (j : ℕ) → j ≢ i → (moved s i d p).pc j ≡ s.pc j
  moved_other j other = ground (arith, other)

module _ {D P : Type 0} (Moves : ℕ → D → P → D → P → Type 0) where
  -- Any process may make the next step. `Moves i` are the steps of the process `i`.
  pub data Step (s t : System D P) : Type 0 where
    by :
        (i : ℕ) (p p' : P) (d : D)
        → s.pc i ≡ p
        → Moves i s.shared p d p'
        → t ≡ moved s i d p'
        → Step s t

  pub data Reach (s : System D P) : System D P → Type 0 where
    here : Reach s s
    later : {t u : System D P} → Reach s t → Step t u → Reach s u

  pub advance :
      (i : ℕ) {s t : System D P} (p p' : P) (d : D)
      → Reach s t
      → t.pc i ≡ p
      → Moves i t.shared p d p'
      → Reach s (moved t i d p')
  advance i p p' d r at m = later r (by i p p' d at m refl)

  pub and_then : {s t u : System D P} → Reach s t → Reach t u → Reach s u
  and_then r here = r
  and_then r (later r' st) = later (and_then r r') st

-- The steps of one process, while no other makes one.
pub data Run {D P : Type 0} (Move : D → P → D → P → Type 0) : D → P → D → P → Type 0 where
  stop : {d : D} {p : P} → Run Move d p d p
  go :
      {d d' d'' : D} {p p' p'' : P} → Move d p d' p' → Run Move d' p' d'' p'' → Run Move d p d'' p''

pub from :
    {D P : Type 0} {Move : D → P → D → P → Type 0} {d d' e : D} {p q : P}
    → d ≡ d'
    → Run Move d p e q
    → Run Move d' p e q
from {Move} {e} {p} {q} = subst (λ d. Run Move d p e q)

pub to :
    {D P : Type 0} {Move : D → P → D → P → Type 0} {d e e' : D} {p q : P}
    → e ≡ e'
    → Run Move d p e q
    → Run Move d p e' q
to {Move} {d} {p} {q} = subst (λ e. Run Move d p e q)

pub Run-append :
    {D P : Type 0} {Move : D → P → D → P → Type 0} {d d' d'' : D} {p p' p'' : P}
    → Run Move d p d' p'
    → Run Move d' p' d'' p''
    → Run Move d p d'' p''
Run-append stop run' = run'
Run-append (go move run) run' = go move (Run-append run run')

-- What one process can do alone, it can do among the others.
pub Run-Reach :
    {D P : Type 0} (Moves : ℕ → D → P → D → P → Type 0) (i : ℕ) (s : System D P) {d d' : D}
    {p p' : P}
    → Run (Moves i) d p d' p'
    → s.shared ≡ d
    → s.pc i ≡ p
    → (t : System D P) × Reach Moves s t × (t.shared ≡ d') × (t.pc i ≡ p')
Run-Reach Moves i s stop shared at = (s, here, shared, at)
Run-Reach Moves i s (go {d} {d'} {p} {p'} move run) shared at =
    let move' = subst (λ x. Moves i x p d' p') (sym shared) move in
    let first = advance Moves i p p' d' here at move' in
    let (t, r, e, f) = Run-Reach Moves i (moved s i d' p') run refl (moved_same s i d' p') in
    (t, and_then Moves first r, e, f)
