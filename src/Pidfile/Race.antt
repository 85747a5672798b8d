-- ===== src/Pidfile/Race.antt =====
-- Two processes that claim the same PID file at once.
use sockd.Common.{ℕ, suc, ◌≡◌, ◌≢◌, refl, ap, ◌∙◌, Bool, none, some, [], ◌++◌, arith}
use sockd.Text.{trim}
use sockd.Text.Decimal.{parse_u32}
use sockd.Common.Interleaving.{update, moved, advance, here}
use sockd.Pidfile.Claimants.{
  Disk, looking, reading, removing, creating, writing, owning, line, recorded_in, finds_none,
  finds_one, reads_garbage, removes, creates, writes, fresh, Claimants, Reaches, Moves,
}

-- A file that was made and not yet written.
recorded_in-nil : recorded_in [] ≡ none
unfolding trim parse_u32
recorded_in-nil = refl

module _ (alive : ℕ → Bool) (pid : ℕ → ℕ) where
  -- Two processes that start with no PID file at all can both own it: one removes the file that the
  -- other has made and not yet written. The file then names only one of them.
  pub both_may_own :
      (i j : ℕ) (d : Disk)
      → i ≢ j
      → d.file ≡ none
      → (t : Claimants) × Reaches alive pid (fresh d) t
        × (t.pc i ≡ owning)
        × (t.pc j ≡ owning)
        × (t.shared.file ≡ some (suc d.next))
        × (t.shared.content (suc d.next) ≡ line (pid j))
  both_may_own i j d apart empty =
      let n = d.next in
      let made : Disk = record { file = some n; content = update d.content n []; next = suc n } in
      let gone : Disk = record made { file = none } in
      let again : Disk = record {
        file = some (suc n);
        content = update gone.content (suc n) [];
        next = suc (suc n);
      } in
      let named : Disk = record again {
        content = update again.content (suc n) (again.content (suc n) ++ line (pid j));
      } in
      let last : Disk = record named {
        content = update named.content n (named.content n ++ line (pid i));
      } in
      let s₀ = fresh d in
      let s₁ = moved s₀ i d (creating 2) in
      let s₂ = moved s₁ i made (writing n) in
      let s₃ = moved s₂ j made (reading 2) in
      let s₄ = moved s₃ j made (removing 2) in
      let s₅ = moved s₄ j gone (creating 2) in
      let s₆ = moved s₅ j again (writing (suc n)) in
      let s₇ = moved s₆ j named owning in
      let s₈ = moved s₇ i last owning in
      let r₁ : Reaches alive pid s₀ s₁ =
        advance (Moves alive pid) i (looking 3) (creating 2) d here refl (finds_none empty) in
      let r₂ : Reaches alive pid s₀ s₂ =
        advance (Moves alive pid) i (creating 2) (writing n) made r₁ (ground arith)
          (creates empty) in
      let r₃ : Reaches alive pid s₀ s₃ =
        advance (Moves alive pid) j (looking 3) (reading 2) made r₂ (ground arith)
          (finds_one refl) in
      let blank : made.content n ≡ [] = ground arith in
      let r₄ : Reaches alive pid s₀ s₄ =
        advance (Moves alive pid) j (reading 2) (removing 2) made r₃ (ground arith)
          (reads_garbage refl (ap recorded_in blank ∙ recorded_in-nil)) in
      let r₅ : Reaches alive pid s₀ s₅ =
        advance (Moves alive pid) j (removing 2) (creating 2) gone r₄ (ground arith) removes in
      let r₆ : Reaches alive pid s₀ s₆ =
        advance (Moves alive pid) j (creating 2) (writing (suc n)) again r₅ (ground arith)
          (creates refl) in
      let r₇ : Reaches alive pid s₀ s₇ =
        advance (Moves alive pid) j (writing (suc n)) owning named r₆ (ground arith) writes in
      let r₈ : Reaches alive pid s₀ s₈ =
        advance (Moves alive pid) i (writing n) owning last r₇ (ground arith) writes in
      (s₈, r₈, ground arith, ground arith, refl, ground arith)
