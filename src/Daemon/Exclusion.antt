-- ===== src/Daemon/Exclusion.antt =====
-- What the PID file does for the socket, when several daemons run at once.
use mathlib.Core.Path.{subst}
use native.Mathlib.Decide.{ℕ_discrete}
use sockd.Common.{ℕ, ◌<◌, ◌^◌, ◌≡◌, ◌≢◌, refl, sym, ap, ◌∙◌, inl, inr, ◌⊎◌, Bool, true, some, arith}
use sockd.Common.Interleaving.{Step, by, here, later, moved, moved_same, moved_other}
use sockd.Text.Decimal.{parse_u32-trim-show}
use sockd.Pidfile.Claimants
use sockd.Pidfile.Claimants.{line, recorded_in, owning, refused}
use sockd.Pidfile.Ownership.{Yields, Move-Yields, Move-ne-owning}
use sockd.Socket.Binders
use sockd.Socket.Binders.{Found, Site, holding, opens, drops}
use sockd.Daemon.Instances.{
  Place, Pc, claiming, binding, releasing, gone, Move, claims, turned_away, starts, fails_to_start,
  binds, ends, releases, Moves, Daemons, Reaches,
}

-- While a daemon holds a listener, the path leads to its socket. Before its end it owns the PID file.
abbrev pub Holds : Pc → Site → Type 0
Holds (claiming owning) e = Unit
Holds (binding (holding n)) e = (e.at_path ≡ Found.a_socket n) × (e.listened_on n ≡ true)
Holds (binding q) e = Unit
Holds _ e = ⊥

claiming-owning : (e : Site) (p : Claimants.Pc) → Holds (claiming p) e → p ≡ owning
claiming-owning e owning h = refl
claiming-owning e _ h = absurd h

-- A daemon that drops its guard or is at its end.
abbrev pub HasEnded : Pc → Type 0
HasEnded releasing = Unit
HasEnded gone = Unit
HasEnded _ = ⊥

module _ (alive : ℕ → Bool) (pid : ℕ → ℕ) where
  -- A daemon that has not got past the PID file of the process `p`.
  abbrev pub Outside : ℕ → Pc → Type 0
  Outside p (claiming q) = Yields alive pid p q
  Outside p gone = Unit
  Outside p _ = ⊥

  -- The daemon `i` is past `claim`, the PID file names it, and no other daemon is past it.
  pub record IsInside (i : ℕ) (s : Daemons) : Type 0 where
    pub made : ℕ
    pub at_path : s.shared.disk.file ≡ some made
    pub names : s.shared.disk.content made ≡ line (pid i)
    pub holds : Holds (s.pc i) s.shared.site
    pub others : (j : ℕ) → j ≢ i → Outside (pid i) (s.pc j)

  -- Whoever is outside stays there, and touches neither the file nor the socket.
  module _ (i q : ℕ) (s : Place) (n : ℕ) (up : alive (pid i) ≡ true)
      (at_path : s.disk.file ≡ some n) (names : recorded_in (s.disk.content n) ≡ some (pid i)) where
    Move-Outside :
        {p p' : Pc} {s' : Place}
        → Move alive q s p s' p'
        → Outside (pid i) p
        → (s' ≡ s) × Outside (pid i) p'
    Move-Outside (claims move) safe =
        let kept = Move-Yields alive pid i q s.disk n up at_path names move safe in
        (ap (λ d. record s { disk = d }) kept.0, kept.1)
    Move-Outside turned_away safe = (refl, tt)
    Move-Outside starts safe = absurd safe
    Move-Outside fails_to_start safe = absurd safe
    Move-Outside (binds move) safe = absurd safe
    Move-Outside (ends over) safe = absurd safe
    Move-Outside releases safe = absurd safe

  binds-Holds :
      {d e : Site} {p q : Binders.Pc}
      → Binders.Move d p e q
      → Holds (binding p) d
      → Holds (binding q) e
  binds-Holds (opens empty) h = (refl, ground arith)
  binds-Holds _ h = tt

  -- The daemon inside changes nothing but the socket, and goes on to hold it, until it ends.
  Move-Holds :
      {q : ℕ} {s s' : Place} {p p' : Pc}
      → Move alive q s p s' p'
      → Holds p s.site
      → ((s'.disk ≡ s.disk) × Holds p' s'.site) ⊎ HasEnded p'
  Move-Holds {s} (claims {p} move) h =
      absurd (Move-ne-owning alive pid move (claiming-owning s.site p h))
  Move-Holds turned_away h = absurd h
  Move-Holds starts h = inl (refl, tt)
  Move-Holds fails_to_start h = inr tt
  Move-Holds (binds move) h = inl (refl, binds-Holds move h)
  Move-Holds (ends over) h = inr tt
  Move-Holds releases h = inr tt

  Move-HasEnded :
      {q : ℕ} {s s' : Place} {p p' : Pc} → Move alive q s p s' p' → HasEnded p → HasEnded p'
  Move-HasEnded releases over = tt
  Move-HasEnded _ over = absurd over

  Step-HasEnded :
      (i : ℕ) {s t : Daemons} → HasEnded (s.pc i) → Step (Moves alive pid) s t → HasEnded (t.pc i)
  Step-HasEnded i {s} {t} over (by j p p' d at move eq) = elim (ℕ_discrete i j) [
    | yes same ↦
        let still = Move-HasEnded move (subst HasEnded (ap (λ k. s.pc k) same ∙ at) over) in
        subst HasEnded (sym (ap (λ k. t.pc k) same ∙ ap (λ x. x.pc j) eq ∙ moved_same s j d p'))
          still
    | no apart ↦ subst HasEnded (sym (ap (λ x. x.pc i) eq ∙ moved_other s j d p' i apart)) over
  ]

  module _ (i : ℕ) (up : alive (pid i) ≡ true) (word : pid i < 2 ^ 32) where
    own_step :
        {s t : Daemons} (p p' : Pc) (d : Place)
        → IsInside i s
        → s.pc i ≡ p
        → Move alive (pid i) s.shared p d p'
        → t ≡ moved s i d p'
        → IsInside i t ⊎ HasEnded (t.pc i)
    own_step {s} {t} p p' d inside at move eq =
        let here : t.pc i ≡ p' = ap (λ x. x.pc i) eq ∙ moved_same s i d p' in
        elim (Move-Holds move (subst (λ x. Holds x s.shared.site) at inside.holds)) [
          | inr over ↦ inr (rw here over)
          | inl (kept, holds) ↦
              let disk : t.shared.disk ≡ s.shared.disk = ap (λ x. x.shared.disk) eq ∙ kept in
              inl (record {
                made = inside.made;
                at_path = rw disk inside.at_path;
                names = rw disk inside.names;
                holds = rw (here, ap (λ x. x.shared) eq) holds;
                others = λ k other.
                    rw (ap (λ x. x.pc k) eq ∙ moved_other s i d p' k other) (inside.others k other);
              })
        ]

    other_step :
        (j : ℕ) {s t : Daemons} (p p' : Pc) (d : Place)
        → j ≢ i
        → IsInside i s
        → s.pc j ≡ p
        → Move alive (pid j) s.shared p d p'
        → t ≡ moved s j d p'
        → IsInside i t
    other_step j {s} {t} p p' d apart inside at move eq =
        let recorded = ap recorded_in inside.names ∙ parse_u32-trim-show (pid i) word in
        let safe = subst (Outside (pid i)) at (inside.others j apart) in
        let kept =
          Move-Outside i (pid j) s.shared inside.made up inside.at_path recorded move safe in
        let place : t.shared ≡ s.shared = ap (λ x. x.shared) eq ∙ kept.0 in
        record {
          made = inside.made;
          at_path = rw place inside.at_path;
          names = rw place inside.names;
          holds =
              rw (ap (λ x. x.pc i) eq ∙ moved_other s j d p' i (λ e. apart (sym e)), place)
                inside.holds;
          others = λ k other. elim (ℕ_discrete k j) [
            | yes same ↦
                subst (Outside (pid i))
                  (sym (ap (λ k'. t.pc k') same ∙ ap (λ x. x.pc j) eq ∙ moved_same s j d p')) kept.1
            | no still ↦
                rw (ap (λ x. x.pc k) eq ∙ moved_other s j d p' k still) (inside.others k other)
          ];
        }

    Step-IsInside :
        {s t : Daemons}
        → IsInside i s
        → Step (Moves alive pid) s t
        → IsInside i t ⊎ HasEnded (t.pc i)
    Step-IsInside {s} {t} inside (by j p p' d at move eq) = elim (ℕ_discrete j i) [
      | yes same ↦
          own_step p p' d inside (ap (λ k. s.pc k) (sym same) ∙ at)
            (subst (λ k. Move alive (pid k) s.shared p d p') same move)
            (eq ∙ ap (λ k. moved s k d p') same)
      | no apart ↦ inl (other_step j p p' d apart inside at move eq)
    ]

    -- With any number of daemons in run, interleaved at every call: once a live daemon owns the PID
    -- file, the file names it and all others are still before their check or have been refused, then
    -- until it drops its guard no other daemon gets past claim, the file goes on to name it, and
    -- whenever it holds a listener, the path of the socket leads to that.
    pub insider_stays :
        {s t : Daemons} → IsInside i s → Reaches alive pid s t → IsInside i t ⊎ HasEnded (t.pc i)
    insider_stays inside here = inl inside
    insider_stays inside (later r st) = elim (insider_stays inside r) [
      | inl still ↦ Step-IsInside still st
      | inr over ↦ inr (Step-HasEnded i over st)
    ]
