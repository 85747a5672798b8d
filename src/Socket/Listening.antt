-- ===== src/Socket/Listening.antt =====
-- Who listens on the path of the socket when several daemons start at once.
use mathlib.Core.Path.{subst}
use sockd.Common.{ℕ, ◌≡◌, ◌≢◌, refl, inl, inr, ◌⊎◌, Bool-cases, true, ◌==◌, arith}
use sockd.Common.Interleaving.{Step, by, here, later}
use sockd.Socket.Binders.{
  Found, Site, Pc, looking, inspecting, probing, opening, holding, cleaning, done, refused, failed,
  Move, finds_none, finds_some, inspects_gone, inspects_socket, inspects_other, probes_gone,
  probes_stale, probes_live, removes, removes_none, opens, collides, drops, cleans, cleans_none,
  Moves, Binders, Reaches,
}

-- A process that cannot take the path of a socket that is listened on: it holds no listener, and it
-- is not about to remove what stands there.
abbrev pub Yields : Pc → Type 0
Yields looking = Unit
Yields inspecting = Unit
Yields probing = Unit
Yields opening = Unit
Yields done = Unit
Yields refused = Unit
Yields failed = Unit
Yields _ = ⊥

-- The process `i` listens, the path leads to its socket, and all others yield.
pub record IsServing (i : ℕ) (s : Binders) : Type 0 where
  pub made : ℕ
  pub holds : s.pc i ≡ holding made
  pub at_path : s.shared.at_path ≡ Found.a_socket made
  pub live : s.shared.listened_on made ≡ true
  pub others : (j : ℕ) → j ≢ i → Yields (s.pc j)

-- A process that has dropped its listener never gets another.
abbrev pub HasDropped : Pc → Type 0
HasDropped cleaning = Unit
HasDropped done = Unit
HasDropped _ = ⊥

module _ (d : Site) (n : ℕ) (at_path : d.at_path ≡ Found.a_socket n)
    (live : d.listened_on n ≡ true) where
  -- While the path leads to a socket that is listened on, who yields goes on to yield, and changes
  -- nothing.
  Move-Yields : {p p' : Pc} {d' : Site} → Move d p d' p' → Yields p → (d' ≡ d) × Yields p'
  Move-Yields (finds_none e) safe = (refl, tt)
  Move-Yields (finds_some e) safe = (refl, tt)
  Move-Yields (inspects_gone e) safe = (refl, tt)
  Move-Yields (inspects_socket e) safe = (refl, tt)
  Move-Yields (inspects_other e) safe = (refl, tt)
  Move-Yields (probes_gone e) safe = absurd (cc (at_path, e))
  Move-Yields (probes_stale e dead) safe = absurd (ground (arith, at_path, live, e, dead))
  Move-Yields (probes_live e up) safe = (refl, tt)
  Move-Yields (removes e) safe = absurd safe
  Move-Yields (removes_none e) safe = (refl, tt)
  Move-Yields (opens e) safe = absurd (cc (at_path, e))
  Move-Yields (collides e) safe = (refl, tt)
  Move-Yields drops safe = absurd safe
  Move-Yields (cleans e) safe = absurd safe
  Move-Yields (cleans_none e) safe = absurd safe

-- A process that holds a listener can only drop it, and then it goes on to be done.
Move-holding : {n : ℕ} {d d' : Site} {p p' : Pc} → Move d p d' p' → p ≡ holding n → HasDropped p'
Move-holding drops h = tt
Move-holding _ h = absurd cc

Move-HasDropped : {d d' : Site} {p p' : Pc} → Move d p d' p' → HasDropped p → HasDropped p'
Move-HasDropped (cleans e) gone = tt
Move-HasDropped (cleans_none e) gone = tt
Move-HasDropped _ gone = absurd gone

Step-HasDropped :
    (i : ℕ) {s t : Binders} → HasDropped (s.pc i) → Step Moves s t → HasDropped (t.pc i)
Step-HasDropped i {s} {t} gone (by j p p' d at move eq) = elim (Bool-cases (j == i)) [
  | inl same ↦
      let left = Move-HasDropped move (subst HasDropped (ground (arith, same, at)) gone) in
      subst HasDropped (ground (arith, eq, same)) left
  | inr apart ↦ subst HasDropped (ground (arith, eq, apart)) gone
]

Step-IsServing :
    (i : ℕ) {s t : Binders} → IsServing i s → Step Moves s t → IsServing i t ⊎ HasDropped (t.pc i)
Step-IsServing i {s} {t} serving (by j p p' d at move eq) = elim (Bool-cases (j == i)) [
  | inl same ↦
      let left = Move-holding {n = serving.made} move (ground (arith, same, at, serving.holds)) in
      inr (subst HasDropped (ground (arith, eq, same)) left)
  | inr apart ↦
      let safe = serving.others j (ground (arith, apart)) in
      let kept =
        Move-Yields s.shared serving.made serving.at_path serving.live move
          (subst Yields at safe) in
      inl (record {
        made = serving.made;
        holds = ground (arith, eq, apart, serving.holds);
        at_path = ground (arith, eq, kept.0, serving.at_path);
        live = ground (arith, eq, kept.0, serving.live);
        others = λ k other. elim (Bool-cases (j == k)) [
          | inl moved ↦ subst Yields (ground (arith, eq, moved)) kept.1
          | inr still ↦ subst Yields (ground (arith, eq, still)) (serving.others k other)
        ];
      })
]

-- With any number of daemons in bind or in cleanup, interleaved at every call: once one of them
-- listens at the path and no other holds a listener or is about to remove what stands there, the
-- path leads to its socket and all others yield, for as long as it has not dropped its listener.
pub listener_stays :
    (i : ℕ) {s t : Binders} → IsServing i s → Reaches s t → IsServing i t ⊎ HasDropped (t.pc i)
listener_stays i serving here = inl serving
listener_stays i serving (later r st) = elim (listener_stays i serving r) [
  | inl still ↦ Step-IsServing i still st
  | inr gone ↦ inr (Step-HasDropped i gone st)
]
