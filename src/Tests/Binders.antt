-- ===== src/Tests/Binders.antt =====
-- Several daemons in `bind` at once, where a socket was left behind.
use sockd.Common.{ℕ, zero, suc, ◌≡◌, ◌≢◌, refl, ◌⊎◌, true, false, arith, sym}
use sockd.Common.Interleaving.{moved, advance, here}
use mathlib.Core.Path.{subst}
use sockd.Socket.Binders.{
  Found, Site, looking, inspecting, holding, done, finds_some, Moves, Binders, Reaches, fresh,
  with_socket,
}
use sockd.Socket.Listening.{Yields, IsServing, HasDropped, listener_stays}
use sockd.Socket.Rivals.{both_may_listen}

-- What a daemon left behind that crashed.
abbrev left : Site
left = record { at_path = Found.a_socket 0; listened_on = λ n. false; next = 1 }

both_may_listen_example :
    (t : Binders) × (u : Binders) × Reaches (fresh left) t
    × Reaches t u
    × (t.pc 3 ≡ holding 1)
    × (t.pc 4 ≡ holding 2)
    × (t.shared.at_path ≡ Found.a_socket 2)
    × (t.shared.listened_on 1 ≡ true)
    × (u.pc 3 ≡ done)
    × (u.pc 4 ≡ holding 2)
    × (u.shared.at_path ≡ Found.nothing)
    × (u.shared.listened_on 2 ≡ true)
both_may_listen_example = both_may_listen 3 4 0 left (λ e. omega arith) refl refl

-- Process 0 listens, and the others are about to begin.
abbrev first : Binders
first = record {
  shared = with_socket left;
  pc = λ i. elim i [ zero ↦ holding 1 | suc j ↦ looking ];
}

others_begin : (j : ℕ) → j ≢ 0 → first.pc j ≡ looking
others_begin zero h = absurd (h refl)
others_begin (suc j) h = refl

serving : IsServing 0 first
serving = record {
  made = 1;
  holds = refl;
  at_path = refl;
  live = refl;
  others = λ j h. subst Yields (sym (others_begin j h)) tt;
}

abbrev second : Binders
second = moved first 1 (with_socket left) inspecting

listener_stays_example : IsServing 0 second ⊎ HasDropped (second.pc 0)
listener_stays_example =
    listener_stays 0 serving
      (advance Moves 1 looking inspecting (with_socket left) here refl (finds_some refl))
