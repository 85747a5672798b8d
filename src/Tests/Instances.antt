-- ===== src/Tests/Instances.antt =====
-- Several daemons at once, on a machine where the processes 10, 11, … run and no others.
use mathlib.Core.Path.{subst}
use sockd.Common.{
  ℕ, zero, suc, ◌+◌, ◌≡◌, ◌≢◌, refl, sym, inr, ◌⊎◌, Bool, false, some, arith, leb, codes,
}
use sockd.Common.Interleaving.{advance, here, moved}
use sockd.Text.{trim}
use sockd.Text.Decimal.{parse_u32}
use sockd.Pidfile.Claimants
use sockd.Pidfile.Claimants.{Disk, line, finds_one}
use sockd.Pidfile.Alone.{IsStale}
use sockd.Socket.Binders.{Found, holding, with_socket}
use sockd.Daemon.Instances.{Place, claiming, binding, claims, Moves, Daemons, Reaches, fresh}
use sockd.Daemon.Exclusion.{Outside, IsInside, HasEnded, insider_stays}
use sockd.Daemon.Arrival.{alone_comes_up}

abbrev runs : ℕ → Bool
runs p = leb 10 p

abbrev id_of : ℕ → ℕ
id_of i = 10 + i

-- What a daemon left behind that crashed with the id 7.
abbrev crashed : Place
crashed = record {
  disk = record { file = some 0; content = λ n. codes "7\n"; next = 1 };
  site = record { at_path = Found.a_socket 0; listened_on = λ n. false; next = 1 };
}

names_seven : parse_u32 (trim (codes "7\n")) ≡ some 7
unfolding trim parse_u32
names_seven = refl

alone_comes_up_example :
    (t : Daemons) × Reaches runs id_of (fresh crashed) t
    × IsInside runs id_of 0 t
    × (t.pc 0 ≡ binding (holding 1))
alone_comes_up_example =
    alone_comes_up runs id_of 0 crashed refl (omega arith)
      (inr (0, refl, subst (IsStale runs id_of) (sym names_seven) refl)) (inr (0, refl, refl))

-- Daemon 0 listens, and the others are about to begin.
abbrev place : Place
place = record {
  disk = record { file = some 0; content = λ n. line 10; next = 1 };
  site = with_socket crashed.site;
}

abbrev first : Daemons
first = record {
  shared = place;
  pc = λ i. elim i [ zero ↦ binding (holding 1) | suc j ↦ claiming (Claimants.looking 3) ];
}

others_begin : (j : ℕ) → j ≢ 0 → first.pc j ≡ claiming (Claimants.looking 3)
others_begin zero h = absurd (h refl)
others_begin (suc j) h = refl

inside : IsInside runs id_of 0 first
inside = record {
  made = 0;
  at_path = refl;
  names = refl;
  holds = (refl, refl);
  others = λ j h. subst (Outside runs id_of 10) (sym (others_begin j h)) tt;
}

abbrev second : Daemons
second = moved first 1 place (claiming (Claimants.reading 2))

insider_stays_example : IsInside runs id_of 0 second ⊎ HasEnded (second.pc 0)
insider_stays_example = insider_stays runs id_of 0 refl (omega arith) inside (
    advance (Moves runs id_of) 1 (claiming (Claimants.looking 3)) (claiming (Claimants.reading 2))
      place here refl (claims (finds_one refl)))
