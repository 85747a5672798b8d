-- ===== src/Socket/Rivals.antt =====
-- Two daemons that start at once where a socket was left behind by one that crashed.
use sockd.Common.{ℕ, suc, ◌≡◌, ◌≢◌, refl, sym, ◌∙◌, true, false, arith}
use sockd.Common.Interleaving.{moved, here, advance, and_then}
use sockd.Socket.Binders.{
  Found, is_there, Site, Pc, looking, inspecting, probing, removing, opening, holding, cleaning,
  done, with_socket, without_socket, finds_some, inspects_socket, probes_stale, removes, opens,
  drops, cleans, Moves, Binders, Reaches, fresh,
}

-- The process `i` gets from `s` to `p` with the path as in `d`, and the others stand still.
abbrev CanGet : Binders → ℕ → Site → Pc → Type 0
CanGet s i d p =
    (u : Binders) × Reaches s u
    × (u.shared ≡ d)
    × (u.pc i ≡ p)
    × ((j : ℕ) → j ≢ i → u.pc j ≡ s.pc j)

-- A process that has not begun finds a socket that nobody listens on.
passes_probe :
    (i n : ℕ) (s : Binders)
    → s.pc i ≡ looking
    → s.shared.at_path ≡ Found.a_socket n
    → s.shared.listened_on n ≡ false
    → CanGet s i s.shared removing
passes_probe i n s at there stale =
    let d = s.shared in
    let t₁ = moved s i d inspecting in
    let t₂ = moved t₁ i d probing in
    let present : is_there d.at_path ≡ true = rw there refl in
    let r₁ : Reaches s t₁ = advance Moves i looking inspecting d here at (finds_some present) in
    let r₂ : Reaches s t₂ =
      advance Moves i inspecting probing d r₁ (ground arith) (inspects_socket there) in
    (
      moved t₂ i d removing,
      advance Moves i probing removing d r₂ (ground arith) (probes_stale there stale),
      refl,
      ground arith,
      λ j other. ground (arith, other),
    )

-- A process that is about to remove what stands at the path does so, and listens.
takes_path :
    (i : ℕ) (s : Binders)
    → s.pc i ≡ removing
    → is_there s.shared.at_path ≡ true
    → CanGet s i (with_socket s.shared) (holding s.shared.next)
takes_path i s at present =
    let gone : Site = record s.shared { at_path = Found.nothing } in
    let t₁ = moved s i gone opening in
    let r₁ : Reaches s t₁ = advance Moves i removing opening gone here at (removes present) in
    (
      moved t₁ i (with_socket gone) (holding s.shared.next),
      advance Moves i opening (holding s.shared.next) (with_socket gone) r₁ (ground arith)
          (opens refl),
      refl,
      ground arith,
      λ j other. ground (arith, other),
    )

-- A process that holds a listener drops it and removes what stands at the path.
leaves_path :
    (i n : ℕ) (s : Binders)
    → s.pc i ≡ holding n
    → is_there s.shared.at_path ≡ true
    → CanGet s i (without_socket s.shared n) done
leaves_path i n s at present =
    let quiet : Site = record (without_socket s.shared n) { at_path = s.shared.at_path } in
    let t₁ = moved s i quiet cleaning in
    let r₁ : Reaches s t₁ = advance Moves i (holding n) cleaning quiet here at drops in
    (
      moved t₁ i (without_socket s.shared n) done,
      advance Moves i cleaning done (without_socket s.shared n) r₁ (ground arith) (cleans present),
      refl,
      ground arith,
      λ j other. ground (arith, other),
    )

-- Two processes that have both found that nobody listens each make a socket, one after the other.
both_hold :
    (i j n : ℕ) (d : Site)
    → i ≢ j
    → d.at_path ≡ Found.a_socket n
    → d.listened_on n ≡ false
    → (t : Binders) × Reaches (fresh d) t
      × (t.shared ≡ with_socket (with_socket d))
      × (t.pc i ≡ holding d.next)
      × (t.pc j ≡ holding (suc d.next))
both_hold i j n d apart there stale =
    let other : j ≢ i = λ e. apart (sym e) in
    let (s₁, r₁, e₁, i₁, o₁) = passes_probe i n (fresh d) refl there stale in
    let (s₂, r₂, e₂, j₂, o₂) = passes_probe j n s₁ (o₁ j other) (rw e₁ there) (rw e₁ stale) in
    let (s₃, r₃, e₃, i₃, o₃) = takes_path i s₂ (o₂ i apart ∙ i₁) (rw (e₂, e₁, there) refl) in
    let (s₄, r₄, e₄, j₄, o₄) = takes_path j s₃ (o₃ j other ∙ j₂) (rw e₃ refl) in
    (
      s₄,
      and_then Moves r₁ (and_then Moves r₂ (and_then Moves r₃ r₄)),
      rw (e₄, e₃, e₂, e₁) refl,
      o₄ i apart ∙ i₃ ∙ rw (e₂, e₁) refl,
      j₄ ∙ rw (e₃, e₂, e₁) refl,
    )

-- Two daemons that start where a socket was left that nobody listens on, and that have both found
-- it so, may both listen in the end: the one that is slower removes the socket of the other, and
-- the path leads to its own. When the first then ends, its cleanup removes the socket of the second,
-- which goes on to listen where no client finds it.
pub both_may_listen :
    (i j n : ℕ) (d : Site)
    → i ≢ j
    → d.at_path ≡ Found.a_socket n
    → d.listened_on n ≡ false
    → (t : Binders) × (u : Binders) × Reaches (fresh d) t
      × Reaches t u
      × (t.pc i ≡ holding d.next)
      × (t.pc j ≡ holding (suc d.next))
      × (t.shared.at_path ≡ Found.a_socket (suc d.next))
      × (t.shared.listened_on d.next ≡ true)
      × (u.pc i ≡ done)
      × (u.pc j ≡ holding (suc d.next))
      × (u.shared.at_path ≡ Found.nothing)
      × (u.shared.listened_on (suc d.next) ≡ true)
both_may_listen i j n d apart there stale =
    let (t, r, e, i_holds, j_holds) = both_hold i j n d apart there stale in
    let (u, r', e', i_done, others) = leaves_path i d.next t i_holds (rw e refl) in
    (
      t,
      u,
      r,
      r',
      i_holds,
      j_holds,
      rw e refl,
      rw e (ground arith),
      i_done,
      others j (λ e. apart (sym e)) ∙ j_holds,
      rw e' refl,
      rw (e', e) (ground arith),
    )
