-- ===== src/Client/Ending.antt =====
-- `ping` and `request` of src/client.rs return.
use mathlib.Core.Path.{subst}
use sockd.Common.{ℕ, suc, ◌+◌, ◌*◌, ◌≤◌, ◌≢◌, Option, none, some, List, arith}
use sockd.Outcome.{err, unfinished}
use sockd.Error.{Error}
use sockd.Config.{AutoStart}
use sockd.Os.{Os}
use sockd.Client.{Client, duration_max}
use sockd.Client.Waiting.{
  start_unless, wait_for_ready, recover_with, recover_if_needed, requested, request,
}
use sockd.Client.Clock.{IsTimed}
use sockd.Client.Patience.{Ready, wait_for_ready_ends}

-- The fuel is more than the ready timeout over a least backoff `b`.
abbrev pub Suffices : ℕ → ℕ → Option AutoStart → Type 0
Suffices fuel b none = Unit
Suffices fuel b (some a) =
    (b ≤ a.initial_backoff)
    × (b ≤ a.max_backoff)
    × (a.max_backoff ≤ duration_max)
    × (a.ready_timeout ≤ fuel * b)

module _ (os : Os) (clock : os.World → ℕ) (timed : IsTimed os clock) where
  wait_returns :
      (fuel b : ℕ) (c : Client) (a : AutoStart) (w : os.World)
      → Suffices fuel b (some a)
      → (wait_for_ready os (suc fuel) c a w).0 ≢ err unfinished
  wait_returns fuel b c a w enough stuck =
      let ends =
        wait_for_ready_ends os clock timed fuel c a b w enough.0 enough.1 enough.2 enough.3 in
      subst
        (λ r.
          Ready os clock c a (clock w + a.ready_timeout) r (wait_for_ready os (suc fuel) c a w).1)
        stuck ends

  recover_returns :
      (fuel b : ℕ) (c : Client) (start : Option AutoStart) (e : Error) (w : os.World)
      → Suffices fuel b start
      → (recover_with os (suc fuel) c start e w).0 ≢ err unfinished
  unfolding recover_with start_unless
  recover_returns fuel b c none e w enough = λ p. absurd (ground (arith, p))
  recover_returns fuel b c (some a) e w enough = λ p.
      let returns : (v : os.World) → (wait_for_ready os (suc fuel) c a v).0 ≢ err unfinished =
        λ v. wait_returns fuel b c a v enough in
      grind (arith, p, returns)

  -- A request does not run out of fuel, whatever is answered. The fuel is more than
  -- the ready timeout over a least backoff, where auto-start is on, and the clock is as in `IsTimed`.
  pub request_returns :
      (fuel b : ℕ) (c : Client) (payload : List ℕ) (w : os.World)
      → Suffices fuel b c.auto_start
      → (request os (suc fuel) c payload w).0 ≢ err unfinished
  unfolding request requested recover_if_needed
  request_returns fuel b c payload w enough = λ p.
      let returns : (e : Error) (v : os.World)
          → (recover_with os (suc fuel) c c.auto_start e v).0 ≢ err unfinished =
        λ e v. recover_returns fuel b c c.auto_start e v enough in
      grind (arith, p, returns)
