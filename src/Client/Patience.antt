-- ===== src/Client/Patience.antt =====
-- The waiting loops of src/client.rs come to an end.
use sockd.Common.{
  ℕ, zero, suc, ◌+◌, ◌*◌, ◌≤◌, ◌<◌, ◌≡◌, refl, ◌⊎◌, inl, inr, true, false, arith, Bool-cases, ltb,
  leb, ap,
}
use sockd.Outcome.{Result, ok, err, Exec, Result-cases, Halt, raised, unfinished}
use sockd.Error.{Error, ready_timeout, shutdown_timeout}
use sockd.Config.{AutoStart, from_millis}
use sockd.Os.{Os}
use sockd.Client.{Client, can_attempt_recovery, next_backoff, duration_max}
use sockd.Client.Exchange.{try_ping_once}
use sockd.Client.Waiting.{
  ready_round, ready_loop, wait_for_ready, socket_gone, shutdown_complete, shutdown_loop,
  wait_for_shutdown,
}
use sockd.Client.Clock.{IsTimed, try_ping_once-later, live-later}

-- No backoff gets shorter than both its predecessor and the limit.
pub next_backoff-least :
    (b max_backoff backoff : ℕ)
    → b ≤ backoff
    → b ≤ max_backoff
    → max_backoff ≤ duration_max
    → b ≤ next_backoff max_backoff backoff
unfolding next_backoff
next_backoff-least b max_backoff backoff h₁ h₂ h₃ = omega arith

module _ (os : Os) (clock : os.World → ℕ) where
  -- How waiting for the daemon may end: the last ping is answered, or it fails for good, or the
  -- deadline is past. It is never out of fuel.
  abbrev pub Ready : Client → AutoStart → ℕ → Result (Unit {0}) (Halt Error) → os.World → Type 0
  Ready c a deadline (ok _) w = (w₀ : os.World) × (try_ping_once os c w₀ ≡ (ok tt, w))
  Ready c a deadline (err (raised e)) w =
      ((w₀ : os.World) × (try_ping_once os c w₀ ≡ (err e, w)) × (can_attempt_recovery e ≡ false))
      ⊎ ((e ≡ ready_timeout c.socket_path a.ready_timeout) × (deadline ≤ clock w))
  Ready c a deadline (err unfinished) w = ⊥

  -- The same for waiting until the daemon is gone.
  abbrev pub Gone : Client → ℕ → Result (Unit {0}) (Halt Error) → os.World → Type 0
  Gone c deadline (ok _) w = (w₀ : os.World) × (shutdown_complete os c w₀ ≡ (ok true, w))
  Gone c deadline (err (raised e)) w =
      ((w₀ : os.World) × (shutdown_complete os c w₀ ≡ (err e, w)))
      ⊎ ((e ≡ shutdown_timeout c.socket_path c.shutdown_timeout) × (deadline ≤ clock w))
  Gone c deadline (err unfinished) w = ⊥

module _ (os : Os) (clock : os.World → ℕ) (timed : IsTimed os clock) where
  abbrev Loop : Type 0
  Loop = Exec os.World (Halt Error) (Unit {0})

  abbrev Waits : Client → AutoStart → ℕ → Loop → os.World → Type 0
  Waits c a deadline loop w = Ready os clock c a deadline (loop w).0 (loop w).1

  ready_round-Waits :
      (c : Client) (a : AutoStart) (deadline backoff : ℕ) (again : Loop)
      (answer : Result (Unit {0}) Error) (w₀ w : os.World)
      → try_ping_once os c w₀ ≡ (answer, w)
      → (clock w < deadline → Waits c a deadline again (os.sleep backoff w))
      → Waits c a deadline (ready_round os c a deadline backoff again answer) w
  unfolding ready_round
  ready_round-Waits c a deadline backoff again (ok _) w₀ w asked next = (w₀, asked)
  ready_round-Waits c a deadline backoff again (err e) w₀ w asked next =
      elim (Bool-cases (can_attempt_recovery e)) [
        | inr final ↦ rw final (inl (w₀, asked, final))
        | inl hopeful ↦ elim (Bool-cases (ltb (clock w) deadline)) [
          | inl early ↦ rw (hopeful, timed.reads w) (rw early (next (ground (arith, early))))
          | inr late ↦ rw (hopeful, timed.reads w) (rw late (inr (refl, ground (arith, late))))
        ]
      ]

  ready_loop-Waits :
      (fuel : ℕ) (c : Client) (a : AutoStart) (deadline b backoff : ℕ) (w : os.World)
      → b ≤ backoff
      → b ≤ a.max_backoff
      → a.max_backoff ≤ duration_max
      → deadline ≤ clock w + fuel * b
      → Waits c a deadline (ready_loop os (suc fuel) c a deadline backoff) w
  unfolding ready_loop
  ready_loop-Waits zero c a deadline b backoff w h₁ h₂ h₃ h =
      let later = try_ping_once-later os clock timed c w in
      ready_round-Waits c a deadline backoff
        (ready_loop os zero c a deadline (next_backoff a.max_backoff backoff))
        (try_ping_once os c w).0 w (try_ping_once os c w).1 refl (λ early. absurd (omega arith))
  ready_loop-Waits (suc fuel) c a deadline b backoff w h₁ h₂ h₃ h =
      let w₁ = (try_ping_once os c w).1 in
      let later = try_ping_once-later os clock timed c w in
      let slept = timed.sleeps backoff w₁ in
      let longer = next_backoff a.max_backoff backoff in
      ready_round-Waits c a deadline backoff (ready_loop os (suc fuel) c a deadline longer)
        (try_ping_once os c w).0 w w₁ refl
        (λ early.
          ready_loop-Waits fuel c a deadline b longer (os.sleep backoff w₁)
            (next_backoff-least b a.max_backoff backoff h₁ h₂ h₃) h₂ h₃ (omega arith))

  -- Waiting for the daemon ends. The fuel is more than the ready timeout over a least backoff `b`,
  -- both in nanoseconds. The clock does not go back, and a sleep lasts as long as it is told to.
  -- At the end the last ping was answered, or it failed for good, and that is the error, or the
  -- error is `ReadyTimeout` and the ready timeout has passed.
  pub wait_for_ready_ends :
      (fuel : ℕ) (c : Client) (a : AutoStart) (b : ℕ) (w : os.World)
      → b ≤ a.initial_backoff
      → b ≤ a.max_backoff
      → a.max_backoff ≤ duration_max
      → a.ready_timeout ≤ fuel * b
      → let end = wait_for_ready os (suc fuel) c a w in
        Ready os clock c a (clock w + a.ready_timeout) end.0 end.1
  unfolding wait_for_ready
  wait_for_ready_ends fuel c a b w h₁ h₂ h₃ h = rw (timed.reads w) (
      ready_loop-Waits fuel c a (clock w + a.ready_timeout) b a.initial_backoff w h₁ h₂ h₃
        (omega arith))

  shutdown_complete-later :
      (c : Client) (w : os.World) → clock w ≤ clock (shutdown_complete os c w).1
  unfolding shutdown_complete socket_gone
  shutdown_complete-later c w =
      grind (arith, timed.looks c.socket_path, live-later os clock timed c)

  abbrev Leaves : Client → ℕ → Loop → os.World → Type 0
  Leaves c deadline loop w = Gone os clock c deadline (loop w).0 (loop w).1

  -- A round of `wait_for_shutdown`, where the rest of the loop ends as it should.
  shutdown_round-Leaves :
      (fuel : ℕ) (c : Client) (deadline : ℕ) (w : os.World)
      → (let w₁ = (shutdown_complete os c w).1 in
          clock w₁ < deadline
          → Leaves c deadline (shutdown_loop os fuel c deadline) (os.sleep (from_millis 20) w₁))
      → Leaves c deadline (shutdown_loop os (suc fuel) c deadline) w
  unfolding shutdown_loop
  shutdown_round-Leaves fuel c deadline w next =
      let w₁ = (shutdown_complete os c w).1 in
      elim (Result-cases ((shutdown_complete os c w).0)) [
        | inr (e, failed) ↦ rw failed (inl (w, ap (λ r. (r, w₁)) failed))
        | inl (true, gone) ↦ rw gone (w, ap (λ r. (r, w₁)) gone)
        | inl (false, alive) ↦ elim (Bool-cases (leb deadline (clock w₁))) [
          | inl late ↦ rw (alive, timed.reads w₁) (rw late (inr (refl, ground (arith, late))))
          | inr early ↦ rw (alive, timed.reads w₁) (rw early (next (ground (arith, early))))
        ]
      ]

  shutdown_loop-Leaves :
      (fuel : ℕ) (c : Client) (deadline : ℕ) (w : os.World)
      → deadline ≤ clock w + fuel * from_millis 20
      → Leaves c deadline (shutdown_loop os (suc fuel) c deadline) w
  shutdown_loop-Leaves zero c deadline w h =
      let later = shutdown_complete-later c w in
      shutdown_round-Leaves zero c deadline w (λ early. absurd (omega arith))
  shutdown_loop-Leaves (suc fuel) c deadline w h =
      let w₁ = (shutdown_complete os c w).1 in
      let later = shutdown_complete-later c w in
      let slept = timed.sleeps (from_millis 20) w₁ in
      shutdown_round-Leaves (suc fuel) c deadline w
        (λ early. shutdown_loop-Leaves fuel c deadline (os.sleep (from_millis 20) w₁) (omega arith))

  -- Waiting for the daemon to be gone ends. The fuel is more than the shutdown timeout over the 20
  -- milliseconds of a round. The clock does not go back, and a sleep lasts as long as it is told to.
  -- At the end the socket was not there and the PID file named no live process, or looking failed,
  -- and that is the error, or the error is `ShutdownTimeout` and the timeout has passed.
  pub wait_for_shutdown_ends :
      (fuel : ℕ) (c : Client) (w : os.World)
      → c.shutdown_timeout ≤ fuel * from_millis 20
      → let end = wait_for_shutdown os (suc fuel) c w in
        Gone os clock c (clock w + c.shutdown_timeout) end.0 end.1
  unfolding wait_for_shutdown
  wait_for_shutdown_ends fuel c w h =
      rw (timed.reads w)
        (shutdown_loop-Leaves fuel c (clock w + c.shutdown_timeout) w (omega arith))
