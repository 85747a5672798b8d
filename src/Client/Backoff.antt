-- ===== src/Client/Backoff.antt =====
-- How long wait_for_ready of src/client.rs sleeps, and how often.
use mathlib.Core.List.{append_assoc, append-nil}
use native.Mathlib.Nat.{pow-suc}
use sockd.Common.{
  ℕ, zero, suc, ◌+◌, ◌*◌, ◌^◌, ◌≤◌, ◌<◌, ◌≡◌, refl, ap, sym, ◌∙◌, ◌⊎◌, inl, inr, arith, Bool-cases,
  ltb, min, List, [], ◌∷◌, ◌++◌,
}
use sockd.Outcome.{Result, ok, err, Exec, Halt}
use sockd.Error.{Error, Duration}
use sockd.Config.{AutoStart}
use sockd.Os.{Os}
use sockd.Client.{Client, can_attempt_recovery, next_backoff, duration_max}
use sockd.Client.Exchange.{try_ping_once}
use sockd.Client.Waiting.{ready_round, ready_loop, wait_for_ready}
use sockd.Client.Clock.{IsTimed, try_ping_once-later}
use sockd.Client.Kept.{KeepsView, try_ping_once-keeps}

-- The sleep after `k` others.
unfoldable pub nth_backoff : AutoStart → ℕ → Duration
nth_backoff a zero = a.initial_backoff
nth_backoff a (suc k) = min (a.initial_backoff * 2 ^ suc k) a.max_backoff

-- The `n` sleeps after `k` others.
unfoldable pub backoffs : AutoStart → ℕ → ℕ → List Duration
backoffs a k zero = []
backoffs a k (suc n) = nth_backoff a k ∷ backoffs a (suc k) n

unfoldable pub total : List Duration → Duration
total [] = 0
total (d ∷ ds) = d + total ds

next_backoff-nth :
    (a : AutoStart) (k : ℕ)
    → a.max_backoff ≤ duration_max
    → next_backoff a.max_backoff (nth_backoff a k) ≡ nth_backoff a (suc k)
unfolding next_backoff nth_backoff
next_backoff-nth a zero h = omega arith
next_backoff-nth a (suc k) h =
    let doubled : a.initial_backoff * 2 ^ suc (suc k) ≡ a.initial_backoff * 2 ^ suc k * 2 =
      grind (arith, pow-suc 2 (suc k)) in
    omega (arith, doubled)

nth_backoff-le :
    (a : AutoStart) (k m : ℕ) → a.initial_backoff ≤ m → a.max_backoff ≤ m → nth_backoff a k ≤ m
unfolding nth_backoff
nth_backoff-le a zero m h₁ h₂ = h₁
nth_backoff-le a (suc k) m h₁ h₂ = omega arith

-- `slept w` are the sleeps up to `w`, the first one first; the calls of a ping add nothing to them.
pub record LogsSleeps (os : Os) (slept : os.World → List Duration) : Type 0 where
  pub keeps : KeepsView os slept
  pub sleeps : (d : Duration) (w : os.World) → slept (os.sleep d w) ≡ slept w ++ d ∷ []

module _ (os : Os) (clock : os.World → ℕ) (timed : IsTimed os clock)
    (slept : os.World → List Duration) (logs : LogsSleeps os slept) (c : Client) (a : AutoStart)
    (longest : ℕ) (first : a.initial_backoff ≤ longest) (other : a.max_backoff ≤ longest) where
  -- From `w` to `w'` the loop sleeps from the `k`th backoff on, and no sleep begins at the deadline
  -- or later.
  abbrev Sleeps : ℕ → ℕ → os.World → os.World → Type 0
  Sleeps deadline k w w' =
      (n : ℕ) × (slept w' ≡ slept w ++ backoffs a k n)
      × ((total (backoffs a k n) ≡ 0) ⊎ (clock w + total (backoffs a k n) < deadline + longest))

  Sleeps-none : (deadline k : ℕ) (w : os.World) → Sleeps deadline k w w
  unfolding backoffs total
  Sleeps-none deadline k w = (0, sym (append-nil (slept w)), inl refl)

  Sleeps-once :
      (deadline k : ℕ) (w w' : os.World)
      → clock w < deadline
      → Sleeps deadline (suc k) (os.sleep (nth_backoff a k) w) w'
      → Sleeps deadline k w w'
  unfolding backoffs total
  Sleeps-once deadline k w w' early (n, log, bound) =
      let d = nth_backoff a k in
      let long = timed.sleeps d w in
      let short = nth_backoff-le a k longest first other in
      (
        suc n,
        log
            ∙ ap (λ l. l ++ backoffs a (suc k) n) (logs.sleeps d w)
            ∙ append_assoc (slept w) (d ∷ []) (backoffs a (suc k) n),
        elim bound [ inl none ↦ inr (omega arith) | inr some ↦ inr (omega arith) ],
      )

  -- What comes before adds no sleep.
  Sleeps-later :
      (deadline k : ℕ) (w w₁ w' : os.World)
      → slept w₁ ≡ slept w
      → clock w ≤ clock w₁
      → Sleeps deadline k w₁ w'
      → Sleeps deadline k w w'
  Sleeps-later deadline k w w₁ w' same later (n, log, bound) = (
    n,
    log ∙ ap (λ l. l ++ backoffs a k n) same,
    elim bound [ inl none ↦ inl none | inr some ↦ inr (omega arith) ],
  )

  ready_round-Sleeps :
      (deadline k : ℕ) (again : Exec os.World (Halt Error) (Unit {0}))
      (answer : Result (Unit {0}) Error) (w : os.World)
      → (let slept_once = os.sleep (nth_backoff a k) w in
          Sleeps deadline (suc k) slept_once (again slept_once).1)
      → Sleeps deadline k w (ready_round os c a deadline (nth_backoff a k) again answer w).1
  unfolding ready_round
  ready_round-Sleeps deadline k again (ok _) w next = Sleeps-none deadline k w
  ready_round-Sleeps deadline k again (err e) w next = elim (Bool-cases (can_attempt_recovery e)) [
    | inr final ↦ rw final (Sleeps-none deadline k w)
    | inl hopeful ↦ elim (Bool-cases (ltb (clock w) deadline)) [
      | inl early ↦
          rw (hopeful, timed.reads w)
            (rw early (Sleeps-once deadline k w _ (ground (arith, early)) next))
      | inr late ↦ rw (hopeful, timed.reads w) (rw late (Sleeps-none deadline k w))
    ]
  ]

  ready_loop-Sleeps :
      (fuel deadline k : ℕ) (w : os.World)
      → a.max_backoff ≤ duration_max
      → Sleeps deadline k w (ready_loop os fuel c a deadline (nth_backoff a k) w).1
  unfolding ready_loop
  ready_loop-Sleeps zero deadline k w h = Sleeps-none deadline k w
  ready_loop-Sleeps (suc fuel) deadline k w h =
      let pinged = try_ping_once os c w in
      let again = ready_loop os fuel c a deadline (next_backoff a.max_backoff (nth_backoff a k)) in
      let rest = ready_loop-Sleeps fuel deadline (suc k) (os.sleep (nth_backoff a k) pinged.1) h in
      Sleeps-later deadline k w pinged.1 _ (try_ping_once-keeps os slept logs.keeps c w)
        (try_ping_once-later os clock timed c w)
        (ready_round-Sleeps deadline k again pinged.0 pinged.1 (rw (next_backoff-nth a k h) rest))

  -- However `wait_for_ready` ends, what it has slept are the first `n` backoffs, for some `n`: the
  -- initial one, and then its doubles, cut at the greatest backoff. No sleep begins when the ready
  -- timeout has passed, so that they add up to no more than that timeout and one longest backoff.
  -- The clock does not go back, and a sleep lasts as long as it is told to.
  pub wait_for_ready_backs_off :
      (fuel : ℕ) (w : os.World)
      → a.max_backoff ≤ duration_max
      → (n : ℕ) × (slept (wait_for_ready os fuel c a w).1 ≡ slept w ++ backoffs a 0 n)
        × (total (backoffs a 0 n) ≤ a.ready_timeout + longest)
  unfolding wait_for_ready nth_backoff
  wait_for_ready_backs_off fuel w h =
      let (n, log, bound) = ready_loop-Sleeps fuel (clock w + a.ready_timeout) 0 w h in
      (n, rw (timed.reads w) log, elim bound [ inl none ↦ omega arith | inr some ↦ omega arith ])
