-- ===== src/Frame/Partial/Reading.antt =====
-- Reads through a reader that gives a few bytes at a time.
use mathlib.Core.List.{append_assoc, append-nil}
use native.Mathlib.Decide.{dec_lt}
use sockd.Common.{
  ℕ, zero, suc, ◌+◌, ◌-◌, ◌*◌, ◌≤◌, ◌<◌, ◌≡◌, refl, ap, sym, ◌∙◌, false, List, ◌++◌, arith, ltb,
  leb, ◌==◌, min, length, take, drop, length-take, length-drop, take-take-drop, drop-drop,
}
use sockd.Outcome.{ok}
use sockd.Frame.Partial.{PartialReader, read, read_exact_loop}

read_exact_loop-zero :
    (fuel : ℕ) (acc : List ℕ) (r : PartialReader) → read_exact_loop fuel 0 acc r ≡ (ok acc, r)
unfolding read_exact_loop
read_exact_loop-zero zero acc r = refl
read_exact_loop-zero (suc fuel) acc r = refl

module _ (xs : List ℕ) (d : ℕ) (moves : 0 < d) where
  abbrev pub at : ℕ → PartialReader
  at o = record { content = xs; offset = o; chunk = d; panicked = false }

  abbrev pub slice : ℕ → ℕ → List ℕ
  slice o n = take n (drop o xs)

  read_chunk : (n o : ℕ) → d ≤ n → o + d ≤ length xs → read n (at o) ≡ (slice o d, at (o + d))
  unfolding read
  read_chunk n o h k =
      let inside : leb (length xs) o ≡ false = ground arith in
      let end : min (length xs) (o + d) ≡ o + d = omega arith in
      let count : o + d - o ≡ d = omega arith in
      let room : ltb n d ≡ false = ground arith in rw (inside, end, count, room) refl

  read_last :
      (n o : ℕ) → 0 < n → n ≤ d → o + n ≡ length xs → read n (at o) ≡ (slice o n, at (o + n))
  unfolding read
  read_last n o h k e =
      let inside : leb (length xs) o ≡ false = ground arith in
      let end : min (length xs) (o + d) ≡ o + n = omega arith in
      let count : o + n - o ≡ n = omega arith in
      let room : ltb n n ≡ false = ground arith in rw (inside, end, count, room) refl

  length-slice : (o n : ℕ) → o + n ≤ length xs → length (slice o n) ≡ n
  length-slice o n h = omega (arith, length-take n (drop o xs), length-drop o xs)

  slice-append :
      (acc : List ℕ) (o m n : ℕ) → (acc ++ slice o m) ++ slice (o + m) n ≡ acc ++ slice o (m + n)
  slice-append acc o m n =
      append_assoc acc (slice o m) (slice (o + m) n)
      ∙ ap (λ l. acc ++ (slice o m ++ take n l)) (sym (drop-drop o m xs))
      ∙ ap (λ l. acc ++ l) (take-take-drop m n (drop o xs))

  -- A round that reads `m` bytes.
  loop_round :
      (fuel m n o : ℕ) (acc : List ℕ)
      → 0 < m
      → m ≤ n
      → o + m ≤ length xs
      → read n (at o) ≡ (slice o m, at (o + m))
      → read_exact_loop (suc fuel) n acc (at o)
        ≡ read_exact_loop fuel (n - m) (acc ++ slice o m) (at (o + m))
  unfolding read_exact_loop
  loop_round fuel m n o acc h₁ h₂ h₃ e =
      let more : (n == 0) ≡ false = ground arith in
      let some_read : (m == 0) ≡ false = ground arith in
      rw (more, e, length-slice o m h₃, some_read) refl

  -- A read of `n` bytes at `o` is given those bytes, and does not panic.
  abbrev pub Reads : ℕ → ℕ → List ℕ → ℕ → Type 0
  Reads fuel n acc o = read_exact_loop fuel n acc (at o) ≡ (ok (acc ++ slice o n), at (o + n))

  Reads-zero : (fuel n : ℕ) (acc : List ℕ) (o : ℕ) → n ≡ 0 → Reads fuel n acc o
  Reads-zero fuel n acc o e =
      let here : o + 0 ≡ o = omega arith in
      rw (e, here, append-nil acc) (read_exact_loop-zero fuel acc (at o))

  Reads-round :
      (fuel m n o : ℕ) (acc : List ℕ)
      → 0 < m
      → m ≤ n
      → o + m ≤ length xs
      → read n (at o) ≡ (slice o m, at (o + m))
      → Reads fuel (n - m) (acc ++ slice o m) (o + m)
      → Reads (suc fuel) n acc o
  Reads-round fuel m n o acc h₁ h₂ h₃ e rest =
      let sum : m + (n - m) ≡ n = omega arith in
      let end : o + m + (n - m) ≡ o + n = omega arith in
      loop_round fuel m n o acc h₁ h₂ h₃ e ∙ rest ∙ rw (slice-append acc o m (n - m), sum, end) refl

  -- A read of whole chunks, and one that ends where the data ends.
  pub read_exact_chunks :
      (m fuel n o : ℕ) (acc : List ℕ)
      → m ≤ fuel
      → n ≡ m * d
      → o + n ≤ length xs
      → Reads fuel n acc o
  read_exact_chunks zero fuel n o acc f e h = Reads-zero fuel n acc o (omega arith)
  read_exact_chunks (suc m) zero n o acc f e h = elim f [ ]
  read_exact_chunks (suc m) (suc fuel) n o acc f e h =
      let one_more : n ≡ d + m * d = grind arith in
      Reads-round fuel d n o acc moves (omega arith) (omega arith)
        (read_chunk n o (omega arith) (omega arith))
        (read_exact_chunks m fuel (n - d) (o + d) (acc ++ slice o d) (omega arith) (omega arith)
          (omega arith))

  pub read_exact_last :
      (fuel n o : ℕ) (acc : List ℕ) → n ≤ fuel → o + n ≡ length xs → Reads fuel n acc o
  read_exact_last zero n o acc f e = Reads-zero zero n acc o (omega arith)
  read_exact_last (suc fuel) n o acc f e = elim (dec_lt d n) [
    | yes long ↦
        Reads-round fuel d n o acc moves (omega arith) (omega arith)
          (read_chunk n o (omega arith) (omega arith))
          (read_exact_last fuel (n - d) (o + d) (acc ++ slice o d) (omega arith) (omega arith))
    | no short ↦ elim (dec_lt 0 n) [
      | no nothing ↦ Reads-zero (suc fuel) n acc o (omega arith)
      | yes something ↦
          Reads-round fuel n n o acc something (omega arith) (omega arith)
            (read_last n o something (omega arith) e)
            (Reads-zero fuel (n - n) (acc ++ slice o n) (o + n) (omega arith))
    ]
  ]
