-- ===== src/Text/Decimal.antt =====
-- `format!("{n}")`, and `str::parse` for `u32` and `u64`.
use sockd.Common.{
  ℕ, zero, suc, ◌+◌, ◌-◌, ◌*◌, ◌/◌, ◌%◌, ◌^◌, ◌≤◌, ◌<◌, ◌≡◌, refl, ◌∙◌, ◌≢◌, false, ◌&&◌, Option,
  none, some, [], ◌∷◌, ◌++◌, arith, leb, ◌==◌, if◌then◌else◌, All, Bool-cases, inl, inr,
}
use sockd.Common.Words.{u32_max, u64_max}
use sockd.Text.{Text, is_whitespace, keep_before, trim_start, trim_end, trim}

-- The least significant digit is found first. Each round divides by ten, so `n + 1` rounds suffice.
show_loop : ℕ → ℕ → Text → Text
show_loop zero n acc = acc
show_loop (suc fuel) n acc =
    let digits = (48 + n % 10) ∷ acc in
    let rest = show_loop fuel (n / 10) digits in if n / 10 == 0 then digits else rest

unfoldable pub show : ℕ → Text
unfolding show_loop
show n = show_loop (n + 1) n []

-- Every step is checked against the greatest number.
parse_digits : ℕ → ℕ → Text → Option ℕ
parse_digits max acc [] = some acc
parse_digits max acc (c ∷ cs) =
    let value = acc * 10 + (c - 48) in
    if leb 48 c && leb c 57 && leb value max then parse_digits max value cs else none

-- `str::parse`: a `+` may stand before the digits, of which there is at least one.
parse_unsigned : ℕ → Text → Option ℕ
unfolding parse_digits
parse_unsigned max [] = none
parse_unsigned max (c ∷ []) = parse_digits max 0 (c ∷ [])
parse_unsigned max (c ∷ d ∷ ds) =
    if c == b'+' then parse_digits max 0 (d ∷ ds) else parse_digits max 0 (c ∷ d ∷ ds)

unfoldable pub parse_u32 : Text → Option ℕ
unfolding parse_unsigned
parse_u32 = parse_unsigned u32_max

unfoldable pub parse_u64 : Text → Option ℕ
unfolding parse_unsigned
parse_u64 = parse_unsigned u64_max

abbrev IsDigit : ℕ → Type 0
IsDigit c = (48 ≤ c) × (c ≤ 57)

abbrev Digits : Text → Type 0
Digits = All IsDigit

show_loop-Digits : (fuel n : ℕ) (acc : Text) → Digits acc → Digits (show_loop fuel n acc)
unfolding show_loop
show_loop-Digits zero n acc h = h
show_loop-Digits (suc fuel) n acc h = elim (Bool-cases (n / 10 == 0)) [
  | inl last ↦ rw last (omega arith, h)
  | inr more ↦ rw more (show_loop-Digits fuel (n / 10) _ (omega arith, h))
]

show-Digits : (n : ℕ) → Digits (show n)
unfolding show
show-Digits n = show_loop-Digits (n + 1) n [] tt

show_loop-ne-nil : (fuel n : ℕ) (acc : Text) → n < fuel → show_loop fuel n acc ≢ []
unfolding show_loop
show_loop-ne-nil zero n acc h = elim h [ ]
show_loop-ne-nil (suc fuel) n acc h =
    ground (arith, show_loop-ne-nil fuel (n / 10) ((48 + n % 10) ∷ acc))

-- One digit more.
parse_digits-cons :
    (max n : ℕ) (acc : Text)
    → n ≤ max
    → parse_digits max (n / 10) ((48 + n % 10) ∷ acc) ≡ parse_digits max n acc
unfolding parse_digits
parse_digits-cons max n acc b =
    let e : n / 10 * 10 + (48 + n % 10 - 48) ≡ n = omega arith in rw e (ground arith)

-- Reading back what was printed leaves the digits that stand behind it.
parse_digits-show_loop :
    (max fuel n : ℕ) (acc : Text)
    → n < fuel
    → n ≤ max
    → parse_digits max 0 (show_loop fuel n acc) ≡ parse_digits max n acc
unfolding show_loop
parse_digits-show_loop max zero n acc h b = elim h [ ]
parse_digits-show_loop max (suc fuel) n acc h b = elim (Bool-cases (n / 10 == 0)) [
  | inl last ↦
      let e : n / 10 ≡ 0 = ground arith in rw last (rw e at (parse_digits-cons max n acc b))
  | inr more ↦ rw more (
      parse_digits-show_loop max fuel (n / 10) ((48 + n % 10) ∷ acc) (ground arith) (omega arith)
      ∙ parse_digits-cons max n acc b)
]

show-ne-nil : (n : ℕ) → show n ≢ []
unfolding show
show-ne-nil n = show_loop-ne-nil (n + 1) n [] (omega arith)

parse_digits-show : (max n : ℕ) → n ≤ max → parse_digits max 0 (show n) ≡ some n
unfolding show parse_digits
parse_digits-show max n h = parse_digits-show_loop max (n + 1) n [] (omega arith) h

-- Digits are no sign and no whitespace.
parse_unsigned_of_Digits :
    (max : ℕ) (t : Text) → t ≢ [] → Digits t → parse_unsigned max t ≡ parse_digits max 0 t
unfolding parse_unsigned
parse_unsigned_of_Digits max [] h d = absurd (h refl)
parse_unsigned_of_Digits max (c ∷ []) h d = refl
parse_unsigned_of_Digits max (c ∷ e ∷ es) h d = ground arith

-- A number within the bound, printed and read back.
parse_unsigned-show : (max n : ℕ) → n ≤ max → parse_unsigned max (show n) ≡ some n
parse_unsigned-show max n h =
    parse_unsigned_of_Digits max (show n) (show-ne-nil n) (show-Digits n)
    ∙ parse_digits-show max n h

pub parse_u64-show : (n : ℕ) → n < 2 ^ 64 → parse_u64 (show n) ≡ some n
unfolding parse_u64
parse_u64-show n h = parse_unsigned-show u64_max n (omega arith)

not-is_whitespace : (c : ℕ) → IsDigit c → is_whitespace c ≡ false
unfolding is_whitespace
not-is_whitespace c h = ground arith

keep_before-IsDigit : (c : ℕ) (t : Text) → IsDigit c → keep_before c t ≡ c ∷ t
unfolding keep_before
keep_before-IsDigit c [] h = rw (not-is_whitespace c h)
keep_before-IsDigit c (d ∷ ds) h = refl

trim_end-Digits : (t : Text) → Digits t → trim_end (t ++ b'\n' ∷ []) ≡ t
unfolding trim_end
trim_end-Digits [] h = refl
trim_end-Digits (c ∷ cs) (h, hs) = rw (trim_end-Digits cs hs) (keep_before-IsDigit c cs h)

trim_start-Digits : (t s : Text) → t ≢ [] → Digits t → trim_start (t ++ s) ≡ t ++ s
unfolding trim_start
trim_start-Digits [] s n h = absurd (n refl)
trim_start-Digits (c ∷ cs) s n h = rw (not-is_whitespace c h.0)

-- A number of 32 bits, printed on a line and read back.
pub parse_u32-trim-show : (n : ℕ) → n < 2 ^ 32 → parse_u32 (trim (show n ++ b'\n' ∷ [])) ≡ some n
unfolding trim parse_u32
parse_u32-trim-show n h =
    rw (trim_start-Digits (show n) _ (show-ne-nil n) (show-Digits n))
      (rw (trim_end-Digits (show n) (show-Digits n)) (parse_unsigned-show u32_max n (omega arith)))
