-- ===== src/Control/Format/Laws.antt =====
-- The scale that `formatBytes` of cmd/ctl/main.go finds, and the parts of `formatSeconds`.
use native.Mathlib.Nat.{mul-le-mul_left}
use pfsense_agent.Base.{
  ℕ, zero, suc, ◌+◌, ◌*◌, ◌/◌, ◌%◌, ◌^◌, ◌≤◌, ◌<◌, ◌≡◌, refl, String, ◌<>◌, Char, some, true, false,
  leb, ltb, arith, inl, inr, Bool-cases,
}
use pfsense_agent.Base.Int.{pos, mul64, div64, rem64, bits64, of_bits64}
use pfsense_agent.Control.Format.{
  Scale, scale_from, scale_of, char_at, FloatText, scaled_text, with_scale, format_bytes, elapsed,
}

-- What the loop keeps: `div` is 1024 to the power `exp + 1`, and `n` is the number in units of `div`.
IsScaled : ℕ → ℕ → Scale → Type 0
IsScaled b n s = (s.div ≡ 1024 ^ suc s.exp) × (s.div * n ≤ b) × (b < s.div * (n + 1))

wraps_not : (b n d : ℕ) → b < 2 ^ 64 → 1024 ≤ n → d * n ≤ b → d * 1024 % 2 ^ 64 ≡ d * 1024
wraps_not b n d small big h = let below : d * 1024 ≤ d * n = grind arith in omega arith

step-IsScaled :
    (b n : ℕ) (s : Scale)
    → b < 2 ^ 64
    → 1024 ≤ n
    → IsScaled b n s
    → IsScaled b (n / 1024) (record { div = s.div * 1024 % 2 ^ 64; exp = suc s.exp })
unfolding IsScaled
step-IsScaled b n s small big (e, low, high) = rw (wraps_not b n s.div small big low) (
    (
      omega arith,
      (let mono : s.div * (1024 * (n / 1024)) ≤ s.div * n = mul-le-mul_left s.div (omega arith) in
          omega arith),
      (let mono : s.div * (n + 1) ≤ s.div * (1024 * (n / 1024 + 1)) =
            mul-le-mul_left s.div (omega arith) in
          omega arith),
    ))

-- The fuel is a bound on the rounds: `n` is below 1024 to the fuel, and no round leaves it 0.
scale_from_ends :
    (b fuel n : ℕ) (s : Scale)
    → b < 2 ^ 64
    → 0 < n
    → n < 1024 ^ fuel
    → IsScaled b n s
    → (t : Scale) × (m : ℕ) × (scale_from fuel n s ≡ some t)
      × (t.exp < s.exp + fuel)
      × IsScaled b m t
      × (0 < m)
      × (m < 1024)
unfolding scale_from
scale_from_ends b zero n s small some_left enough h = absurd (omega arith)
scale_from_ends b (suc fuel) n s small some_left enough h = elim (Bool-cases (leb 1024 n)) [
  | inl more ↦ rw more (
      let (t, m, e, fewer, kept, least, most) =
        scale_from_ends b fuel (n / 1024) (record { div = s.div * 1024 % 2 ^ 64; exp = suc s.exp })
          small (ground arith) (ground arith) (step-IsScaled b n s small (ground arith) h) in
      (t, m, e, omega arith, kept, least, most))
  | inr done ↦ rw done (s, n, refl, omega arith, h, some_left, ground arith)
]

scale_of_ends :
    (b : ℕ)
    → 1024 ≤ b
    → b < 2 ^ 64
    → (t : Scale) × (scale_of b ≡ some t)
      × (t.exp ≤ 5)
      × (t.div ≡ 1024 ^ suc t.exp)
      × (t.div ≤ b)
      × (b < 1024 * t.div)
unfolding scale_of IsScaled
scale_of_ends b large small =
    let (t, m, e, fewer, (power, low, high), least, most) =
      scale_from_ends b 6 (b / 1024) (record { div = 1024; exp = 0 }) small (omega arith)
        (omega arith) (refl, omega arith, omega arith) in
    (
      t,
      e,
      omega arith,
      power,
      (let mono : t.div * 1 ≤ t.div * m = mul-le-mul_left t.div least in omega arith),
      (let mono : t.div * (m + 1) ≤ t.div * 1024 = mul-le-mul_left t.div (omega arith) in
          omega arith),
    )

unit_at : (i : ℕ) → i ≤ 5 → (unit : Char) × (char_at "KMGTPE" i ≡ some unit)
unfolding char_at
unit_at zero h = (_, refl)
unit_at (suc zero) h = (_, refl)
unit_at (suc (suc zero)) h = (_, refl)
unit_at (suc (suc (suc zero))) h = (_, refl)
unit_at (suc (suc (suc (suc zero)))) h = (_, refl)
unit_at (suc (suc (suc (suc (suc zero))))) h = (_, refl)
unit_at (suc (suc (suc (suc (suc (suc i)))))) h = absurd (omega arith)

module _ (show_float : FloatText) where
  -- From 1024 bytes up to the end of `uint64`, the loop ends, its divisor is the greatest power of
  -- 1024 that is at most the number of bytes, which has not wrapped around, and its exponent indexes
  -- one of the six unit letters: the text is the quotient with one decimal, followed by that unit.
  pub format_bytes_ends :
      (b : ℕ)
      → 1024 ≤ b
      → b < 2 ^ 64
      → (t : Scale) × (unit : Char) × (format_bytes show_float b
          ≡ some (show_float 1 (record { num = b; den = t.div }) <> (" " <> String.◌∷◌ unit "B")))
        × (char_at "KMGTPE" t.exp ≡ some unit)
        × (t.div ≡ 1024 ^ suc t.exp)
        × (t.div ≤ b)
        × (b < 1024 * t.div)
  unfolding format_bytes with_scale scaled_text
  format_bytes_ends b large small =
      let (t, e, inside, power, low, high) = scale_of_ends b large small in
      let (unit, found) = unit_at t.exp inside in
      let is_large : ltb b 1024 ≡ false = ground arith in
      (t, unit, rw is_large (rw e (rw found refl)), found, power, low, high)

-- Up to the largest number of seconds that an `int64` number of nanoseconds holds, the printed days,
-- hours and minutes are those of the given seconds: less than a minute is lost, the hours are below
-- 24 and the minutes below 60.
pub elapsed_exact :
    (s : ℕ)
    → s ≤ 9223372036
    → (days : ℕ) × (hours : ℕ) × (minutes : ℕ) × (elapsed (pos s)
        ≡ record { days = pos days; hours = pos hours; minutes = pos minutes })
      × (days * 86400 + hours * 3600 + minutes * 60 ≤ s)
      × (s < days * 86400 + hours * 3600 + (minutes + 1) * 60)
      × (hours < 24)
      × (minutes < 60)
unfolding elapsed mul64 div64 rem64 bits64 of_bits64
elapsed_exact s h =
    let same : s % 2 ^ 64 * 1000000000 % 2 ^ 64 ≡ s * 1000000000 = omega arith in
    let small : ltb (s * 1000000000) (2 ^ 63) ≡ true = ground arith in
    let exact : mul64 (pos s) 1000000000 ≡ pos (s * 1000000000) = rw same (rw small refl) in
    (
      s * 1000000000 / 3600000000000 / 24,
      s * 1000000000 / 3600000000000 % 24,
      s * 1000000000 / 60000000000 % 60,
      rw exact refl,
      omega arith,
      omega arith,
      omega arith,
      omega arith,
    )
