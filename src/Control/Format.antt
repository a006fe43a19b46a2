-- ===== src/Control/Format.antt =====
-- `formatBytes` and `formatSeconds` of cmd/ctl/main.go. How package fmt prints a `float64` is a
-- parameter.
pub mod Laws
use pfsense_agent.Base.{
  ℕ, zero, suc, ◌+◌, ◌*◌, ◌/◌, ◌%◌, ◌^◌, String, ◌<>◌, Char, Option, none, some, Bool, leb, ltb,
  if◌then◌else◌, decimal,
}
use pfsense_agent.Base.Int.{ℤ, pos, mul64, div64, rem64, is_positive, show_int}
use pfsense_agent.System.{Float64}

-- `div` and `exp` of the loop.
pub record Scale : Type 0 where
  pub div : ℕ
  pub exp : ℕ

-- The rounds of the loop, from its `n`: each takes a step of fuel, and `none` stands for a loop that
-- has run out of it. `div` is a `uint64`.
scale_from : ℕ → ℕ → Scale → Option Scale
scale_from zero n s = none
scale_from (suc fuel) n s =
    let rest =
      scale_from fuel (n / 1024) (record { div = s.div * 1024 % 2 ^ 64; exp = suc s.exp }) in
    if leb 1024 n then rest else some s

unfoldable pub scale_of : ℕ → Option Scale
unfolding scale_from
scale_of b = scale_from 6 (b / 1024) (record { div = 1024; exp = 0 })

-- An index into a text: out of its range, the program stops.
unfoldable pub char_at : String → ℕ → Option Char
char_at String.[] i = none
char_at (String.◌∷◌ c s) zero = some c
char_at (String.◌∷◌ c s) (suc i) = char_at s i

-- `strconv.FormatFloat` with a number of decimals, as `%.1f` and `%.2f` print it.
abbrev pub FloatText : Type 0
FloatText = ℕ → Float64 → String

module _ (show_float : FloatText) where
  scaled_text : ℕ → Scale → Option Char → Option String
  scaled_text b s none = none
  scaled_text b s (some unit) =
      some (show_float 1 (record { num = b; den = s.div }) <> (" " <> String.◌∷◌ unit "B"))

  with_scale : ℕ → Option Scale → Option String
  unfolding scaled_text char_at
  with_scale b none = none
  with_scale b (some s) = scaled_text b s (char_at "KMGTPE" s.exp)

  -- `none` stands for a run that does not return a text.
  unfoldable pub format_bytes : ℕ → Option String
  unfolding with_scale
  format_bytes b = if ltb b 1024 then some (decimal b <> " B") else with_scale b (scale_of b)

-- `days`, `hours` and `minutes`: the `float64` hours and minutes of a whole number of seconds are
-- truncated, which leaves the quotients of `int64`. A product that wraps around is a number of
-- nanoseconds, not of seconds, and then the rounding of the `float64` is not modelled.
pub record Elapsed : Type 0 where
  pub days : ℤ
  pub hours : ℤ
  pub minutes : ℤ

unfoldable pub elapsed : ℤ → Elapsed
unfolding mul64 div64 rem64
elapsed s =
    let d = mul64 s 1000000000 in
    record {
      days = div64 (div64 d 3600000000000) 24;
      hours = rem64 (div64 d 3600000000000) 24;
      minutes = rem64 (div64 d 60000000000) 60;
    }

unfoldable pub format_seconds : ℤ → String
unfolding elapsed show_int
format_seconds s =
    let e = elapsed s in
    let rest = show_int e.hours <> ("h " <> (show_int e.minutes <> "m")) in
    if is_positive e.days then show_int e.days <> ("d " <> rest) else rest
