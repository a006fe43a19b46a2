-- ===== src/Base/Text/Split.antt =====
-- `strings.Split` by a character, on texts that are joined by it.
use Prim.Native.Nat.{ℕ}
use Prim.Native.Char.{Char, code}
use Prim.Native.String.{String, [], ◌∷◌, ◌++◌}
use mathlib.Core.Path.{◌≡◌, refl}
use mathlib.Core.Bool.{Bool, true, false, ◌||◌}
use mathlib.Core.List.{List}
use native.Mathlib.Omega.{arith}
use text.Mathlib.TextLemmas.{nil-append, cons-append}
use pfsense_agent.Base.Tests.{◌==◌, ==_iff}
use pfsense_agent.Base.Text.{split_char, add_to_head}

unfoldable pub has_char : ℕ → String → Bool
has_char d [] = false
has_char d (c ∷ s) = code c == d || has_char d s

pub or_false : (a b : Bool) → a || b ≡ false → (a ≡ false) × (b ≡ false)
or_false a b h = ground arith

module _ (d : ℕ) where
  pub split_char-whole : (s : String) → has_char d s ≡ false → split_char d s ≡ List.◌∷◌ s List.[]
  unfolding has_char split_char add_to_head
  split_char-whole [] h = refl
  split_char-whole (c ∷ s) h =
      let (other, rest) = or_false (code c == d) (has_char d s) h in
      rw other (rw (split_char-whole s rest) refl)

  pub split_char-append :
      (s : String) (c : Char) (t : String)
      → code c ≡ d
      → has_char d s ≡ false
      → split_char d (s ++ (c ∷ t)) ≡ List.◌∷◌ s (split_char d t)
  unfolding has_char split_char add_to_head
  split_char-append [] c t e h =
      let here : code c == d ≡ true = (==_iff (code c) d).1 e in
      rw (nil-append (c ∷ t)) (rw here refl)
  split_char-append (b ∷ s) c t e h =
      let (other, rest) = or_false (code b == d) (has_char d s) h in
      rw (cons-append b s (c ∷ t)) (rw other (rw (split_char-append s c t e rest) refl))
