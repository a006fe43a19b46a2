-- ===== src/Base/Text.antt =====
-- The parts of Go's `strings` and `bytes` packages that the agent walks texts with. A text is walked
-- by its code points, and letters are those of ASCII: the source applies these functions to MAC
-- addresses, device names, JSON keys and the output of tools.
pub mod Split
pub mod Parts
use Prim.Native.Nat.{ℕ, zero, suc, ◌-◌, ◌%◌, ◌/◌}
use Prim.Native.Char.{Char, char, code}
use Prim.Native.String.{String, [], ◌∷◌, ◌++◌}
use mathlib.Core.Bool.{Bool, true, false, ◌&&◌, ◌||◌}
use mathlib.Core.Option.{Option, none, some}
use mathlib.Core.List.{List}
use text.Mathlib.Text.{◌==◌ as str_eq}
use pfsense_agent.Base.Tests.{leb, ◌==◌, if◌then◌else◌}

unfoldable pub is_space : Char → Bool
is_space c = code c == 32 || (leb 9 (code c) && leb (code c) 13)

unfoldable pub is_lower : Char → Bool
is_lower c = leb b'a' (code c) && leb (code c) b'z'

unfoldable pub is_upper : Char → Bool
is_upper c = leb b'A' (code c) && leb (code c) b'Z'

unfoldable pub is_digit : Char → Bool
is_digit c = leb b'0' (code c) && leb (code c) b'9'

-- The letter at a position of an alphabet.
letter : String → ℕ → Char → Char
letter [] i c = c
letter (d ∷ s) zero c = d
letter (d ∷ s) (suc i) c = letter s i c

unfoldable pub lower_char : Char → Char
unfolding is_upper letter
lower_char c = if is_upper c then letter "abcdefghijklmnopqrstuvwxyz" (code c - b'A') c else c

unfoldable pub upper_char : Char → Char
unfolding is_lower letter
upper_char c = if is_lower c then letter "ABCDEFGHIJKLMNOPQRSTUVWXYZ" (code c - b'a') c else c

unfoldable pub map_chars : (Char → Char) → String → String
map_chars f [] = []
map_chars f (c ∷ s) = f c ∷ map_chars f s

-- `strings.ToLower` and `strings.ToUpper`
unfoldable pub to_lower : String → String
unfolding map_chars lower_char
to_lower s = map_chars lower_char s

unfoldable pub to_upper : String → String
unfolding map_chars upper_char
to_upper s = map_chars upper_char s

-- `strings.TrimSpace` and `strings.Trim` with one character: what is dropped at the front, and then
-- at the end.
module _ (drop : Char → Bool) where
  unfoldable pub trim_left : String → String
  trim_left [] = []
  trim_left (c ∷ s) = if drop c then trim_left s else c ∷ s

  unfoldable pub trim_right : String → String
  trim_right [] = []
  trim_right (c ∷ s) = elim (trim_right s) [
    | [] ↦ if drop c then [] else c ∷ []
    | d ∷ t ↦ c ∷ d ∷ t
  ]

unfoldable pub trim_space : String → String
unfolding is_space trim_left trim_right
trim_space s = trim_right is_space (trim_left is_space s)

unfoldable pub trim_quotes : String → String
unfolding trim_left trim_right
trim_quotes s = let quote = λ (c : Char). code c == b'"' in trim_right quote (trim_left quote s)

-- `strings.HasPrefix`, `strings.HasSuffix` and `strings.Contains`
unfoldable pub has_prefix : String → String → Bool
has_prefix s [] = true
has_prefix [] (d ∷ t) = false
has_prefix (c ∷ s) (d ∷ t) = code c == code d && has_prefix s t

unfoldable pub has_suffix : String → String → Bool
has_suffix [] t = str_eq [] t
has_suffix (c ∷ s) t = str_eq (c ∷ s) t || has_suffix s t

unfoldable pub has_infix : String → String → Bool
unfolding has_prefix
has_infix [] t = has_prefix [] t
has_infix (c ∷ s) t = has_prefix (c ∷ s) t || has_infix s t

-- `strings.TrimPrefix`: the rest behind the prefix, if it is one.
unfoldable pub after_prefix : String → String → Option String
after_prefix s [] = some s
after_prefix [] (d ∷ t) = none
after_prefix (c ∷ s) (d ∷ t) =
    let rest = after_prefix s t in if code c == code d then rest else none

unfoldable pub trim_prefix : String → String → String
unfolding after_prefix
trim_prefix s t = elim (after_prefix s t) [ none ↦ s | some rest ↦ rest ]

-- The text before the first character of a code, and `strings.Split` by that character.
unfoldable pub before_char : ℕ → String → String
before_char d [] = []
before_char d (c ∷ s) = if code c == d then [] else c ∷ before_char d s

add_to_head : Char → List String → List String
add_to_head c List.[] = List.◌∷◌ (c ∷ []) List.[]
add_to_head c (List.◌∷◌ s rest) = List.◌∷◌ (c ∷ s) rest

unfoldable pub split_char : ℕ → String → List String
unfolding add_to_head
split_char d [] = List.◌∷◌ [] List.[]
split_char d (c ∷ s) =
    if code c == d then List.◌∷◌ [] (split_char d s) else add_to_head c (split_char d s)

-- `%q` of a text whose only characters with an escape are quotes, backslashes and line feeds.
escape : Char → String
escape c =
    if code c == b'"' || code c == b'\\'
    then "\\" ++ (c ∷ [])
    else if code c == 10
    then "\\n"
    else c ∷ []

escape_all : String → String
unfolding escape
escape_all [] = []
escape_all (c ∷ s) = escape c ++ escape_all s

unfoldable pub quote : String → String
unfolding escape_all
quote s = "\"" ++ (escape_all s ++ "\"")

-- `%d`, with one step of fuel for each digit.
digits_from : ℕ → ℕ → String → String
digits_from zero n s = s
digits_from (suc fuel) n s =
    let digit = letter "0123456789" (n % 10) (char 48 tt) ∷ s in
    let rest = digits_from fuel (n / 10) digit in if leb n 9 then digit else rest

unfoldable pub decimal : ℕ → String
unfolding digits_from letter
decimal n = digits_from (suc n) n []

-- `strings.Join`
unfoldable pub join : String → List String → String
join sep List.[] = ""
join sep (List.◌∷◌ s List.[]) = s
join sep (List.◌∷◌ s (List.◌∷◌ t rest)) = s ++ (sep ++ join sep (List.◌∷◌ t rest))
