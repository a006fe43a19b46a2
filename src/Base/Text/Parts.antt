-- ===== src/Base/Text/Parts.antt =====
-- `strings.Cut` and `strings.Fields`.
pub mod Laws
pub mod Words
use Prim.Native.Char.{Char}
use Prim.Native.String.{String, [], ◌∷◌}
use mathlib.Core.Bool.{Bool, true, false}
use mathlib.Core.Option.{Option, none, some}
use mathlib.Core.List.{List}
use pfsense_agent.Base.Tests.{if◌then◌else◌}
use pfsense_agent.Base.Text.{after_prefix, is_space, add_to_head}

abbrev in_front : Char → Option (String × String) → Option (String × String)
in_front c none = none
in_front c (some (s, t)) = some (c ∷ s, t)

-- What stands before and after a first occurrence at the front, or else one that is found further on.
first_cut : Option String → Option (String × String) → Option (String × String)
first_cut (some rest) later = some ("", rest)
first_cut none later = later

-- The texts before and after the first occurrence of a separator.
unfoldable pub cut : String → String → Option (String × String)
unfolding first_cut after_prefix
cut [] sep = first_cut (after_prefix [] sep) none
cut (c ∷ s) sep = first_cut (after_prefix (c ∷ s) sep) (in_front c (cut s sep))

-- The words from a place inside a word or between two words; inside one, the first text is the rest of
-- that word.
words_from : Bool → String → List String
unfolding is_space add_to_head
words_from true [] = List.◌∷◌ "" List.[]
words_from false [] = List.[]
words_from true (c ∷ s) =
    if is_space c then List.◌∷◌ "" (words_from false s) else add_to_head c (words_from true s)
words_from false (c ∷ s) =
    if is_space c then words_from false s else add_to_head c (words_from true s)

unfoldable pub fields : String → List String
unfolding words_from
fields s = words_from false s
