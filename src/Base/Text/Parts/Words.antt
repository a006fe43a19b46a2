-- ===== src/Base/Text/Parts/Words.antt =====
-- `strings.Fields` on words that are joined by spaces, and `strings.Cut` at " - ".
use Prim.Native.Char.{Char}
use Prim.Native.String.{String, [], ◌∷◌, ◌++◌}
use mathlib.Core.Path.{◌≡◌, refl, ap, ◌∙◌}
use mathlib.Core.Bool.{Bool, true, false, ◌||◌}
use mathlib.Core.Option.{none, some}
use mathlib.Core.List.{List}
use native.Mathlib.Omega.{arith}
use text.Mathlib.TextLemmas.{nil-append, cons-append}
use pfsense_agent.Base.Lists.{All}
use pfsense_agent.Base.Text.{after_prefix, has_prefix, has_infix, is_space, add_to_head, join}
use pfsense_agent.Base.Text.Split.{or_false}
use pfsense_agent.Base.Text.Parts.{cut, first_cut, words_from, fields}
use pfsense_agent.Base.Text.Parts.Laws.{after_own, cut_here}

unfoldable pub has_space : String → Bool
unfolding is_space
has_space [] = false
has_space (c ∷ s) = is_space c || has_space s

-- A text that is one word.
abbrev pub IsWord : String → Type 0
IsWord [] = ⊥
IsWord (c ∷ s) = has_space (c ∷ s) ≡ false

words_from-last : (s : String) → has_space s ≡ false → words_from true s ≡ List.◌∷◌ s List.[]
unfolding words_from has_space add_to_head
words_from-last [] h = refl
words_from-last (c ∷ s) h =
    let (solid, rest) = or_false (is_space c) (has_space s) h in
    rw solid (rw (words_from-last s rest) refl)

words_from-append :
    (s t : String)
    → has_space s ≡ false
    → words_from true (s ++ (" " ++ t)) ≡ List.◌∷◌ s (words_from false t)
unfolding words_from has_space add_to_head is_space
words_from-append [] t h = rw (nil-append (" " ++ t), cons-append " " "" t, nil-append t) refl
words_from-append (c ∷ s) t h =
    let (solid, rest) = or_false (is_space c) (has_space s) h in
    rw (cons-append c s (" " ++ t)) (rw solid (rw (words_from-append s t rest) refl))

-- A word at the front starts in the same way.
starts :
    (c : Char) (s : String)
    → is_space c ≡ false
    → words_from false (c ∷ s) ≡ words_from true (c ∷ s)
unfolding words_from
starts c s h = rw h refl

starts_append :
    (c : Char) (s t : String)
    → is_space c ≡ false
    → words_from false ((c ∷ s) ++ t) ≡ words_from true ((c ∷ s) ++ t)
starts_append c s t h = rw (cons-append c s t) (starts c (s ++ t) h)

empty_fields : fields "" ≡ List.[]
unfolding fields words_from
empty_fields = refl

-- Words joined by spaces are the fields of the text.
pub fields-join : (ws : List String) → All IsWord ws → fields (join " " ws) ≡ ws
unfolding fields join has_space
fields-join List.[] h = empty_fields
fields-join (List.◌∷◌ [] ws) h = absurd h.0
fields-join (List.◌∷◌ (c ∷ s) List.[]) h =
    let (solid, rest) = or_false (is_space c) (has_space s) h.0 in
    starts c s solid ∙ words_from-last (c ∷ s) h.0
fields-join (List.◌∷◌ (c ∷ s) (List.◌∷◌ w ws)) h =
    let (solid, rest) = or_false (is_space c) (has_space s) h.0 in
    let others = join " " (List.◌∷◌ w ws) in
    starts_append c s (" " ++ others) solid
    ∙ words_from-append (c ∷ s) others h.0
    ∙ ap (λ (rest : List String). List.◌∷◌ (c ∷ s) rest) (fields-join (List.◌∷◌ w ws) h.1)

-- What the separator " - " can start at: not at the front of a text without " -" in it.
dash_not_here :
    (c : Char) (front rest : String)
    → has_prefix (c ∷ front) " -" ≡ false
    → after_prefix (c ∷ (front ++ (" - " ++ rest))) " - " ≡ none
unfolding after_prefix has_prefix
dash_not_here c [] rest h = rw (nil-append (" - " ++ rest), cons-append " " "- " rest) ground arith
dash_not_here c (b ∷ front) rest h = rw (cons-append b front (" - " ++ rest)) ground arith

pub cut-dash :
    (front rest : String)
    → has_infix front " -" ≡ false
    → cut (front ++ (" - " ++ rest)) " - " ≡ some (front, rest)
unfolding cut has_infix first_cut
cut-dash [] rest h =
    rw (nil-append (" - " ++ rest)) (cut_here (" - " ++ rest) " - " rest (after_own " - " rest))
cut-dash (c ∷ front) rest h =
    let (here, later) = or_false (has_prefix (c ∷ front) " -") (has_infix front " -") h in
    rw (cons-append c front (" - " ++ rest)) rw
      (dash_not_here c front rest here, cut-dash front rest later) refl
