-- ===== src/Base/Text/Parts/Laws.antt =====
-- `strings.Cut` at a separator whose first character the front lacks.
use Prim.Native.Char.{Char, code}
use Prim.Native.String.{String, [], ◌∷◌, ◌++◌}
use mathlib.Core.Path.{◌≡◌, refl}
use mathlib.Core.Bool.{true, false}
use mathlib.Core.Option.{some}
use text.Mathlib.TextLemmas.{nil-append, cons-append}
use pfsense_agent.Base.Tests.{◌==◌, ==_iff}
use pfsense_agent.Base.Text.{after_prefix}
use pfsense_agent.Base.Text.Split.{has_char, or_false}
use pfsense_agent.Base.Text.Parts.{cut, first_cut}

pub after_own : (sep rest : String) → after_prefix (sep ++ rest) sep ≡ some rest
unfolding after_prefix
after_own [] rest = rw (nil-append rest) refl
after_own (c ∷ sep) rest =
    let same : code c == code c ≡ true = (==_iff (code c) (code c)).1 refl in
    rw (cons-append c sep rest) (rw same (after_own sep rest))

pub cut_here : (s sep rest : String) → after_prefix s sep ≡ some rest → cut s sep ≡ some ("", rest)
unfolding cut first_cut
cut_here [] sep rest e = rw e refl
cut_here (c ∷ s) sep rest e = rw e refl

-- A front without the separator's first character is what stands before the first occurrence.
pub cut-append :
    (front : String) (c : Char) (sep rest : String)
    → has_char (code c) front ≡ false
    → cut (front ++ ((c ∷ sep) ++ rest)) (c ∷ sep) ≡ some (front, rest)
unfolding cut has_char after_prefix first_cut
cut-append [] c sep rest h =
    rw (nil-append ((c ∷ sep) ++ rest))
      (cut_here ((c ∷ sep) ++ rest) (c ∷ sep) rest (after_own (c ∷ sep) rest))
cut-append (b ∷ front) c sep rest h =
    let (other, later) = or_false (code b == code c) (has_char (code c) front) h in
    rw (cons-append b front ((c ∷ sep) ++ rest))
      (rw other (rw (cut-append front c sep rest later) refl))
