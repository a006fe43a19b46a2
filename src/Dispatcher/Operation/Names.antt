-- ===== src/Dispatcher/Operation/Names.antt =====
-- The names of the operations in internal/dispatcher/dispatcher.go.
use cubical.Cubical.Foundations.Isomorphism.{iso_to_path}
use mathlib.Core.Bool.{Bool-set}
use mathlib.Core.HLevel.{Σ_prop_path}
use mathlib.Core.Option.{some-injective}
use pfsense_agent.Base.{
  String, Bool, true, false, List, [], ◌∷◌, ◌≡◌, refl, sym, ap, ◌∙◌, ◌↔◌, Option, none, some,
  str_eq, eq_iff, Bool-cases, inl, inr, arith,
}
use pfsense_agent.Dispatcher.Operation.{Operation, label, cases, find_case, switch, switch-label}

abbrev pub is_some : Option Operation → Bool
is_some none = false
is_some (some o) = true

-- A text that the switch has a case for.
abbrev pub Name : Type 0
Name = (op : String) × (is_some (switch op) ≡ true)

abbrev name_of : Operation → Name
name_of o = (label o, ap is_some (switch-label o))

find_case-label :
    (cs : List Operation) (op : String) (o : Operation) → find_case cs op ≡ some o → label o ≡ op
unfolding find_case
find_case-label [] op o e = ground arith
find_case-label (c ∷ cs) op o e = elim (Bool-cases (str_eq op (label c))) [
  | inl same ↦ rw (sym (some-injective c o (rw same at e))) (sym ((eq_iff op (label c)).0 same))
  | inr other ↦ find_case-label cs op o (rw other at e)
]

named : (r : Option Operation) → is_some r ≡ true → (o : Operation) × (r ≡ some o)
named none h = ground arith
named (some o) h = (o, refl)

operation_of : Name → Operation
unfolding named
operation_of n = (named (switch n.0) n.1).0

right_inv : (n : Name) → name_of (operation_of n) ≡ n
unfolding operation_of switch
right_inv n =
    Σ_prop_path (λ op. Bool-set (is_some (switch op)) true)
      (find_case-label cases n.0 (operation_of n) (named (switch n.0) n.1).1)

left_inv : (o : Operation) → operation_of (name_of o) ≡ o
unfolding operation_of
left_inv o =
    some-injective (operation_of (name_of o)) o
      (sym (named (switch (label o)) (name_of o).1).1 ∙ switch-label o)

-- The operations are the names that the switch knows: they are the same type, and a name reaches a case
-- exactly if it is the label of that case.
pub Operation-Name :
    (Path (Type 0) Operation Name)
    × ((op : String) (o : Operation) → (switch op ≡ some o) ↔ (label o ≡ op))
unfolding switch
Operation-Name = (
  iso_to_path
      (record { fun = name_of; inv = operation_of; right_inv = right_inv; left_inv = left_inv }),
  λ op o. (find_case-label cases op o, λ e. rw (sym e) (switch-label o)),
)
