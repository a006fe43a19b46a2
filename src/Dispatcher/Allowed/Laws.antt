-- ===== src/Dispatcher/Allowed/Laws.antt =====
-- The map of the allowed operations in internal/dispatcher/dispatcher.go.
use pfsense_agent.Base.{
  String, false, ◌||◌, List, [], ◌∷◌, ◌≡◌, refl, str_eq, contains, arith, Bool-cases, inl, inr,
}
use pfsense_agent.Dispatcher.Allowed.{OpsMap, set_op, ops_from, ops_of}

ops_from_lem :
    (allowed_ops : List String) (ops : OpsMap) (op : String)
    → ops_from allowed_ops ops op ≡ (contains allowed_ops op || ops op)
unfolding ops_from contains
ops_from_lem [] ops op = refl
ops_from_lem (a ∷ rest) ops op = elim (Bool-cases (str_eq op a)) [
  | inl same ↦ ground (arith, ops_from_lem rest (set_op a ops) op)
  | inr other ↦ ground (arith, ops_from_lem rest (set_op a ops) op)
]

-- The map that `New` builds allows exactly the operations of the list.
pub ops_of_lem :
    (allowed_ops : List String) (op : String) → ops_of allowed_ops op ≡ contains allowed_ops op
unfolding ops_of
ops_of_lem allowed_ops op = ground (arith, ops_from_lem allowed_ops (λ key. false) op)
