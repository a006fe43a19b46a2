-- ===== src/Dispatcher/Dispatch/Depends.antt =====
-- `Dispatch` of internal/dispatcher/dispatcher.go and the set of the allowed operations.
use mathlib.Core.Bool.{Bool-set}
use mathlib.Core.Quot
use mathlib.Core.Quot.{Quot}
use pfsense_agent.Base.{String, Bool, List, ◌≡◌, contains}
use pfsense_agent.Json.{Json}
use pfsense_agent.Dispatcher.{Dispatcher}
use pfsense_agent.Dispatcher.Params.{Params}

-- Two lists of operations that allow the same ones, in whatever order and however often.
abbrev pub SameOps : List String → List String → Type 0
SameOps l m = (op : String) → contains l op ≡ contains m op

-- A policy is a list of operations up to that.
abbrev pub Policy : Type 0
Policy = Quot SameOps

pub permits : Policy → String → Bool
permits policy op = Quot.lift Bool-set (λ l. contains l op) (λ l m same. same op) policy
