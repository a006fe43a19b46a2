-- ===== src/Publisher/Capabilities.antt =====
-- `sendCapabilities` of internal/publisher/publisher.go, and what it announces.
pub mod Laws
use pfsense_agent.Base.{
  String, ◌≡◌, refl, ◌≢◌, ap, Bool, true, false, ◌||◌, Option, none, some, List, [], ◌∷◌, ◌++◌,
  arith, str_eq, eq_iff, if◌then◌else◌, contains, All, Bool-cases, Option-cases, inl, inr, Error,
  Result, ok, Io,
}
use pfsense_agent.Protocol.{
  OperationSchema, CapabilitiesPayload, Sent, Stamp, capabilities, of_capabilities, new,
}
use pfsense_agent.Nats.{Connection, publish_event}
use pfsense_agent.Dispatcher.Operation.{Operation, label, cases, find_case, switch}
use pfsense_agent.Publisher.Catalog.{catalog, lookup}

-- The keys of the catalogue in the order in which Go's `range` happens to give them are a parameter.
abbrev pub source : List String → List String → List String
source order [] = order
source order (op ∷ ops) = op ∷ ops

-- One round of the loop: the schemas so far grow by that of a known operation.
add_schema : Option OperationSchema → List OperationSchema → List OperationSchema
add_schema none schemas = schemas
add_schema (some s) schemas = schemas ++ s ∷ []

announce_from : List String → List OperationSchema → List OperationSchema
unfolding add_schema
announce_from [] schemas = schemas
announce_from (op ∷ ops) schemas = announce_from ops (add_schema (lookup op catalog) schemas)

exec_allowed : List String → Bool
exec_allowed [] = false
exec_allowed (op ∷ ops) = exec_allowed ops || str_eq op "exec"

unfoldable pub capabilities_payload : List String → List String → List String → CapabilitiesPayload
unfolding announce_from exec_allowed
capabilities_payload order allowed_ops allowed_commands =
    let ops = source order allowed_ops in
    record {
      operations = announce_from ops [];
      exec_commands = if exec_allowed ops then allowed_commands else [];
    }

-- The payload is returned whether or not the event could be built and published.
module _ {W : Type 0} (conn : Connection W) (stamp : Stamp) (agent_uuid : String) where
  unfoldable pub publish_built : Sent × Option Error → W → W
  publish_built (env, some e) w = w
  publish_built (env, none) w = (publish_event conn agent_uuid env w).1

  unfoldable pub send_capabilities :
      List String → List String → List String → Io W CapabilitiesPayload
  unfolding publish_built
  send_capabilities order allowed_ops allowed_commands w =
      let payload = capabilities_payload order allowed_ops allowed_commands in
      (ok payload, publish_built (new stamp agent_uuid capabilities (of_capabilities payload)) w)
