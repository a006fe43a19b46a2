-- ===== src/Dispatcher/Allowed.antt =====
-- `New` of internal/dispatcher/dispatcher.go, which keeps the allowed operations as a map.
pub mod Laws
use pfsense_agent.Base.{String, Bool, true, false, List, [], ◌∷◌, str_eq, if◌then◌else◌}
use pfsense_agent.Dispatcher.{Goos, Ports, Dispatcher}

-- A `map[string]bool` by what its lookup gives; a missing key gives `false`.
abbrev pub OpsMap : Type 0
OpsMap = String → Bool

abbrev pub set_op : String → OpsMap → OpsMap
set_op op ops key = if str_eq key op then true else ops key

ops_from : List String → OpsMap → OpsMap
ops_from [] ops = ops
ops_from (op ∷ rest) ops = ops_from rest (set_op op ops)

unfoldable pub ops_of : List String → OpsMap
unfolding ops_from
ops_of allowed_ops = ops_from allowed_ops (λ key. false)

-- The modules are the ports; the version and the platform are those of the build.
unfoldable pub new :
    {W : Type 0} → Ports W → Goos → String → String → List String → List String → Dispatcher W
new ports goos agent_version agent_uuid allowed_ops allowed_commands = record {
  ports = ports;
  allowed_ops = allowed_ops;
  allowed_commands = allowed_commands;
  agent_uuid = agent_uuid;
  agent_version = agent_version;
  goos = goos;
}
