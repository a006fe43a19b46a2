-- ===== src/Publisher/Catalog.antt =====
-- `operationCatalog` of internal/publisher/publisher.go.
use pfsense_agent.Base.{
  String, ◌≡◌, refl, ◌↔◌, Bool, true, false, Option, none, some, List, [], ◌∷◌, str_eq,
  if◌then◌else◌,
}
use pfsense_agent.Protocol.{OperationParam, OperationSchema}
use pfsense_agent.Services.{start, stop, restart, enable, disable, reload}
use pfsense_agent.Dispatcher.Operation.{
  Operation, services_action, firewall_list, firewall_create, firewall_delete, nat_list, nat_create,
  nat_delete, dhcp_leases, label,
}

abbrev plain_op : String → OperationSchema
plain_op name = record { operation = name; params = [] }

abbrev text_param : String → Bool → OperationParam
text_param name required = record {
  name = name;
  type = "string";
  required = required;
  min_value = none;
  sensitive = false;
}

abbrev service_op : String → OperationSchema
service_op name = record { operation = name; params = text_param "name" true ∷ [] }

abbrev pub catalog : List OperationSchema
catalog =
    plain_op "agent.allowed_operations"
    ∷ plain_op "agent.version"
    ∷ plain_op "services.list"
    ∷ service_op "services.get"
    ∷ service_op "services.start"
    ∷ service_op "services.stop"
    ∷ service_op "services.restart"
    ∷ service_op "services.reload"
    ∷ service_op "services.enable"
    ∷ service_op "services.disable"
    ∷ plain_op "system.info"
    ∷ plain_op "system.metrics"
    ∷ plain_op "system.cpu"
    ∷ plain_op "system.memory"
    ∷ plain_op "system.disk"
    ∷ plain_op "system.network"
    ∷ plain_op "system.update"
    ∷ record { operation = "disk.resize"; params = text_param "name" false ∷ [] }
    ∷ record {
      operation = "telemetry.set_interval";
      params =
          record {
            name = "interval_s";
            type = "integer";
            required = true;
            min_value = some 1;
            sensitive = false;
          }
          ∷ [];
    }
    ∷ plain_op "vm.reboot"
    ∷ plain_op "vm.shutdown"
    ∷ record {
      operation = "pfsense.set_password";
      params =
          text_param "username" true
          ∷ record {
            name = "password";
            type = "string";
            required = true;
            min_value = none;
            sensitive = true;
          }
          ∷ [];
    }
    ∷ record {
      operation = "exec";
      params =
          text_param "command" true
          ∷ record {
            name = "args";
            type = "array";
            required = false;
            min_value = none;
            sensitive = false;
          }
          ∷ [];
    }
    ∷ []

-- The lookup in the map, whose key is the schema's operation.
unfoldable pub lookup : String → List OperationSchema → Option OperationSchema
lookup op [] = none
lookup op (s ∷ ss) = if str_eq op s.operation then some s else lookup op ss

-- The operations of the switch that manage pfSense's firewall, port forwards and leases.
abbrev pub IsFirewallOperation : Operation → Type 0
IsFirewallOperation firewall_list = Unit
IsFirewallOperation firewall_create = Unit
IsFirewallOperation firewall_delete = Unit
IsFirewallOperation nat_list = Unit
IsFirewallOperation nat_create = Unit
IsFirewallOperation nat_delete = Unit
IsFirewallOperation dhcp_leases = Unit
IsFirewallOperation _ = ⊥

-- The catalogue has a schema for each operation of the dispatcher's switch but those of the firewall,
-- of port forwards and of DHCP leases, and for those it has none.
pub lookup-eq-none_iff : (o : Operation) → (lookup (label o) catalog ≡ none) ↔ IsFirewallOperation o
unfolding lookup
lookup-eq-none_iff (services_action start) = (λ e. cc, λ h. absurd h)
lookup-eq-none_iff (services_action stop) = (λ e. cc, λ h. absurd h)
lookup-eq-none_iff (services_action restart) = (λ e. cc, λ h. absurd h)
lookup-eq-none_iff (services_action enable) = (λ e. cc, λ h. absurd h)
lookup-eq-none_iff (services_action disable) = (λ e. cc, λ h. absurd h)
lookup-eq-none_iff (services_action reload) = (λ e. cc, λ h. absurd h)
lookup-eq-none_iff firewall_list = (λ e. tt, λ h. refl)
lookup-eq-none_iff firewall_create = (λ e. tt, λ h. refl)
lookup-eq-none_iff firewall_delete = (λ e. tt, λ h. refl)
lookup-eq-none_iff nat_list = (λ e. tt, λ h. refl)
lookup-eq-none_iff nat_create = (λ e. tt, λ h. refl)
lookup-eq-none_iff nat_delete = (λ e. tt, λ h. refl)
lookup-eq-none_iff dhcp_leases = (λ e. tt, λ h. refl)
lookup-eq-none_iff _ = (λ e. cc, λ h. absurd h)
