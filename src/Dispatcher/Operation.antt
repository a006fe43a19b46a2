-- ===== src/Dispatcher/Operation.antt =====
-- The labels of the switch in `run` of internal/dispatcher/dispatcher.go.
pub mod Names
use pfsense_agent.Base.{String, ◌≡◌, refl, Option, none, some, List, [], ◌∷◌, str_eq, if◌then◌else◌}
use pfsense_agent.Services.{ServiceAction, start, stop, restart, enable, disable, reload}

pub data Operation : Type 0 where
  system_info system_metrics system_cpu system_memory system_disk system_network : Operation
  services_list services_get : Operation
  services_action : ServiceAction → Operation
  disk_resize vm_reboot vm_shutdown system_update : Operation
  agent_allowed_operations agent_version telemetry_set_interval : Operation
  pfsense_set_password : Operation
  firewall_list firewall_create firewall_delete : Operation
  nat_list nat_create nat_delete : Operation
  dhcp_leases exec : Operation

abbrev pub label : Operation → String
label system_info = "system.info"
label system_metrics = "system.metrics"
label system_cpu = "system.cpu"
label system_memory = "system.memory"
label system_disk = "system.disk"
label system_network = "system.network"
label services_list = "services.list"
label services_get = "services.get"
label (services_action start) = "services.start"
label (services_action stop) = "services.stop"
label (services_action restart) = "services.restart"
label (services_action reload) = "services.reload"
label (services_action enable) = "services.enable"
label (services_action disable) = "services.disable"
label disk_resize = "disk.resize"
label vm_reboot = "vm.reboot"
label vm_shutdown = "vm.shutdown"
label system_update = "system.update"
label agent_allowed_operations = "agent.allowed_operations"
label agent_version = "agent.version"
label telemetry_set_interval = "telemetry.set_interval"
label pfsense_set_password = "pfsense.set_password"
label firewall_list = "pfsense.firewall.list"
label firewall_create = "pfsense.firewall.create"
label firewall_delete = "pfsense.firewall.delete"
label nat_list = "pfsense.nat.list"
label nat_create = "pfsense.nat.create"
label nat_delete = "pfsense.nat.delete"
label dhcp_leases = "pfsense.dhcp.leases"
label exec = "exec"

-- The cases in their order.
abbrev pub cases : List Operation
cases =
    system_info
    ∷ system_metrics
    ∷ system_cpu
    ∷ system_memory
    ∷ system_disk
    ∷ system_network
    ∷ services_list
    ∷ services_get
    ∷ services_action start
    ∷ services_action stop
    ∷ services_action restart
    ∷ services_action reload
    ∷ services_action enable
    ∷ services_action disable
    ∷ disk_resize
    ∷ vm_reboot
    ∷ vm_shutdown
    ∷ system_update
    ∷ agent_allowed_operations
    ∷ agent_version
    ∷ telemetry_set_interval
    ∷ pfsense_set_password
    ∷ firewall_list
    ∷ firewall_create
    ∷ firewall_delete
    ∷ nat_list
    ∷ nat_create
    ∷ nat_delete
    ∷ dhcp_leases
    ∷ exec
    ∷ []

unfoldable pub find_case : List Operation → String → Option Operation
find_case [] op = none
find_case (c ∷ cs) op = if str_eq op (label c) then some c else find_case cs op

-- The switch: the case of an operation's name, `none` for `default`.
unfoldable pub switch : String → Option Operation
unfolding find_case
switch op = find_case cases op

-- No two labels are the same: the name of each operation reaches its own case.
pub switch-label : (o : Operation) → switch (label o) ≡ some o
unfolding switch
switch-label (services_action start) = refl
switch-label (services_action stop) = refl
switch-label (services_action restart) = refl
switch-label (services_action enable) = refl
switch-label (services_action disable) = refl
switch-label (services_action reload) = refl
switch-label system_info = refl
switch-label _ = refl
