-- ===== src/Config/Laws.antt =====
-- What the defaults of internal/config/config.go allow the dispatcher to run.
use pfsense_agent.Base.{◌≡◌, refl, ap, ◌∙◌, Bool, true, false, not, none, ok, contains, quote, ◌<>◌}
use pfsense_agent.Services.{start, stop, restart, enable, disable, reload}
use pfsense_agent.Protocol.{CommandPayload, Received, Stamp, rejected, decode_payload}
use pfsense_agent.Protocol.Laws.{Answers}
use pfsense_agent.Dispatcher.{Dispatcher}
use pfsense_agent.Dispatcher.Operation.{
  Operation, label, system_info, system_metrics, system_cpu, system_memory, system_disk,
  system_network, services_list, services_get, disk_resize, vm_reboot, vm_shutdown, system_update,
  agent_allowed_operations, agent_version, telemetry_set_interval, pfsense_set_password,
  firewall_list, firewall_create, firewall_delete, nat_list, nat_create, nat_delete, dhcp_leases,
  exec, services_action,
}
use pfsense_agent.Dispatcher.Dispatch.{dispatch}
use pfsense_agent.Dispatcher.Dispatch.Answers.{dispatch_unlisted}
use pfsense_agent.Config.{default_operations, defaults}

-- The operations that a configuration has to allow by name: running a command, growing a disk, and
-- all that manage pfSense.
abbrev pub is_reserved : Operation → Bool
is_reserved disk_resize = true
is_reserved pfsense_set_password = true
is_reserved firewall_list = true
is_reserved firewall_create = true
is_reserved firewall_delete = true
is_reserved nat_list = true
is_reserved nat_create = true
is_reserved nat_delete = true
is_reserved dhcp_leases = true
is_reserved exec = true
is_reserved _ = false

-- A default configuration allows the others.
pub default_operations_lem :
    (o : Operation) → contains default_operations (label o) ≡ not (is_reserved o)
unfolding contains default_operations
default_operations_lem system_info = refl
default_operations_lem system_metrics = refl
default_operations_lem system_cpu = refl
default_operations_lem system_memory = refl
default_operations_lem system_disk = refl
default_operations_lem system_network = refl
default_operations_lem services_list = refl
default_operations_lem services_get = refl
default_operations_lem (services_action start) = refl
default_operations_lem (services_action stop) = refl
default_operations_lem (services_action restart) = refl
default_operations_lem (services_action enable) = refl
default_operations_lem (services_action disable) = refl
default_operations_lem (services_action reload) = refl
default_operations_lem disk_resize = refl
default_operations_lem vm_reboot = refl
default_operations_lem vm_shutdown = refl
default_operations_lem system_update = refl
default_operations_lem agent_allowed_operations = refl
default_operations_lem agent_version = refl
default_operations_lem telemetry_set_interval = refl
default_operations_lem pfsense_set_password = refl
default_operations_lem firewall_list = refl
default_operations_lem firewall_create = refl
default_operations_lem firewall_delete = refl
default_operations_lem nat_list = refl
default_operations_lem nat_create = refl
default_operations_lem nat_delete = refl
default_operations_lem dhcp_leases = refl
default_operations_lem exec = refl

unlisted : (o : Operation) → is_reserved o ≡ true → contains default_operations (label o) ≡ false
unlisted o h = default_operations_lem o ∙ ap not h

-- With the default operations, a command that runs another command, grows a disk or manages pfSense
-- is rejected by a message that names its operation, and the modules are not touched.
pub defaults_refuse :
    {W : Type 0} (d : Dispatcher W) (stamp : Stamp) (env : Received) (w : W) (o : Operation)
    (cmd : CommandPayload)
    → d.allowed_ops ≡ defaults.agent.allowed_operations
    → decode_payload env ≡ ok cmd
    → cmd.operation ≡ label o
    → is_reserved o ≡ true
    → ((dispatch d stamp env w).1 ≡ w)
      × Answers env d.agent_uuid rejected
          ("operation " <> (quote cmd.operation <> " is not permitted on this agent"))
          none
          (dispatch d stamp env w).0.reply
unfolding defaults
defaults_refuse d stamp env w o cmd same decoded named h =
    dispatch_unlisted d stamp env w cmd decoded (rw (same, named) (unlisted o h))
