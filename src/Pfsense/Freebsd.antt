-- ===== src/Pfsense/Freebsd.antt =====
-- internal/modules/pfsense/pfsense_freebsd.go: running pfSense's own PHP scripts, and the operations
-- that are one script each. The boot network configuration is in Pfsense/Freebsd/BootNetwork.
--
-- Parameters: os/exec (in the executor), the file system, the list of interfaces of package net, the
-- embedded scripts, and encoding/json on the texts that the scripts read and print.
pub mod Scripts
pub mod Operations
pub mod BootNetwork
use pfsense_agent.Base.{String, Option, List, Result, Error}
use pfsense_agent.Executor.{Executor}
use pfsense_agent.Pfsense.{
  FirewallRule, FirewallRuleInput, PortForward, PortForwardInput, DhcpLease,
}
use pfsense_agent.Pfsense.NetMatch.{Interface}
use pfsense_agent.Base.Int.{ℤ}
use pfsense_agent.Base.{Bool, Unit0}

-- The embedded scripts that the manager runs.
pub data Script : Type 0 where
  set_password_php set_default_password_php : Script
  snapshot_php apply_php restore_php : Script
  firewall_list_php firewall_create_php firewall_delete_php : Script
  nat_list_php nat_create_php nat_delete_php : Script
  dhcp_list_php : Script

-- The names that the scripts are written under.
abbrev pub script_name : Script → String
script_name set_password_php = "set_password.php"
script_name set_default_password_php = "set_default_password.php"
script_name snapshot_php = "snapshot.php"
script_name apply_php = "apply.php"
script_name restore_php = "restore.php"
script_name firewall_list_php = "list.php"
script_name firewall_create_php = "create.php"
script_name firewall_delete_php = "delete.php"
script_name nat_list_php = "list.php"
script_name nat_create_php = "create.php"
script_name nat_delete_php = "delete.php"
script_name dhcp_list_php = "list.php"

pub record PasswordOutput : Type 0 where
  pub status : String
  pub username : String

pub record CreateOutput : Type 0 where
  pub status : String
  pub tracker : String

pub record ListOutput (A : Type 0) : Type 0 where
  pub status : String
  pub entries : List A

pub record PlanEntry : Type 0 where
  pub if_name : String
  pub ip_addr : String
  pub subnet : String
  pub gateway : String
  pub dns : List String
  pub mtu : ℤ

pub record AppliedInterface : Type 0 where
  pub if_name : String
  pub logical : String
  pub applied : Bool
  pub assigned : Bool
  pub message : String

-- `json.Unmarshal` of what a script prints, and `json.Marshal` of what it is given.
pub record Codec : Type 0 where
  pub read_password : String → Result PasswordOutput
  pub read_created : String → Result CreateOutput
  pub read_rules : String → Result (ListOutput FirewallRule)
  pub read_forwards : String → Result (ListOutput PortForward)
  pub read_leases : String → Result (ListOutput DhcpLease)
  pub read_applied : String → Result (List AppliedInterface)
  pub read_restored : String → Result String
  pub write_rule : FirewallRuleInput → String
  pub write_forward : PortForwardInput → String
  pub write_plan : List PlanEntry → String

-- What the manager needs of the host, over the host's state.
pub record Platform (S : Type 0) : Type 0 where
  pub executor : Executor S
  pub codec : Codec
  pub script_text : Script → String
  pub make_temp_dir : S → Result String × S
  pub write_file : String → String → S → Result Unit0 × S
  pub remove_all : String → S → S
  pub interfaces : S → Result (List Interface) × S
