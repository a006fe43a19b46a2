-- ===== src/Pfsense.antt =====
-- internal/modules/pfsense/pfsense.go: the types of the pfSense operations and their interface.
pub mod NetMatch
pub mod Stub
pub mod Freebsd
use pfsense_agent.Base.{String, Bool, Option, List, Unit0, Io}
use pfsense_agent.IsoConfig.{VirtualNetworkCard}

pub record FirewallRule : Type 0 where
  pub tracker : String
  pub interface : String
  pub action : String
  pub protocol : String
  pub source : String
  pub source_port : String
  pub destination : String
  pub dest_port : String
  pub description : String
  pub disabled : Bool

pub record FirewallRuleInput : Type 0 where
  pub interface : String
  pub action : String
  pub protocol : String
  pub source : String
  pub source_port : String
  pub destination : String
  pub dest_port : String
  pub description : String

pub record PortForward : Type 0 where
  pub tracker : String
  pub interface : String
  pub protocol : String
  pub source : String
  pub source_port : String
  pub destination : String
  pub dest_port : String
  pub target_ip : String
  pub target_port : String
  pub description : String
  pub disabled : Bool

pub record PortForwardInput : Type 0 where
  pub interface : String
  pub protocol : String
  pub source : String
  pub source_port : String
  pub destination : String
  pub dest_port : String
  pub target_ip : String
  pub target_port : String
  pub description : String

pub record DhcpLease : Type 0 where
  pub ip : String
  pub mac : String
  pub hostname : String
  pub description : String
  pub interface : String
  pub type : String
  pub state : String
  pub online : String
  pub starts : String
  pub ends : String

pub record SetPasswordResult : Type 0 where
  pub username : String
  pub success : Bool
  pub message : String

pub record InterfaceApplyResult : Type 0 where
  pub mac_addr : String
  pub if_name : String
  pub logical : String
  pub applied : Bool
  pub assigned : Bool
  pub message : String

-- The snapshot is the text that the snapshot script printed; `none` is the nil that is returned when
-- nothing was changed.
pub record BootNetworkResult : Type 0 where
  pub snapshot : Option String
  pub interfaces : List InterfaceApplyResult

-- `none` as the result of `apply_boot_network_config` is Go's `(nil, nil)`.
pub record Manager (W : Type 0) : Type 0 where
  pub set_password : String → String → Io W SetPasswordResult
  pub set_default_user_password : String → Io W SetPasswordResult
  pub apply_boot_network_config : List VirtualNetworkCard → Io W (Option BootNetworkResult)
  pub revert : Option String → Io W Unit0
  pub list_firewall_rules : Io W (List FirewallRule)
  pub create_firewall_rule : FirewallRuleInput → Io W FirewallRule
  pub delete_firewall_rule : String → Io W Unit0
  pub list_port_forwards : Io W (List PortForward)
  pub create_port_forward : PortForwardInput → Io W PortForward
  pub delete_port_forward : String → Io W Unit0
  pub list_dhcp_leases : Io W (List DhcpLease)
