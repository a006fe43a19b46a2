-- ===== src/IsoConfig.antt =====
-- pkg/isoconfig/reader.go: the metadata of the config-drive and its accessors.
pub mod Devices
pub mod Decode
pub mod Load
pub mod Locate
use pfsense_agent.Base.{String, Bool, Option, none, some, List, [], ◌∷◌}
use pfsense_agent.Base.Int.{ℤ}
use pfsense_agent.Json.{Json}

pub record IpEntry : Type 0 where
  pub id : ℤ
  pub ip_addr : String
  pub is_reserved : Bool

pub record Network : Type 0 where
  pub name : String
  pub ip_addr : String
  pub ip_range_start : String
  pub ip_range_end : String
  pub gateway : Option String
  pub subnet : String
  pub netmask : String
  pub network_address : String
  pub dhcp_server : String
  pub dns_nameservers : List String
  pub mtu : ℤ

-- The addresses stand in a `DataList`, which only wraps them.
pub record VirtualNetworkCard : Type 0 where
  pub device_number : ℤ
  pub mac_addr : String
  pub network_name : String
  pub network : Network
  pub ip_list : List IpEntry

pub record VirtualDisk : Type 0 where
  pub disk_type : String
  pub device_number : ℤ
  pub total_disk : ℤ

pub record ServiceRole : Type 0 where
  pub name : String
  pub config : String

pub record ComputePool : Type 0 where
  pub id : String
  pub name : String
  pub pool_type : String
  pub hypervisor_type : Option String
  pub hypervisor_version : Option String

pub record CloudNode : Type 0 where
  pub id : String
  pub name : String
  pub location : Option String
  pub provider : Option String
  pub region : Option String

pub record VirtualMachineMetadata : Type 0 where
  pub hostname : String
  pub username : String
  pub password : String
  pub virtual_machine_id : String
  pub agent_api_key : String
  pub virtual_disks : List VirtualDisk
  pub virtual_network_cards : List VirtualNetworkCard
  pub service_roles : List ServiceRole
  pub compute_pool : ComputePool
  pub cloud_node : CloudNode
  pub ssh_keys : List String
  pub env_vars : List Json
  pub tokens : List Json
  pub agent : Option Json

-- `ISOMetadata` holds a pointer that may be nil, and so may the receiver: both read as `none`.
abbrev pub IsoMetadata : Type 0
IsoMetadata = Option VirtualMachineMetadata

-- `New`, and `Raw`, whose receiver may be nil.
abbrev pub new : Option VirtualMachineMetadata → IsoMetadata
new vm = vm

abbrev pub raw : IsoMetadata → Option VirtualMachineMetadata
raw m = m

unfoldable pub vmid : IsoMetadata → String
vmid none = ""
vmid (some vm) = vm.virtual_machine_id

unfoldable pub hostname : IsoMetadata → String
hostname none = ""
hostname (some vm) = vm.hostname

unfoldable pub username : IsoMetadata → String
username none = ""
username (some vm) = vm.username

unfoldable pub password : IsoMetadata → String
password none = ""
password (some vm) = vm.password

unfoldable pub api_key : IsoMetadata → String
unfolding password
api_key m = password m

unfoldable pub agent_api_key : IsoMetadata → String
agent_api_key none = ""
agent_api_key (some vm) = vm.agent_api_key

unfoldable pub agent_settings : IsoMetadata → Option Json
agent_settings none = none
agent_settings (some vm) = vm.agent

unfoldable pub agent_token : IsoMetadata → String
unfolding agent_api_key
agent_token m = agent_api_key m

abbrev pub control_plane_url : IsoMetadata → String
control_plane_url m = ""

-- A nil map.
abbrev pub tags : IsoMetadata → List (String × String)
tags m = []

abbrev pub tenant_id : IsoMetadata → String
tenant_id m = ""

-- The loop of `PrimaryIP`: the first address of the first card that has one.
first_ip : List VirtualNetworkCard → String
first_ip [] = ""
first_ip (nic ∷ nics) = elim nic.ip_list [ [] ↦ first_ip nics | entry ∷ _ ↦ entry.ip_addr ]

unfoldable pub primary_ip : IsoMetadata → String
unfolding first_ip
primary_ip none = ""
primary_ip (some vm) = first_ip vm.virtual_network_cards

first_gateway : List VirtualNetworkCard → String
first_gateway [] = ""
first_gateway (nic ∷ nics) = elim nic.network.gateway [ none ↦ first_gateway nics | some g ↦ g ]

unfoldable pub gateway : IsoMetadata → String
unfolding first_gateway
gateway none = ""
gateway (some vm) = first_gateway vm.virtual_network_cards

first_nameservers : List VirtualNetworkCard → List String
first_nameservers [] = []
first_nameservers (nic ∷ nics) = elim nic.network.dns_nameservers [
  | [] ↦ first_nameservers nics
  | d ∷ ds ↦ d ∷ ds
]

unfoldable pub dns_nameservers : IsoMetadata → List String
unfolding first_nameservers
dns_nameservers none = []
dns_nameservers (some vm) = first_nameservers vm.virtual_network_cards

unfoldable pub network_cards : IsoMetadata → List VirtualNetworkCard
network_cards none = []
network_cards (some vm) = vm.virtual_network_cards
