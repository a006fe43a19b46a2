-- ===== src/IsoConfig/Decode.antt =====
-- encoding/json on the metadata types of pkg/isoconfig/reader.go, by the tags of their fields.
pub mod Laws
use pfsense_agent.Base.{String, false, Option, none, some, List, [], Result, if◌then◌else◌}
use pfsense_agent.Base.Int.{pos}
use pfsense_agent.Json.{
  Json, Setter, names_field, string_field, int_field, bool_field, strings_field, raw_field,
  set_field, unmarshal,
}
use pfsense_agent.Json.Nested.{
  int64_field, text_pointer_field, raws_field, struct_field, structs_field,
}
use pfsense_agent.IsoConfig.{
  IpEntry, Network, VirtualNetworkCard, VirtualDisk, ServiceRole, ComputePool, CloudNode,
  VirtualMachineMetadata,
}
use pfsense_agent.IsoConfig.Devices.{no_disk, no_card, set_disk, set_card}

abbrev pub no_role : ServiceRole
no_role = record { name = ""; config = "" }

abbrev pub no_metadata : VirtualMachineMetadata
no_metadata = record {
  hostname = "";
  username = "";
  password = "";
  virtual_machine_id = "";
  agent_api_key = "";
  virtual_disks = [];
  virtual_network_cards = [];
  service_roles = [];
  compute_pool = record {
    id = "";
    name = "";
    pool_type = "";
    hypervisor_type = none;
    hypervisor_version = none;
  };
  cloud_node = record { id = ""; name = ""; location = none; provider = none; region = none };
  ssh_keys = [];
  env_vars = [];
  tokens = [];
  agent = none;
}

set_role : Setter ServiceRole
set_role key v x =
    if names_field key "name"
    then set_field (string_field "ServiceRole" "service_roles.name" v x.name)
        (λ a. record x { name = a })
    else if names_field key "config"
    then set_field (string_field "ServiceRole" "service_roles.config" v x.config)
        (λ a. record x { config = a })
    else (x, none)

set_pool : Setter ComputePool
set_pool key v x =
    if names_field key "id"
    then set_field (string_field "ComputePool" "compute_pool.id" v x.id) (λ a. record x { id = a })
    else if names_field key "name"
    then set_field (string_field "ComputePool" "compute_pool.name" v x.name)
        (λ a. record x { name = a })
    else if names_field key "pool_type"
    then set_field (string_field "ComputePool" "compute_pool.pool_type" v x.pool_type)
        (λ a. record x { pool_type = a })
    else if names_field key "hypervisor_type"
    then set_field
        (text_pointer_field "ComputePool" "compute_pool.hypervisor_type" v x.hypervisor_type)
        (λ a. record x { hypervisor_type = a })
    else if names_field key "hypervisor_version"
    then set_field
        (text_pointer_field "ComputePool" "compute_pool.hypervisor_version" v x.hypervisor_version)
        (λ a. record x { hypervisor_version = a })
    else (x, none)

set_node : Setter CloudNode
set_node key v x =
    if names_field key "id"
    then set_field (string_field "CloudNode" "cloud_node.id" v x.id) (λ a. record x { id = a })
    else if names_field key "name"
    then set_field (string_field "CloudNode" "cloud_node.name" v x.name)
        (λ a. record x { name = a })
    else if names_field key "location"
    then set_field (text_pointer_field "CloudNode" "cloud_node.location" v x.location)
        (λ a. record x { location = a })
    else if names_field key "provider"
    then set_field (text_pointer_field "CloudNode" "cloud_node.provider" v x.provider)
        (λ a. record x { provider = a })
    else if names_field key "region"
    then set_field (text_pointer_field "CloudNode" "cloud_node.region" v x.region)
        (λ a. record x { region = a })
    else (x, none)

set_metadata : Setter VirtualMachineMetadata
set_metadata key v x =
    if names_field key "hostname"
    then set_field (string_field "VirtualMachineMetadata" "hostname" v x.hostname)
        (λ a. record x { hostname = a })
    else if names_field key "username"
    then set_field (string_field "VirtualMachineMetadata" "username" v x.username)
        (λ a. record x { username = a })
    else if names_field key "password"
    then set_field (string_field "VirtualMachineMetadata" "password" v x.password)
        (λ a. record x { password = a })
    else if names_field key "virtual_machine_id"
    then set_field
        (string_field "VirtualMachineMetadata" "virtual_machine_id" v x.virtual_machine_id)
        (λ a. record x { virtual_machine_id = a })
    else if names_field key "agent_api_key"
    then set_field (string_field "VirtualMachineMetadata" "agent_api_key" v x.agent_api_key)
        (λ a. record x { agent_api_key = a })
    else if names_field key "virtual_disks"
    then set_field
        (structs_field "VirtualMachineMetadata" "virtual_disks" "isoconfig.VirtualDisk" set_disk
          no_disk v x.virtual_disks)
        (λ a. record x { virtual_disks = a })
    else if names_field key "virtual_network_cards"
    then set_field
        (structs_field "VirtualMachineMetadata" "virtual_network_cards"
          "isoconfig.VirtualNetworkCard" set_card no_card v x.virtual_network_cards)
        (λ a. record x { virtual_network_cards = a })
    else if names_field key "service_roles"
    then set_field
        (structs_field "VirtualMachineMetadata" "service_roles" "isoconfig.ServiceRole" set_role
          no_role v x.service_roles)
        (λ a. record x { service_roles = a })
    else if names_field key "compute_pool"
    then set_field
        (struct_field "VirtualMachineMetadata" "compute_pool" "isoconfig.ComputePool" set_pool v
          x.compute_pool)
        (λ a. record x { compute_pool = a })
    else if names_field key "cloud_node"
    then set_field
        (struct_field "VirtualMachineMetadata" "cloud_node" "isoconfig.CloudNode" set_node v
          x.cloud_node)
        (λ a. record x { cloud_node = a })
    else if names_field key "ssh_keys"
    then set_field (strings_field "VirtualMachineMetadata" "ssh_keys" v x.ssh_keys)
        (λ a. record x { ssh_keys = a })
    else if names_field key "env_vars"
    then set_field (raws_field "VirtualMachineMetadata" "env_vars" v x.env_vars)
        (λ a. record x { env_vars = a })
    else if names_field key "tokens"
    then set_field (raws_field "VirtualMachineMetadata" "tokens" v x.tokens)
        (λ a. record x { tokens = a })
    else if names_field key "agent"
    then set_field (raw_field v x.agent) (λ a. record x { agent = a })
    else (x, none)

-- `json.Unmarshal(data, &vm)`, for a text that is JSON.
pub decode_metadata : Json → Result VirtualMachineMetadata
decode_metadata v = unmarshal "isoconfig.VirtualMachineMetadata" set_metadata no_metadata (some v)
