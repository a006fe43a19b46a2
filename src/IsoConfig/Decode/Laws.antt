-- ===== src/IsoConfig/Decode/Laws.antt =====
-- The metadata of pkg/isoconfig/reader.go written as the platform writes it, each field under its tag.
use pfsense_agent.Base.{String, ◌≡◌, refl, ap, ◌∙◌, Option, none, some, List, [], ok}
use pfsense_agent.Json.{
  Json, null, boolean, integer, str, arr, obj, Fields, end, field, decode_fields, finish,
  names_field, string_field, int_field, bool_field, unmarshal,
}
use pfsense_agent.Json.Nested.{
  int64_field, text_pointer_field, array_of, structs_field_lem, strings_field_lem, raws_field_lem,
  struct_field_lem,
}
use pfsense_agent.IsoConfig.{
  IpEntry, Network, VirtualNetworkCard, VirtualDisk, ServiceRole, ComputePool, CloudNode,
  VirtualMachineMetadata,
}
use pfsense_agent.IsoConfig.Devices.{
  no_disk, no_ip, no_network, no_card, set_disk, set_network, set_ip, set_ip_list, set_card,
}
use pfsense_agent.IsoConfig.Decode.{
  no_role, no_metadata, set_role, set_pool, set_node, set_metadata, decode_metadata,
}

abbrev pub written_text : Option String → Json
written_text none = null
written_text (some s) = str s

abbrev pub disk_fields : VirtualDisk → Fields
disk_fields x = field "disk_type" (str x.disk_type) (
    field "device_number" (integer x.device_number)
      (field "total_disk" (integer x.total_disk) (end)))

abbrev pub ip_fields : IpEntry → Fields
ip_fields x =
    field "id" (integer x.id)
      (field "ip_addr" (str x.ip_addr) (field "is_reserved" (boolean x.is_reserved) (end)))

abbrev pub network_fields : Network → Fields
network_fields x = field "name" (str x.name) (
    field "ip_addr" (str x.ip_addr) (
      field "ip_range_start" (str x.ip_range_start) (
        field "ip_range_end" (str x.ip_range_end) (
          field "gateway" (written_text x.gateway) (
            field "subnet" (str x.subnet) (
              field "netmask" (str x.netmask) (
                field "network" (str x.network_address) (
                  field "dhcp_server" (str x.dhcp_server) (
                    field "dns_nameservers" (arr (array_of str x.dns_nameservers))
                      (field "mtu" (integer x.mtu) (end)))))))))))

abbrev pub ip_list_fields : List IpEntry → Fields
ip_list_fields xs = field "data" (arr (array_of (λ e. obj (ip_fields e)) xs)) end

abbrev pub card_fields : VirtualNetworkCard → Fields
card_fields x = field "device_number" (integer x.device_number) (
    field "mac_addr" (str x.mac_addr) (
      field "network_name" (str x.network_name) (
        field "network" (obj (network_fields x.network))
          (field "ip_list" (obj (ip_list_fields x.ip_list)) (end)))))

abbrev pub role_fields : ServiceRole → Fields
role_fields x = field "name" (str x.name) (field "config" (str x.config) (end))

abbrev pub pool_fields : ComputePool → Fields
pool_fields x = field "id" (str x.id) (
    field "name" (str x.name) (
      field "pool_type" (str x.pool_type) (
        field "hypervisor_type" (written_text x.hypervisor_type)
          (field "hypervisor_version" (written_text x.hypervisor_version) (end)))))

abbrev pub node_fields : CloudNode → Fields
node_fields x = field "id" (str x.id) (
    field "name" (str x.name) (
      field "location" (written_text x.location) (
        field "provider" (written_text x.provider) (field "region" (written_text x.region) (end)))))

-- Settings that are absent have no field.
abbrev agent_field : Option Json → Fields
agent_field none = end
agent_field (some v) = field "agent" v end

abbrev fields_before : VirtualMachineMetadata → Fields → Fields
fields_before x rest = field "hostname" (str x.hostname) (
    field "username" (str x.username) (
      field "password" (str x.password) (
        field "virtual_machine_id" (str x.virtual_machine_id) (
          field "agent_api_key" (str x.agent_api_key) (
            field "virtual_disks" (arr (array_of (λ d. obj (disk_fields d)) x.virtual_disks)) (
              field "virtual_network_cards"
                (arr (array_of (λ c. obj (card_fields c)) x.virtual_network_cards))
                (field "service_roles" (arr (array_of (λ r. obj (role_fields r)) x.service_roles)) (
                  field "compute_pool" (obj (pool_fields x.compute_pool)) (
                    field "cloud_node" (obj (node_fields x.cloud_node)) (
                      field "ssh_keys" (arr (array_of str x.ssh_keys)) (
                        field "env_vars" (arr (array_of (λ v. v) x.env_vars))
                          (field "tokens" (arr (array_of (λ v. v) x.tokens)) (rest)))))))))))))

abbrev pub metadata_fields : VirtualMachineMetadata → Fields
metadata_fields x = fields_before x (agent_field x.agent)

disk_lem : (x : VirtualDisk) → decode_fields set_disk (disk_fields x) no_disk none ≡ (x, none)
unfolding decode_fields set_disk names_field string_field int_field int64_field
disk_lem x = refl

ip_lem : (x : IpEntry) → decode_fields set_ip (ip_fields x) no_ip none ≡ (x, none)
unfolding decode_fields set_ip names_field string_field int_field bool_field
ip_lem x = refl

role_lem : (x : ServiceRole) → decode_fields set_role (role_fields x) no_role none ≡ (x, none)
unfolding decode_fields set_role names_field string_field
role_lem x = refl

text_lem :
    (owner name : String) (o : Option String)
    → text_pointer_field owner name (written_text o) none ≡ (o, none)
unfolding text_pointer_field
text_lem owner name none = refl
text_lem owner name (some s) = refl

network_lem :
    (x : Network) → decode_fields set_network (network_fields x) no_network none ≡ (x, none)
unfolding decode_fields set_network names_field string_field int_field
network_lem x =
    rw
      (
        text_lem "Network" "virtual_network_cards.network.gateway" x.gateway,
        strings_field_lem "Network" "virtual_network_cards.network.dns_nameservers"
            x.dns_nameservers [],
      )
      refl

pool_lem :
    (x : ComputePool)
    → decode_fields set_pool (pool_fields x) no_metadata.compute_pool none ≡ (x, none)
unfolding decode_fields set_pool names_field string_field
pool_lem x =
    rw
      (
        text_lem "ComputePool" "compute_pool.hypervisor_type" x.hypervisor_type,
        text_lem "ComputePool" "compute_pool.hypervisor_version" x.hypervisor_version,
      )
      refl

node_lem :
    (x : CloudNode) → decode_fields set_node (node_fields x) no_metadata.cloud_node none ≡ (x, none)
unfolding decode_fields set_node names_field string_field
node_lem x =
    rw
      (
        text_lem "CloudNode" "cloud_node.location" x.location,
        text_lem "CloudNode" "cloud_node.provider" x.provider,
        text_lem "CloudNode" "cloud_node.region" x.region,
      )
      refl

ip_list_lem :
    (xs : List IpEntry) → decode_fields set_ip_list (ip_list_fields xs) [] none ≡ (xs, none)
unfolding decode_fields set_ip_list names_field
ip_list_lem xs =
    rw
      (structs_field_lem "DataList[github.com/plusclouds/ubuntu-agent/pkg/isoconfig.IPEntry]"
        "virtual_network_cards.ip_list.data" "isoconfig.IPEntry" set_ip no_ip ip_fields ip_lem xs
        [])
      refl

card_lem :
    (x : VirtualNetworkCard) → decode_fields set_card (card_fields x) no_card none ≡ (x, none)
unfolding decode_fields set_card names_field string_field int_field
card_lem x =
    rw
      (
        struct_field_lem "VirtualNetworkCard" "virtual_network_cards.network" "isoconfig.Network"
            set_network no_network network_fields x.network (network_lem x.network),
        struct_field_lem "VirtualNetworkCard" "virtual_network_cards.ip_list"
            "isoconfig.DataList[github.com/plusclouds/ubuntu-agent/pkg/isoconfig.IPEntry]"
            set_ip_list [] ip_list_fields x.ip_list (ip_list_lem x.ip_list),
      )
      refl

before_lem :
    (x : VirtualMachineMetadata) (rest : Fields)
    → decode_fields set_metadata (fields_before x rest) no_metadata none
      ≡ decode_fields set_metadata rest (record x { agent = none }) none
unfolding decode_fields set_metadata names_field string_field
before_lem x rest =
    rw
      (
        decode_fields,
        structs_field_lem "VirtualMachineMetadata" "virtual_disks" "isoconfig.VirtualDisk" set_disk
            no_disk disk_fields disk_lem x.virtual_disks [],
        structs_field_lem "VirtualMachineMetadata" "virtual_network_cards"
            "isoconfig.VirtualNetworkCard" set_card no_card card_fields card_lem
            x.virtual_network_cards [],
        structs_field_lem "VirtualMachineMetadata" "service_roles" "isoconfig.ServiceRole" set_role
            no_role role_fields role_lem x.service_roles [],
        struct_field_lem "VirtualMachineMetadata" "compute_pool" "isoconfig.ComputePool" set_pool
            no_metadata.compute_pool pool_fields x.compute_pool (pool_lem x.compute_pool),
        struct_field_lem "VirtualMachineMetadata" "cloud_node" "isoconfig.CloudNode" set_node
            no_metadata.cloud_node node_fields x.cloud_node (node_lem x.cloud_node),
        strings_field_lem "VirtualMachineMetadata" "ssh_keys" x.ssh_keys [],
        raws_field_lem "VirtualMachineMetadata" "env_vars" x.env_vars [],
        raws_field_lem "VirtualMachineMetadata" "tokens" x.tokens [],
      )
      refl

agent_lem :
    (x : VirtualMachineMetadata) (o : Option Json)
    → decode_fields set_metadata (agent_field o) (record x { agent = none }) none
      ≡ (record x { agent = o }, none)
unfolding decode_fields set_metadata names_field
agent_lem x none = refl
agent_lem x (some v) = refl

-- Metadata that is written by the tags of its fields decodes to itself, with every card, network, address,
-- disk, role, key, variable and token, whether or not it has settings for the agent.
pub decode_metadata_lem :
    (x : VirtualMachineMetadata) → decode_metadata (obj (metadata_fields x)) ≡ ok x
unfolding decode_metadata unmarshal
decode_metadata_lem x = ap finish (before_lem x (agent_field x.agent) ∙ agent_lem x x.agent)
