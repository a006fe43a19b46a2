-- ===== src/IsoConfig/Devices.antt =====
-- encoding/json on the disks and network cards of pkg/isoconfig/reader.go, by the tags of their fields.
use pfsense_agent.Base.{false, none, List, [], if◌then◌else◌}
use pfsense_agent.Base.Int.{pos}
use pfsense_agent.Json.{
  Setter, names_field, string_field, int_field, bool_field, strings_field, set_field,
}
use pfsense_agent.Json.Nested.{int64_field, text_pointer_field, struct_field, structs_field}
use pfsense_agent.IsoConfig.{IpEntry, Network, VirtualNetworkCard, VirtualDisk}

-- The zero values.
abbrev pub no_disk : VirtualDisk
no_disk = record { disk_type = ""; device_number = pos 0; total_disk = pos 0 }

abbrev pub no_ip : IpEntry
no_ip = record { id = pos 0; ip_addr = ""; is_reserved = false }

abbrev pub no_network : Network
no_network = record {
  name = "";
  ip_addr = "";
  ip_range_start = "";
  ip_range_end = "";
  gateway = none;
  subnet = "";
  netmask = "";
  network_address = "";
  dhcp_server = "";
  dns_nameservers = [];
  mtu = pos 0;
}

abbrev pub no_card : VirtualNetworkCard
no_card = record {
  device_number = pos 0;
  mac_addr = "";
  network_name = "";
  network = no_network;
  ip_list = [];
}

unfoldable pub set_disk : Setter VirtualDisk
set_disk key v x =
    if names_field key "disk_type"
    then set_field (string_field "VirtualDisk" "virtual_disks.disk_type" v x.disk_type)
        (λ a. record x { disk_type = a })
    else if names_field key "device_number"
    then set_field (int_field "VirtualDisk" "virtual_disks.device_number" v x.device_number)
        (λ a. record x { device_number = a })
    else if names_field key "total_disk"
    then set_field (int64_field "VirtualDisk" "virtual_disks.total_disk" v x.total_disk)
        (λ a. record x { total_disk = a })
    else (x, none)

unfoldable pub set_network : Setter Network
set_network key v x =
    if names_field key "name"
    then set_field (string_field "Network" "virtual_network_cards.network.name" v x.name)
        (λ a. record x { name = a })
    else if names_field key "ip_addr"
    then set_field (string_field "Network" "virtual_network_cards.network.ip_addr" v x.ip_addr)
        (λ a. record x { ip_addr = a })
    else if names_field key "ip_range_start"
    then set_field
        (string_field "Network" "virtual_network_cards.network.ip_range_start" v x.ip_range_start)
        (λ a. record x { ip_range_start = a })
    else if names_field key "ip_range_end"
    then set_field
        (string_field "Network" "virtual_network_cards.network.ip_range_end" v x.ip_range_end)
        (λ a. record x { ip_range_end = a })
    else if names_field key "gateway"
    then set_field
        (text_pointer_field "Network" "virtual_network_cards.network.gateway" v x.gateway)
        (λ a. record x { gateway = a })
    else if names_field key "subnet"
    then set_field (string_field "Network" "virtual_network_cards.network.subnet" v x.subnet)
        (λ a. record x { subnet = a })
    else if names_field key "netmask"
    then set_field (string_field "Network" "virtual_network_cards.network.netmask" v x.netmask)
        (λ a. record x { netmask = a })
    else if names_field key "network"
    then set_field
        (string_field "Network" "virtual_network_cards.network.network" v x.network_address)
        (λ a. record x { network_address = a })
    else if names_field key "dhcp_server"
    then set_field
        (string_field "Network" "virtual_network_cards.network.dhcp_server" v x.dhcp_server)
        (λ a. record x { dhcp_server = a })
    else if names_field key "dns_nameservers"
    then set_field
        (strings_field "Network" "virtual_network_cards.network.dns_nameservers" v
          x.dns_nameservers)
        (λ a. record x { dns_nameservers = a })
    else if names_field key "mtu"
    then set_field (int_field "Network" "virtual_network_cards.network.mtu" v x.mtu)
        (λ a. record x { mtu = a })
    else (x, none)

unfoldable pub set_ip : Setter IpEntry
set_ip key v x =
    if names_field key "id"
    then set_field (int_field "IPEntry" "virtual_network_cards.ip_list.data.id" v x.id)
        (λ a. record x { id = a })
    else if names_field key "ip_addr"
    then set_field (string_field "IPEntry" "virtual_network_cards.ip_list.data.ip_addr" v x.ip_addr)
        (λ a. record x { ip_addr = a })
    else if names_field key "is_reserved"
    then set_field
        (bool_field "IPEntry" "virtual_network_cards.ip_list.data.is_reserved" v x.is_reserved)
        (λ a. record x { is_reserved = a })
    else (x, none)

-- `DataList[IPEntry]`
unfoldable pub set_ip_list : Setter (List IpEntry)
set_ip_list key v x =
    if names_field key "data"
    then set_field
        (structs_field "DataList[github.com/plusclouds/ubuntu-agent/pkg/isoconfig.IPEntry]"
          "virtual_network_cards.ip_list.data" "isoconfig.IPEntry" set_ip no_ip v x)
        (λ a. a)
    else (x, none)

unfoldable pub set_card : Setter VirtualNetworkCard
set_card key v x =
    if names_field key "device_number"
    then set_field
        (int_field "VirtualNetworkCard" "virtual_network_cards.device_number" v x.device_number)
        (λ a. record x { device_number = a })
    else if names_field key "mac_addr"
    then set_field (string_field "VirtualNetworkCard" "virtual_network_cards.mac_addr" v x.mac_addr)
        (λ a. record x { mac_addr = a })
    else if names_field key "network_name"
    then set_field
        (string_field "VirtualNetworkCard" "virtual_network_cards.network_name" v x.network_name)
        (λ a. record x { network_name = a })
    else if names_field key "network"
    then set_field
        (struct_field "VirtualNetworkCard" "virtual_network_cards.network" "isoconfig.Network"
          set_network v x.network)
        (λ a. record x { network = a })
    else if names_field key "ip_list"
    then set_field
        (struct_field "VirtualNetworkCard" "virtual_network_cards.ip_list"
          "isoconfig.DataList[github.com/plusclouds/ubuntu-agent/pkg/isoconfig.IPEntry]" set_ip_list
          v x.ip_list)
        (λ a. record x { ip_list = a })
    else (x, none)
