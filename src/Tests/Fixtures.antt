-- ===== src/Tests/Fixtures.antt =====
-- A dispatcher over a world that counts the calls that change something, with two commands for it.
use pfsense_agent.Base.{ℕ, suc, String, true, false, none, some, [], ◌∷◌, ok, err, plain, Io, ◌+◌}
use pfsense_agent.Base.Int.{ℤ, pos}
use pfsense_agent.Json.{Json, str, obj, field, end}
use pfsense_agent.Protocol.{Received, Stamp, command}
use pfsense_agent.IsoConfig.{VirtualNetworkCard}
use pfsense_agent.Services
use pfsense_agent.System.{SystemModule}
use pfsense_agent.Pfsense
use pfsense_agent.Nats.{Connection}
use pfsense_agent.Publisher.Interval.{set_telemetry_interval}
use pfsense_agent.Dispatcher.{Ports, Dispatcher, freebsd}

abbrev pub unavailable : {W A : Type 0} → Io W A
unavailable w = (err (plain "unavailable"), w)

abbrev pub blind_system : {W : Type 0} → SystemModule W
blind_system = record {
  get_info = unavailable;
  get_metrics = unavailable;
  get_cpu = unavailable;
  get_memory = unavailable;
  get_disk = unavailable;
  get_network = unavailable;
}

abbrev pub no_services : {W : Type 0} → Services.Manager W
no_services = record {
  list = unavailable;
  get = λ name. unavailable;
  perform = λ a name. unavailable;
}

abbrev pub password_only : Pfsense.Manager ℕ
password_only = record {
  set_password = λ user password w.
      (ok (record { username = user; success = true; message = "password updated" }), suc w);
  set_default_user_password = λ password. unavailable;
  apply_boot_network_config = λ cards. unavailable;
  revert = λ snapshot. unavailable;
  list_firewall_rules = unavailable;
  create_firewall_rule = λ input. unavailable;
  delete_firewall_rule = λ tracker. unavailable;
  list_port_forwards = unavailable;
  create_port_forward = λ input. unavailable;
  delete_port_forward = λ tracker. unavailable;
  list_dhcp_leases = unavailable;
}

abbrev pub ports : Ports ℕ
ports = record {
  system = blind_system;
  services = no_services;
  pfsense = password_only;
  resizer = record { resize = λ target. unavailable };
  execute = λ name args w. (record { stdout = "done"; stderr = ""; failure = none }, suc w);
  send_capabilities = unavailable;
  set_telemetry_interval = λ n w. ((set_telemetry_interval n none).0, w);
  read_os_release = unavailable;
}

abbrev pub dispatcher : Dispatcher ℕ
dispatcher = record {
  ports = ports;
  allowed_ops = "exec" ∷ "agent.version" ∷ "telemetry.set_interval" ∷ "pfsense.set_password" ∷ [];
  allowed_commands = "uptime" ∷ [];
  agent_uuid = "vm-1";
  agent_version = "0.2.0";
  goos = freebsd;
}

abbrev pub stamp : Stamp
stamp = record { random = λ i. i; now = 7 }

abbrev pub conn : Connection ℕ
conn = record { publish = λ subject env w. (none, w + 10) }

-- A command with its parameters.
abbrev pub message_of : ℤ → String → Json → Received
message_of v op params = record {
  v = v;
  id = "c-1";
  type = command;
  agent_type = "vm";
  agent_uuid = "vm-1";
  timestamp = pos 0;
  reply_to = "inbox";
  payload = some (obj (field "operation" (str op) (field "params" params end)));
}

abbrev pub command_of : String → Json → Received
command_of = message_of (pos 1)

abbrev pub exec_of : String → Json
exec_of name = obj (field "command" (str name) end)

abbrev pub password_of : String → Json
password_of password = obj (field "username" (str "admin") (field "password" (str password) end))

-- A network card with an address in CIDR notation.
abbrev pub card : VirtualNetworkCard
card = record {
  device_number = pos 0;
  mac_addr = "52:54:00:AA:BB:01";
  network_name = "wan";
  network = record {
    name = "wan";
    ip_addr = "";
    ip_range_start = "";
    ip_range_end = "";
    gateway = some "10.0.0.1/24";
    subnet = "24";
    netmask = "";
    network_address = "";
    dhcp_server = "";
    dns_nameservers = "1.1.1.1" ∷ [];
    mtu = pos 1500;
  };
  ip_list = record { id = pos 1; ip_addr = "10.0.0.5/24"; is_reserved = false } ∷ [];
}
