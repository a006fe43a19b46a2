-- ===== src/Tests/Boot.antt =====
-- Boot provisioning, the metadata's loading, and the agent's identity.
use pfsense_agent.Base.{
  ℕ, ◌+◌, ◌≡◌, refl, ◌≢◌, true, false, Option, none, some, [], ◌∷◌, ok, Error, plain,
  is_unauthorized,
}
use pfsense_agent.IsoConfig.{VirtualMachineMetadata, IsoMetadata, network_cards}
use pfsense_agent.Json.{obj}
use pfsense_agent.IsoConfig.Decode.{decode_metadata}
use pfsense_agent.IsoConfig.Decode.Laws.{metadata_fields, decode_metadata_lem}
use pfsense_agent.IsoConfig.Load.{Host, content, absent, load}
use pfsense_agent.IsoConfig.Load.Laws.{drive_metadata, preferred, load_lem}
use pfsense_agent.Base.{◌<>◌, str_eq, if◌then◌else◌}
use pfsense_agent.Pfsense
use pfsense_agent.Pfsense.{BootNetworkResult}
use pfsense_agent.Config.{NatsConfig}
use pfsense_agent.Base.Int.{pos}
use pfsense_agent.Agent.Boot.{Machine, Ports, is_unreachable, apply_boot_network_config}
use pfsense_agent.Agent.Boot.Laws.{
  IsVerified, apply_boot_network_config-IsVerified, apply_boot_network_config_reverts,
  apply_boot_network_config_unapplied,
}
use pfsense_agent.Tests.Fixtures.{password_only, card}

abbrev pub drive_vm : VirtualMachineMetadata
drive_vm = record {
  hostname = "fw";
  username = "root";
  password = "";
  virtual_machine_id = "vm-1";
  agent_api_key = "";
  virtual_disks = record { disk_type = "system"; device_number = pos 0; total_disk = pos 20 } ∷ [];
  virtual_network_cards = card ∷ [];
  service_roles = record { name = "firewall"; config = "" } ∷ [];
  compute_pool = record {
    id = "p-1";
    name = "pool";
    pool_type = "kvm";
    hypervisor_type = some "kvm";
    hypervisor_version = none;
  };
  cloud_node = record {
    id = "n-1";
    name = "node";
    location = none;
    provider = none;
    region = some "eu";
  };
  ssh_keys = "ssh-ed25519 AAAA" ∷ [];
  env_vars = [];
  tokens = [];
  agent = none;
}

abbrev pub metadata : IsoMetadata
metadata = some drive_vm

abbrev pub nats : NatsConfig
nats = record {
  connection_type = "websocket";
  url = "nats://broker";
  websocket_url = "wss://broker";
  agent_uuid = "old";
  api_key = "secret";
  max_reconnects = pos 5;
  reconnect_wait = pos 1000;
}

-- The interface of the only card was left as it was.
abbrev pub failed_result : BootNetworkResult
failed_result = record {
  snapshot = some "{}";
  interfaces =
      record {
        mac_addr = "";
        if_name = "";
        logical = "";
        applied = false;
        assigned = false;
        message = "apply script failed";
      }
      ∷ [];
}

abbrev pub manager : Pfsense.Manager ℕ
manager = record password_only {
  apply_boot_network_config = λ cards w. (ok (some failed_result), w + 1);
  revert = λ snapshot w. (ok tt, w + 100);
}

-- A world that counts calls; the probe gives the error.
abbrev boot_ports : Option Error → Ports ℕ
boot_ports probe_error = record {
  pfsense = manager;
  probe = λ w. (probe_error, w + 1);
  write_marker = λ w. (none, w + 10);
}

abbrev fresh : Machine ℕ
fresh = record { marker = false; world = 0 }

abbrev booted : Machine ℕ
booted = (apply_boot_network_config (boot_ports none) metadata fresh).1

has_cards : network_cards metadata ≢ []
unfolding network_cards
has_cards e = cc

is_marked : booted.marker ≡ true
unfolding apply_boot_network_config network_cards
is_marked = refl

apply_boot_network_config-IsVerified_example :
    (network_cards metadata ≢ [])
    × ((result : BootNetworkResult) × IsVerified
          (boot_ports none)
          ((boot_ports none).pfsense.apply_boot_network_config (network_cards metadata) 0)
          result)
apply_boot_network_config-IsVerified_example =
    apply_boot_network_config-IsVerified (boot_ports none) metadata fresh refl is_marked

abbrev offline : Ports ℕ
offline = boot_ports (some (plain "dial tcp: i/o timeout"))

apply_boot_network_config_reverts_example :
    ((apply_boot_network_config offline metadata fresh).1.marker ≡ false)
    × ((apply_boot_network_config offline metadata fresh).1.world
        ≡ (offline.pfsense.revert (some "{}") (offline.probe 1).1).1)
unfolding is_unreachable is_unauthorized
apply_boot_network_config_reverts_example =
    apply_boot_network_config_reverts offline metadata fresh failed_result 1 refl has_cards refl
      "{}" refl (λ e. cc) refl

apply_boot_network_config_unapplied_example :
    (apply_boot_network_config (boot_ports none) metadata fresh).1.marker ≡ true
unfolding is_unreachable
apply_boot_network_config_unapplied_example =
    apply_boot_network_config_unapplied (boot_ports none) metadata fresh failed_result 1 refl
      has_cards refl (refl, tt) refl refl

-- A drive that is mounted and holds the metadata, on a host that counts the changes.
abbrev drive_host : Host ℕ
drive_host = record {
  locate = λ s. (record { dir = "/mnt"; failure = none; unmount = λ t. t + 1000 }, s + 1);
  read_file = λ path s.
      if str_eq path "/mnt/pc-meta-data.json" then content "{}" else absent (plain "no such file");
  mkdir_all = λ path s. (none, s + 1);
  write_file = λ path text s. (none, s + 1);
  rename = λ path to s. (none, s + 1);
  join = λ dir name. dir <> ("/" <> name);
  dir_of = λ path. "/cache";
  parse = λ text. ok (obj (metadata_fields drive_vm));
}

load_lem_example :
    ((load drive_host "/cache/pc-meta-data.json" 0).0
      ≡ preferred drive_host "/cache/pc-meta-data.json"
          (drive_metadata drive_host (drive_host.locate 0).0 1)
          1)
    × ((t : ℕ) × ((load drive_host "/cache/pc-meta-data.json" 0).1 ≡ t + 1000))
load_lem_example = load_lem drive_host "/cache/pc-meta-data.json" 0

decode_metadata_lem_example : decode_metadata (obj (metadata_fields drive_vm)) ≡ ok drive_vm
decode_metadata_lem_example = decode_metadata_lem drive_vm
