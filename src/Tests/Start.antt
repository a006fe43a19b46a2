-- ===== src/Tests/Start.antt =====
-- The start of an agent without a config-drive and with its default operations.
use pfsense_agent.Base.{Error, wrap, ℕ, ◌+◌, ◌≡◌, refl, List, [], ◌∷◌, none, ok, err, plain}
use pfsense_agent.IsoConfig
use pfsense_agent.IsoConfig.{agent_settings}
use pfsense_agent.Config.{Config, Viper, load, defaults}
use pfsense_agent.Dispatcher.{Dispatcher, freebsd}
use pfsense_agent.Agent.Boot
use pfsense_agent.Agent.Start.{
  Core, json, LogPorts, Ports, build_logger, or_none, provision_on, run,
}
use pfsense_agent.Agent.Start.Laws.{HasServed, run_ok}
use pfsense_agent.Tests.Fixtures.{password_only, dispatcher}

abbrev default_viper : Viper
default_viper = record { merge_error = λ fs. none; unmarshal = λ cfg settings. ok cfg }

abbrev log_ports : LogPorts ℕ
log_ports = record {
  parse_level = λ level. ok level;
  dir_of = λ path. path;
  mkdir_all = λ dir w. (ok tt, w);
  open_file = λ path w. (ok tt, w);
}

-- Every call that changes something is counted, the waiting for the signal tenfold.
abbrev start_ports : Ports ℕ
start_ports = record {
  viper = default_viper;
  logs = log_ports;
  sync = λ w. w + 1;
  cancel = λ w. w + 1;
  load_metadata = λ iso w. (err (plain "no config-drive"), w);
  open_services = λ w. w + 1;
  close_services = λ w. w + 1;
  pfsense = password_only;
  files = record {
    stat = λ path w. none;
    dir_of = λ path. path;
    mkdir_all = λ dir w. (ok tt, w);
    write_empty = λ path w. (ok tt, w);
  };
  nats_connect = λ url options w. (ok tt, w + 1);
  drain = λ w. w + 1;
  subscribe = λ subject w. (ok tt, w + 1);
  start_publisher = λ cfg id w. w + 1;
  wait = λ w. w + 10;
}

started : run start_ports freebsd 0 ≡ (ok tt, 19)
unfolding run load build_logger provision_on defaults Boot.apply_boot_password IsoConfig.password
    Boot.apply_boot_network_config Boot.run_boot_provisioning
started = refl

run_ok_example :
    (boot_cfg : Config) × (u : ℕ) × (cfg : Config) × (load default_viper none ≡ ok boot_cfg)
    × (load default_viper (agent_settings (or_none (start_ports.load_metadata boot_cfg.iso u).0))
        ≡ ok cfg)
    × HasServed start_ports freebsd cfg (or_none (start_ports.load_metadata boot_cfg.iso u).0) 19
run_ok_example = run_ok start_ports freebsd 0 19 started

abbrev json_core : List Core
json_core = record { encoding = json; file = none; level = "info" } ∷ []

abbrev default_dispatcher : Dispatcher ℕ
default_dispatcher = record dispatcher { allowed_ops = defaults.agent.allowed_operations }

abbrev refusing_ports : Ports ℕ
refusing_ports = record start_ports {
  nats_connect = λ url options w. (err (plain "no servers"), w + 1);
}

abbrev no_servers : Error
no_servers = wrap ("connecting to NATS (nats) at nats://localhost:4222: ") (plain "no servers") ""
