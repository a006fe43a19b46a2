-- ===== src/Config.antt =====
-- internal/config/config.go: the configuration, its defaults, and `Load`. The viper library, which
-- overlays the defaults with the metadata's settings and the environment, is a parameter. Durations
-- are in nanoseconds.
pub mod Laws
use pfsense_agent.Base.{
  ℕ, ◌*◌, String, Bool, true, Option, none, some, List, [], ◌∷◌, Result, ok, err, Error, plain,
  wrap, ◌<>◌, str_eq, if◌then◌else◌,
}
use pfsense_agent.Base.Int.{ℤ, pos, negsuc}
use pfsense_agent.Json.{Json, Fields, obj, null, blank_obj, end, describe}

pub record NatsConfig : Type 0 where
  pub connection_type : String
  pub url : String
  pub websocket_url : String
  pub agent_uuid : String
  pub api_key : String
  pub max_reconnects : ℤ
  pub reconnect_wait : ℤ

unfoldable pub active_url : NatsConfig → String
active_url c = if str_eq c.connection_type "websocket" then c.websocket_url else c.url

pub record AgentConfig : Type 0 where
  pub heartbeat_interval : ℤ
  pub telemetry_interval : ℤ
  pub allowed_operations : List String
  pub allowed_commands : List String

pub record IsoDriveConfig : Type 0 where
  pub mount_path : String
  pub fallback_env : Bool
  pub label : String
  pub cache_path : String

pub record LogConfig : Type 0 where
  pub level : String
  pub format : String
  pub file : String

pub record AutohealConfig : Type 0 where
  pub enabled : Bool
  pub restart_delay : ℤ

pub record Config : Type 0 where
  pub nats : NatsConfig
  pub agent : AgentConfig
  pub iso : IsoDriveConfig
  pub log : LogConfig
  pub autoheal : AutohealConfig

abbrev seconds : ℕ → ℤ
seconds n = pos (n * 1000000000)

-- `setDefaults`
unfoldable pub default_operations : List String
default_operations =
    "agent.allowed_operations" ∷ "agent.version" ∷ "services.list" ∷ "services.get"
    ∷ "services.start" ∷ "services.stop" ∷ "services.restart" ∷ "services.reload"
    ∷ "services.enable" ∷ "services.disable" ∷ "system.info" ∷ "system.metrics" ∷ "system.cpu"
    ∷ "system.memory" ∷ "system.disk" ∷ "system.network" ∷ "system.update"
    ∷ "telemetry.set_interval" ∷ "vm.reboot" ∷ "vm.shutdown" ∷ []

unfoldable pub defaults : Config
unfolding default_operations
defaults = record {
  nats = record {
    connection_type = "nats";
    url = "nats://localhost:4222";
    websocket_url = "ws://localhost:8080";
    agent_uuid = "";
    api_key = "";
    max_reconnects = negsuc 0;
    reconnect_wait = seconds 5;
  };
  agent = record {
    heartbeat_interval = seconds 30;
    telemetry_interval = seconds 30;
    allowed_operations = default_operations;
    allowed_commands = [];
  };
  iso = record {
    mount_path = "/media/plusclouds-config";
    fallback_env = true;
    label = "cidata";
    cache_path = "/var/lib/plusclouds/cache/pc-meta-data.json";
  };
  log = record { level = "info"; format = "json"; file = "" };
  autoheal = record { enabled = true; restart_delay = seconds 10 };
}

-- `MergeConfigMap`, as its error, and `Unmarshal` of the defaults under the merged settings and the
-- environment.
pub record Viper : Type 0 where
  pub merge_error : Fields → Option Error
  pub unmarshal : Config → Option Fields → Result Config

module _ (viper : Viper) where
  unmarshalled : Result Config → Result Config
  unmarshalled (ok cfg) = ok cfg
  unmarshalled (err e) = err (wrap "unmarshalling config: " e "")

  merged : Fields → Option Error → Result Config
  unfolding unmarshalled
  merged fs (some e) = err (wrap "merging agent settings from config-drive metadata: " e "")
  merged fs none = unmarshalled (viper.unmarshal defaults (some fs))

  -- Settings that are absent or `null` are none; others have to be an object.
  unfoldable pub load : Option Json → Result Config
  unfolding merged describe
  load none = unmarshalled (viper.unmarshal defaults none)
  load (some null) = unmarshalled (viper.unmarshal defaults none)
  load (some (obj fs)) = merged fs (viper.merge_error fs)
  load (some blank_obj) = merged end (viper.merge_error end)
  load (some v) = err (
      wrap "parsing agent settings from config-drive metadata: "
        (plain (
          "json: cannot unmarshal "
          <> (describe v <> " into Go value of type map[string]interface {}")))
        "")
