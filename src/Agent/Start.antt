-- ===== src/Agent/Start.antt =====
-- `run` and `buildLogger` of cmd/agent/main.go: the steps of the agent's start and their deferred
-- calls. The modules are made without effects but for the service manager and the loggers; what the
-- started goroutines do is in Agent/Handler and Publisher/Loops.
pub mod Laws
pub mod Begins
pub mod Ends
pub mod Fails
use pfsense_agent.Base.{
  ℕ, String, ◌<>◌, Bool, true, false, Option, none, some, List, [], ◌∷◌, ◌++◌, Result, ok, err,
  Error, wrap, Io, Unit0, str_eq, if◌then◌else◌, ◌>>=◌, ◌>>◌, wrapped, lift, pure,
}
use pfsense_agent.Base.Int.{ℤ, pos}
use pfsense_agent.Json.{Json}
use pfsense_agent.IsoConfig.{IsoMetadata, agent_settings}
use pfsense_agent.Config.{NatsConfig, IsoDriveConfig, LogConfig, Config, Viper, load}
use pfsense_agent.Nats.{connect, cmd_subject}
use pfsense_agent.Dispatcher.{Goos, freebsd}
use pfsense_agent.Agent.Identity.{Identity, resolve_identity}
use pfsense_agent.Agent.Boot.{NatsConnect}
use pfsense_agent.Agent.Marker.{Files, provision}
use pfsense_agent.Pfsense

-- A logger by its outputs: an encoding, and the file or, without one, the standard output.
pub data Encoding : Type 0 where
  json console : Encoding

pub record Core : Type 0 where
  pub encoding : Encoding
  pub file : Option String
  pub level : String

-- `parse_level` is zapcore's, as the name of the level; `dir_of` is filepath.Dir.
pub record LogPorts (W : Type 0) : Type 0 where
  pub parse_level : String → Result String
  pub dir_of : String → String
  pub mkdir_all : String → Io W Unit0
  pub open_file : String → Io W Unit0

unfoldable pub level_of : Result String → String
level_of (ok level) = level
level_of (err e) = "info"

unfoldable pub stdout_core : String → String → Core
stdout_core format level = record {
  encoding = if str_eq format "console" then console else json;
  file = none;
  level = level;
}

module _ {W : Type 0} (ports : LogPorts W) where
  with_file : List Core → String → String → Io W (List Core)
  with_file cores level path = do
    wrapped "creating log directory: " (ports.mkdir_all (ports.dir_of path))
    wrapped ("opening log file " <> (path <> ": ")) (ports.open_file path)
    pure (cores ++ record { encoding = json; file = some path; level = level } ∷ [])

  -- An unreadable level is the level info.
  unfoldable pub build_logger : LogConfig → Io W (List Core)
  unfolding with_file level_of stdout_core
  build_logger c =
      let level = level_of (ports.parse_level c.level) in
      let cores = stdout_core c.format level ∷ [] in
      if str_eq c.file "" then pure cores else with_file cores level c.file

-- What the start calls outside the repository, or through the parts that are modelled elsewhere:
-- `isoconfig.Load`, the service manager with its cleanup, the files of the boot provisioning,
-- and NATS. `wait` lasts until the signal.
pub record Ports (W : Type 0) : Type 0 where
  pub viper : Viper
  pub logs : LogPorts W
  pub sync : W → W
  pub cancel : W → W
  pub load_metadata : IsoDriveConfig → Io W IsoMetadata
  pub open_services : W → W
  pub close_services : W → W
  pub pfsense : Pfsense.Manager W
  pub files : Files W
  pub nats_connect : NatsConnect W
  pub drain : W → W
  pub subscribe : String → Io W Unit0
  pub start_publisher : Config → Identity → W → W
  pub wait : W → W

-- A deferred call, which comes last however the code ends.
abbrev pub deferred : {W A : Type 0} → (W → W) → Io W A → Io W A
deferred last m w = let (r, w') = m w in (r, last w')

abbrev pub act : {W : Type 0} → (W → W) → Io W Unit0
act f w = (ok tt, f w)

-- Metadata that cannot be resolved is taken to be none.
abbrev pub or_none : Result IsoMetadata → IsoMetadata
or_none (ok iso) = iso
or_none (err e) = none

abbrev pub tolerant : {W : Type 0} → Io W IsoMetadata → Io W IsoMetadata
tolerant m w = let (r, w') = m w in (ok (or_none r), w')

module _ {W : Type 0} (ports : Ports W) where
  -- Step 6b, on pfSense only.
  unfoldable pub provision_on : Goos → Config → IsoMetadata → Identity → W → W
  unfolding provision
  provision_on freebsd cfg iso id w =
      provision ports.files ports.pfsense ports.nats_connect ports.drain cfg.nats iso id w
  provision_on _ cfg iso id w = w

module _ {W : Type 0} (ports : Ports W) (goos : Goos) where
  -- Steps 8 to 11, with the connection.
  serve : Config → Identity → Io W Unit0
  unfolding cmd_subject
  serve cfg id = do
    wrapped "subscribing to NATS cmd subject: " (
        wrapped ("subscribing to " <> (cmd_subject id.agent_uuid <> ": "))
          (ports.subscribe (cmd_subject id.agent_uuid)))
    act (ports.start_publisher cfg id)
    act ports.wait
    act ports.cancel

  -- Steps 6b and 7, with the service manager.
  connect_and_serve : Config → IsoMetadata → Identity → Io W Unit0
  unfolding provision_on connect serve
  connect_and_serve cfg iso id = do
    act (provision_on ports goos cfg iso id)
    wrapped "NATS connection failed: "
        (connect ports.nats_connect cfg.nats id.agent_uuid id.agent_api_key none)
    deferred ports.drain (serve cfg id)

  -- Steps 4 to 11, with the real logger.
  pub start : Config → IsoMetadata → Io W Unit0
  unfolding connect_and_serve resolve_identity
  start cfg iso = do
    act ports.open_services
    deferred ports.close_services (connect_and_serve cfg iso (resolve_identity cfg.nats iso))

  -- Steps 2 and 3.
  configure : Config → Io W Unit0
  unfolding start build_logger agent_settings load
  configure boot_cfg = do
    iso ← tolerant (ports.load_metadata boot_cfg.iso)
    cfg ←
        wrapped "building config from config-drive metadata: "
          (lift (load ports.viper (agent_settings iso)))
    logger ← wrapped "building logger: " (build_logger ports.logs cfg.log)
    deferred ports.sync (start cfg iso)

  -- The whole of it, from step 1.
  unfoldable pub run : Io W Unit0
  unfolding configure build_logger load
  run = do
    boot_cfg ← wrapped "loading bootstrap config: " (lift (load ports.viper none))
    boot_logger ← wrapped "building bootstrap logger: " (build_logger ports.logs boot_cfg.log)
    deferred ports.cancel (configure boot_cfg)
