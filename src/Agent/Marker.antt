-- ===== src/Agent/Marker.antt =====
-- The marker file of the boot provisioning in cmd/agent/main.go, and the provisioning with it. Package os
-- and filepath.Dir are parameters.
pub mod Laws
use pfsense_agent.Base.{
  String, Bool, true, false, Option, none, some, Result, ok, err, Error, Io, Unit0, ◌>>◌,
}
use pfsense_agent.Config.{NatsConfig}
use pfsense_agent.Agent.Identity.{Identity}
use pfsense_agent.IsoConfig.{IsoMetadata}
use pfsense_agent.Pfsense
use pfsense_agent.Agent.Boot.{Machine, NatsConnect, probe_server, run_boot_provisioning}
use pfsense_agent.Agent.Boot

-- `stat` gives the error of `os.Stat`; `write_empty` writes no bytes.
pub record Files (W : Type 0) : Type 0 where
  pub stat : String → W → Option Error
  pub dir_of : String → String
  pub mkdir_all : String → Io W Unit0
  pub write_empty : String → Io W Unit0

-- `netconfigMarkerPath`
abbrev pub marker_path : String
marker_path = "/var/db/plusclouds-agent/netconfig.applied"

abbrev error_of : {W : Type 0} → Result Unit0 × W → Option Error × W
error_of (ok _, w) = (none, w)
error_of (err e, w) = (some e, w)

module _ {W : Type 0} (files : Files W) where
  abbrev pub has_marker : W → Bool
  has_marker w = elim (files.stat marker_path w) [ none ↦ true | some e ↦ false ]

  unfoldable pub write_marker : String → W → Option Error × W
  write_marker path w = error_of ((files.mkdir_all (files.dir_of path) >> files.write_empty path) w)

  abbrev pub boot_ports :
      Pfsense.Manager W → NatsConnect W → (W → W) → NatsConfig → Identity → Boot.Ports W
  boot_ports pfsense nats_connect drain cfg id = record {
    pfsense = pfsense;
    probe = probe_server nats_connect drain cfg id;
    write_marker = write_marker marker_path;
  }

  abbrev pub machine : W → Machine W
  machine w = record { marker = has_marker w; world = w }

  -- `runBootProvisioning`, where the marker is looked up first.
  unfoldable pub provision :
      Pfsense.Manager W → NatsConnect W → (W → W) → NatsConfig → IsoMetadata → Identity → W → W
  provision pfsense nats_connect drain cfg iso id w =
      (run_boot_provisioning (boot_ports pfsense nats_connect drain cfg id) iso (machine w)).world
