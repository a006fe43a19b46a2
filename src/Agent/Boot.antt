-- ===== src/Agent/Boot.antt =====
-- `runBootProvisioning` of cmd/agent/main.go and its two steps. The marker file is the Boolean
-- `marker`; everything else that the steps change is the world `W` of the pfSense operations.
pub mod Laws
use pfsense_agent.Base.{
  String, Bool, true, false, not, ◌&&◌, Option, none, some, List, [], ◌∷◌, Result, ok, err, Error,
  is_unauthorized, str_eq, if◌then◌else◌, Unit0, Io,
}
use pfsense_agent.Base.Int.{pos}
use pfsense_agent.Config.{NatsConfig}
use pfsense_agent.Nats.{ConnectOptions, connect}
use pfsense_agent.Agent.Identity.{Identity}
use pfsense_agent.IsoConfig.{VirtualNetworkCard, IsoMetadata, network_cards, password}
use pfsense_agent.Pfsense
use pfsense_agent.Pfsense.{BootNetworkResult, SetPasswordResult}

pub record Machine (W : Type 0) : Type 0 where
  pub marker : Bool
  pub world : W

-- What the steps call: the pfSense operations, the probing connection (the error of
-- `natsclient.Connect` without reconnects), and the error of writing the marker file.
pub record Ports (W : Type 0) : Type 0 where
  pub pfsense : Pfsense.Manager W
  pub probe : W → Option Error × W
  pub write_marker : W → Option Error × W

-- How the network step ended, by the line that it logs last.
pub data Outcome : Type 0 where
  already_done no_cards nothing_to_do no_snapshot reverted applied : Outcome
  apply_failed revert_failed marker_failed : Error → Outcome

module _ {W : Type 0} (ports : Ports W) where
  mark : Option Error × W → Outcome × Machine W
  mark (none, w) = (applied, record { marker = true; world = w })
  mark (some e, w) = (marker_failed e, record { marker = false; world = w })

  after_revert : Result Unit0 × W → Outcome × Machine W
  after_revert (ok _, w) = (reverted, record { marker = false; world = w })
  after_revert (err e, w) = (revert_failed e, record { marker = false; world = w })

  -- `len(result.Snapshot) == 0`
  unfoldable pub has_snapshot : Option String → Bool
  has_snapshot none = false
  has_snapshot (some s) = not (str_eq s "")

  undo : Option String → W → Outcome × Machine W
  unfolding after_revert has_snapshot
  undo snapshot w =
      if has_snapshot snapshot
      then after_revert (ports.pfsense.revert snapshot w)
      else (no_snapshot, record { marker = false; world = w })

  -- The probe failed, and not because the server refused the credentials.
  unfoldable pub is_unreachable : Option Error → Bool
  is_unreachable none = false
  is_unreachable (some e) = not (is_unauthorized e)

  verify : BootNetworkResult → Option Error × W → Outcome × Machine W
  unfolding undo mark is_unreachable
  verify result (e, w) =
      if is_unreachable e then undo result.snapshot w else mark (ports.write_marker w)

  after_apply : Result (Option BootNetworkResult) × W → Outcome × Machine W
  unfolding verify
  after_apply (err e, w) = (apply_failed e, record { marker = false; world = w })
  after_apply (ok none, w) = (nothing_to_do, record { marker = false; world = w })
  after_apply (ok (some result), w) = verify result (ports.probe w)

  apply_to : List VirtualNetworkCard → W → Outcome × Machine W
  unfolding after_apply
  apply_to [] w = (no_cards, record { marker = false; world = w })
  apply_to (card ∷ cards) w = after_apply (ports.pfsense.apply_boot_network_config (card ∷ cards) w)

  -- `applyBootNetworkConfig`
  unfoldable pub apply_boot_network_config : IsoMetadata → Machine W → Outcome × Machine W
  unfolding apply_to
  apply_boot_network_config iso m =
      if m.marker then (already_done, m) else apply_to (network_cards iso) m.world

  -- `applyBootPassword`; its outcome is only logged.
  unfoldable pub apply_boot_password : IsoMetadata → Machine W → Machine W
  apply_boot_password iso m =
      if str_eq (password iso) ""
      then m
      else record m { world = (ports.pfsense.set_default_user_password (password iso) m.world).1 }

  unfoldable pub run_boot_provisioning : IsoMetadata → Machine W → Machine W
  run_boot_provisioning iso m = apply_boot_password iso (apply_boot_network_config iso m).1

-- The probing connection: one attempt of fifteen seconds, drained at once if it succeeds.
abbrev pub NatsConnect : Type 0 → Type 0
NatsConnect W = String → ConnectOptions → Io W Unit0

module _ {W : Type 0} (nats_connect : NatsConnect W) (drain : W → W) where
  after_probe : Result Unit0 × W → Option Error × W
  after_probe (ok _, w) = (none, drain w)
  after_probe (err e, w) = (some e, w)

  unfoldable pub probe_server : NatsConfig → Identity → W → Option Error × W
  unfolding connect after_probe
  probe_server cfg id w = after_probe (
      connect nats_connect (record cfg { max_reconnects = pos 0 }) id.agent_uuid id.agent_api_key
        (some 15000000000) w)
