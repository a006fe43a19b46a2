-- ===== src/Pfsense/Freebsd/BootNetwork.antt =====
-- `ApplyBootNetworkConfig` of internal/modules/pfsense/pfsense_freebsd.go.
pub mod Accounts
pub mod Bare
pub mod Lookup
use pfsense_agent.Base.{
  String, ◌<>◌, Bool, true, false, Option, none, some, List, [], ◌∷◌, ◌++◌, map, Result, ok, err,
  Error, wrap, Io, str_eq, if◌then◌else◌, quote, before_char,
}
use pfsense_agent.IsoConfig.{VirtualNetworkCard, IpEntry}
use pfsense_agent.Executor.{World, Execution}
use pfsense_agent.Pfsense.{InterfaceApplyResult, BootNetworkResult}
use pfsense_agent.Pfsense.NetMatch.{
  Interface, MatchedNic, MacTable, normalize_mac, find, match_nics_by_mac,
}
use pfsense_agent.Pfsense.Freebsd.{
  Script, snapshot_php, apply_php, PlanEntry, AppliedInterface, Platform,
}
use pfsense_agent.Pfsense.Freebsd.Scripts.{run_embedded_php, stderr_or}

-- The text before the first slash.
unfoldable pub strip_cidr_suffix : String → String
unfolding before_char
strip_cidr_suffix s = before_char b'/' s

-- `matchedByMAC`: the last match of an address counts.
unfoldable pub matched_by_mac : List MatchedNic → MacTable → MacTable
matched_by_mac [] table = table
matched_by_mac (mn ∷ mns) table =
    matched_by_mac mns ((normalize_mac mn.card.mac_addr, mn.if_name) ∷ table)

abbrev unapplied : String → String → String → InterfaceApplyResult
unapplied mac_addr if_name message = record {
  mac_addr = mac_addr;
  if_name = if_name;
  logical = "";
  applied = false;
  assigned = false;
  message = message;
}

pub bare_gateway : Option String → String
unfolding strip_cidr_suffix
bare_gateway none = ""
bare_gateway (some g) = strip_cidr_suffix g

entry_for : VirtualNetworkCard → String → IpEntry → PlanEntry
unfolding bare_gateway strip_cidr_suffix
entry_for card if_name address = record {
  if_name = if_name;
  ip_addr = strip_cidr_suffix address.ip_addr;
  subnet = card.network.subnet;
  gateway = bare_gateway card.network.gateway;
  dns = map strip_cidr_suffix card.network.dns_nameservers;
  mtu = card.network.mtu;
}

-- The results so far and the plan so far.
pub record Planned : Type 0 where
  pub results : List InterfaceApplyResult
  pub plan : List PlanEntry

abbrev report : InterfaceApplyResult → Planned → Planned
report r p = record p { results = p.results ++ r ∷ [] }

-- A NIC with an interface, by its list of addresses.
plan_found : VirtualNetworkCard → String → List IpEntry → Planned → Planned
unfolding entry_for
plan_found card if_name [] p =
    report (unapplied card.mac_addr if_name "no static IP/subnet in metadata for this NIC") p
plan_found card if_name (address ∷ _) p =
    if str_eq card.network.subnet ""
    then report (unapplied card.mac_addr if_name "no static IP/subnet in metadata for this NIC") p
    else record p { plan = p.plan ++ entry_for card if_name address ∷ [] }

unfoldable pub plan_card : VirtualNetworkCard → Option String → Planned → Planned
unfolding plan_found
plan_card card none p =
    report (unapplied card.mac_addr "" "no local network interface with this MAC address") p
plan_card card (some if_name) p = plan_found card if_name card.ip_list p

unfoldable pub plan_cards : MacTable → List VirtualNetworkCard → Planned → Planned
plan_cards table [] p = p
plan_cards table (card ∷ cards) p =
    plan_cards table cards (plan_card card (find (normalize_mac card.mac_addr) table) p)

-- The plan for the NICs on the local interfaces.
unfoldable pub plan_for : List VirtualNetworkCard → List Interface → Planned
plan_for cards ifaces =
    plan_cards (matched_by_mac (match_nics_by_mac cards ifaces) []) cards
      (record { results = []; plan = [] })

abbrev result_of : AppliedInterface → InterfaceApplyResult
result_of r = record {
  mac_addr = "";
  if_name = r.if_name;
  logical = r.logical;
  applied = r.applied;
  assigned = r.assigned;
  message = r.message;
}

read_applied :
    String
    → List InterfaceApplyResult
    → String
    → Result (List AppliedInterface)
    → Result (Option BootNetworkResult)
read_applied snapshot results stdout (err e) =
    err (wrap ("parsing apply script output " <> (quote stdout <> ": ")) e "")
read_applied snapshot results stdout (ok applied) =
    ok (some (record { snapshot = some snapshot; interfaces = results ++ map result_of applied }))

module _ {S : Type 0} (host : Platform S) where
  apply_result :
      String
      → List InterfaceApplyResult
      → Execution
      → Option Error
      → Result (Option BootNetworkResult)
  unfolding read_applied
  apply_result snapshot results run (some e) = ok (
      some (record {
        snapshot = some snapshot;
        interfaces =
            results ++ unapplied "" "" ("apply script failed: " <> stderr_or run.stderr e) ∷ [];
      }))
  apply_result snapshot results run none =
      read_applied snapshot results run.stdout (host.codec.read_applied run.stdout)

  -- The apply script, once the snapshot script has ended.
  unfoldable pub apply_after :
      Planned → Execution → Option Error → Io (World S) (Option BootNetworkResult)
  unfolding apply_result
  apply_after p snap (some e) w =
      (err (wrap "taking network config snapshot: " e (" (" <> (snap.stderr <> ")"))), w)
  apply_after p snap none w =
      let (run, w') = run_embedded_php host apply_php (some (host.codec.write_plan p.plan)) [] w in
      (apply_result snap.stdout p.results run run.failure, w')

  unfoldable pub apply_plan : Planned → List PlanEntry → Io (World S) (Option BootNetworkResult)
  unfolding apply_after
  apply_plan p [] w = (ok (some (record { snapshot = none; interfaces = p.results })), w)
  apply_plan p (_ ∷ _) w =
      let (snap, w') = run_embedded_php host snapshot_php none [] w in
      apply_after p snap snap.failure w'

  apply_on :
      List VirtualNetworkCard → Result (List Interface) → Io (World S) (Option BootNetworkResult)
  unfolding apply_plan plan_for
  apply_on cards (err e) w = (err (wrap "listing local network interfaces: " e ""), w)
  apply_on cards (ok ifaces) w = apply_plan (plan_for cards ifaces) (plan_for cards ifaces).plan w

  unfoldable pub apply_boot_network_config :
      List VirtualNetworkCard → Io (World S) (Option BootNetworkResult)
  unfolding apply_on
  apply_boot_network_config cards w =
      let (ifaces, s) = host.interfaces w.host in apply_on cards ifaces (record w { host = s })
