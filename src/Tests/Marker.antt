-- ===== src/Tests/Marker.antt =====
-- Two starts of an agent that configures its network at the first one.
use pfsense_agent.Base.{
  String, ℕ, ◌+◌, ◌≡◌, refl, sym, ap, true, Option, none, some, ok, Error, plain, if◌then◌else◌,
  ltb, arith,
}
use pfsense_agent.Agent.Identity.{Identity}
use pfsense_agent.Agent.Boot
use pfsense_agent.Agent.Marker.{has_marker, write_marker, Files, marker_path, provision, boot_ports}
use pfsense_agent.Agent.Marker.Laws.{provision_once}
use pfsense_agent.Nats.{connect}
use pfsense_agent.IsoConfig.{network_cards}
use pfsense_agent.Tests.Boot.{nats, metadata, manager}

-- The file is there once a hundred has been counted.
abbrev shown : ℕ → Option Error
shown w = if ltb w 100 then some (plain "no such file") else none

abbrev files : Files ℕ
files = record {
  stat = λ path w. shown w;
  dir_of = λ path. "/var/db/plusclouds-agent";
  mkdir_all = λ dir w. (ok tt, w + 1);
  write_empty = λ path w. (ok tt, w + 100);
}

shown_after : (w : ℕ) → shown (w + 100) ≡ none
shown_after w = ground arith

writes : (w v : ℕ) → files.write_empty marker_path w ≡ (ok tt, v) → files.stat marker_path v ≡ none
writes w v e = rw (sym (ap (λ p. p.1) e)) (shown_after w)

abbrev who : Identity
who = record { agent_uuid = "vm-1"; agent_api_key = "key" }

abbrev connects : Boot.NatsConnect ℕ
connects url options w = (ok tt, w + 1)

-- Nothing that happens makes the number smaller.
shown_later : (w n : ℕ) → shown w ≡ none → shown (w + n) ≡ none
shown_later w n e = ground arith

password_keeps :
    (password : String) (u : ℕ)
    → files.stat marker_path u ≡ none
    → files.stat marker_path (manager.set_default_user_password password u).1 ≡ none
password_keeps password u e = e

-- The world after the first start, and some days.
abbrev later : ℕ
later = provision files manager connects (λ w. w) nats metadata who 0 + 7

provision_once_example :
    (provision files manager connects (λ w. w) nats metadata who later
      ≡ (Boot.apply_boot_password
          (boot_ports files manager connects (λ w. w) nats who)
          metadata
          (record { marker = true; world = later })).world)
    × (has_marker files (provision files manager connects (λ w. w) nats metadata who later) ≡ true)
unfolding Boot.is_unreachable Boot.probe_server connect Boot.apply_boot_network_config network_cards
    write_marker
provision_once_example =
    provision_once files writes manager password_keeps connects (λ w. w) nats nats who who metadata
      metadata (λ u. u + 7) 0 (λ u e. shown_later u 7 e) refl refl
