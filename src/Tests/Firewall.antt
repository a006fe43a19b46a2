-- ===== src/Tests/Firewall.antt =====
-- The pfSense operations on a host whose scripts all print a status `ok`.
use pfsense_agent.Base.{
  ℕ, suc, ◌+◌, String, ◌≡◌, false, none, some, List, [], ◌∷◌, Result, ok, err, plain,
}
use pfsense_agent.Executor.{Executor, World}
use pfsense_agent.Pfsense.NetMatch.{Interface, match_nics_by_mac}
use pfsense_agent.Pfsense.NetMatch.Laws.{matches_of, match_nics_by_mac-eq}
use pfsense_agent.Pfsense.Freebsd.{Platform, Codec, set_password_php}
use pfsense_agent.Pfsense.Freebsd.Scripts.{IsAudited}
use pfsense_agent.Pfsense.Freebsd.Operations.{set_password}
use pfsense_agent.Pfsense.Freebsd.Operations.Secrets.{set_password-IsAudited}
use pfsense_agent.Pfsense.Freebsd.BootNetwork.{plan_for}
use pfsense_agent.IsoConfig.{VirtualNetworkCard}
use pfsense_agent.Pfsense.Freebsd.BootNetwork.Accounts.{Accounts, plan_for-Accounts}
use pfsense_agent.Tests.Fixtures.{card}

abbrev executor : Executor ℕ
executor = record {
  timeout_s = 30;
  start = λ i s.
      (record { stdout = "{}"; stderr = ""; failure = none; deadline_exceeded = false }, suc s);
}

abbrev unread : {A : Type 0} → String → Result A
unread text = err (plain "unexpected end of JSON input")

abbrev codec : Codec
codec = record {
  read_password = λ text. ok (record { status = "ok"; username = "admin" });
  read_created = unread;
  read_rules = unread;
  read_forwards = unread;
  read_leases = unread;
  read_applied = unread;
  read_restored = unread;
  write_rule = λ input. "{}";
  write_forward = λ input. "{}";
  write_plan = λ plan. "[]";
}

abbrev ifaces : List Interface
ifaces =
    record { name = "lo0"; hardware_addr = "" }
    ∷ record { name = "vtnet0"; hardware_addr = "52:54:00:aa:bb:01" }
    ∷ []

abbrev host : Platform ℕ
host = record {
  executor = executor;
  codec = codec;
  script_text = λ script. "<?php";
  make_temp_dir = λ s. (ok "/tmp/a", s + 10);
  write_file = λ path content s. (ok tt, s + 100);
  remove_all = λ path s. s + 1000;
  interfaces = λ s. (ok ifaces, s);
}

abbrev quiet : World ℕ
quiet = record { host = 0; audit = [] }

set_password-IsAudited_example :
    IsAudited host set_password_php
      (some "hunter2")
      ("admin" ∷ [])
      quiet
      (set_password host "admin" "hunter2" quiet).1.audit
set_password-IsAudited_example = set_password-IsAudited host "admin" "hunter2" quiet

match_nics_by_mac-eq_example : match_nics_by_mac (card ∷ []) ifaces ≡ matches_of ifaces (card ∷ [])
match_nics_by_mac-eq_example = match_nics_by_mac-eq (card ∷ []) ifaces

-- A NIC without a local interface, and one without a subnet.
abbrev stray : VirtualNetworkCard
stray = record card { mac_addr = "52:54:00:AA:BB:99" }

abbrev unset : VirtualNetworkCard
unset = record card { network = record card.network { subnet = "" } }

abbrev cards : List VirtualNetworkCard
cards = stray ∷ card ∷ unset ∷ []

plan_for-Accounts_example :
    Accounts ifaces cards (plan_for cards ifaces).results (plan_for cards ifaces).plan
plan_for-Accounts_example = plan_for-Accounts ifaces cards
