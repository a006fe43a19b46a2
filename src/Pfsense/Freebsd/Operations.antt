-- ===== src/Pfsense/Freebsd/Operations.antt =====
-- The operations of internal/modules/pfsense/pfsense_freebsd.go that are one script each.
pub mod Secrets
use pfsense_agent.Base.{
  String, ◌<>◌, Bool, true, false, Option, none, some, List, [], ◌∷◌, Result, ok, err, Error, plain,
  wrap, Io, str_eq, if◌then◌else◌, quote, Unit0, fmap,
}
use pfsense_agent.Executor.{World, Execution}
use pfsense_agent.Pfsense.{
  FirewallRule, FirewallRuleInput, PortForward, PortForwardInput, DhcpLease, SetPasswordResult,
}
use pfsense_agent.Pfsense.Freebsd.{
  Script, set_password_php, set_default_password_php, restore_php, firewall_list_php,
  firewall_create_php, firewall_delete_php, nat_list_php, nat_create_php, nat_delete_php,
  dhcp_list_php, PasswordOutput, CreateOutput, ListOutput, Platform,
}
use pfsense_agent.Pfsense.Freebsd.Scripts.{run_embedded_php, stderr_or}

abbrev unchanged : String → String → SetPasswordResult
unchanged username message = record { username = username; success = false; message = message }

-- The outcome of a password script; `username` is what is reported if it failed, `named` if not.
read_password_output :
    String → (PasswordOutput → String) → String → Result PasswordOutput → Result SetPasswordResult
read_password_output username named stdout (err e) =
    err (wrap ("parsing script output " <> (quote stdout <> ": ")) e "")
read_password_output username named stdout (ok out) =
    if str_eq out.status "ok"
    then ok (record { username = named out; success = true; message = "password updated" })
    else ok (unchanged username ("unexpected script status: " <> out.status))

-- An unexpected status, for the operations that make it an error.
abbrev expect_ok : {A : Type 0} → String → String → A → Result A
expect_ok what status a =
    if str_eq status "ok"
    then ok a
    else err (plain ("unexpected " <> (what <> (" script status: " <> status))))

abbrev parsed : {A B : Type 0} → String → String → Result A → (A → Result B) → Result B
parsed what stdout (err e) f =
    err (wrap ("parsing " <> (what <> (" script output " <> (quote stdout <> ": ")))) e "")
parsed what stdout (ok a) f = f a

abbrev with_stderr : String → Error → String → Error
with_stderr prefix e stderr = wrap prefix e (" (" <> (stderr <> ")"))

module _ {S : Type 0} (host : Platform S) where
  open host use {codec}

  password_result :
      String → (PasswordOutput → String) → Execution → Option Error → Result SetPasswordResult
  unfolding read_password_output
  password_result username named run (some e) = ok (unchanged username (stderr_or run.stderr e))
  password_result username named run none =
      read_password_output username named run.stdout (codec.read_password run.stdout)

  unfoldable pub set_password : String → String → Io (World S) SetPasswordResult
  unfolding password_result
  set_password username password w =
      if str_eq username ""
      then (err (plain "username must not be empty"), w)
      else if str_eq password ""
      then (err (plain "password must not be empty"), w)
      else (let (run, w') =
            run_embedded_php host set_password_php (some password) (username ∷ []) w in
          (password_result username (λ out. username) run run.failure, w'))

  unfoldable pub set_default_user_password : String → Io (World S) SetPasswordResult
  unfolding password_result
  set_default_user_password password w =
      if str_eq password ""
      then (err (plain "password must not be empty"), w)
      else (let (run, w') = run_embedded_php host set_default_password_php (some password) [] w in
          (password_result "" (λ out. out.username) run run.failure, w'))

  list_result :
      {A : Type 0}
      → String
      → String
      → (String → Result (ListOutput A))
      → Execution
      → Option Error
      → Result (List A)
  list_result listing what read run (some e) = err (with_stderr listing e run.stderr)
  list_result listing what read run none =
      parsed what run.stdout (read run.stdout) (λ out. expect_ok what out.status out.entries)

  list_script :
      {A : Type 0}
      → Script
      → String
      → String
      → (String → Result (ListOutput A))
      → Io (World S) (List A)
  unfolding list_result
  list_script script listing what read w =
      let (run, w') = run_embedded_php host script none [] w in
      (list_result listing what read run run.failure, w')

  unfoldable pub list_firewall_rules : Io (World S) (List FirewallRule)
  unfolding list_script
  list_firewall_rules =
      list_script firewall_list_php "listing firewall rules: " "firewall list" codec.read_rules

  unfoldable pub list_port_forwards : Io (World S) (List PortForward)
  unfolding list_script
  list_port_forwards =
      list_script nat_list_php "listing port forwards: " "nat list" codec.read_forwards

  unfoldable pub list_dhcp_leases : Io (World S) (List DhcpLease)
  unfolding list_script
  list_dhcp_leases =
      list_script dhcp_list_php "listing DHCP leases: " "dhcp leases list" codec.read_leases

  create_result : String → String → Execution → Option Error → Result String
  create_result creating what run (some e) = err (plain (creating <> stderr_or run.stderr e))
  create_result creating what run none =
      parsed what run.stdout (codec.read_created run.stdout)
        (λ out. expect_ok what out.status out.tracker)

  create_script : Script → String → String → String → Io (World S) String
  unfolding create_result
  create_script script creating what input w =
      let (run, w') = run_embedded_php host script (some input) [] w in
      (create_result creating what run run.failure, w')

  abbrev pub rule_of : FirewallRuleInput → String → FirewallRule
  rule_of input tracker = record {
    tracker = tracker;
    interface = input.interface;
    action = input.action;
    protocol = input.protocol;
    source = input.source;
    source_port = input.source_port;
    destination = input.destination;
    dest_port = input.dest_port;
    description = input.description;
    disabled = false;
  }

  unfoldable pub create_firewall_rule : FirewallRuleInput → Io (World S) FirewallRule
  unfolding create_script
  create_firewall_rule input = fmap (rule_of input) (
      create_script firewall_create_php "creating firewall rule: " "firewall create"
        (codec.write_rule input))

  abbrev pub forward_of : PortForwardInput → String → PortForward
  forward_of input tracker = record {
    tracker = tracker;
    interface = input.interface;
    protocol = input.protocol;
    source = input.source;
    source_port = input.source_port;
    destination = input.destination;
    dest_port = input.dest_port;
    target_ip = input.target_ip;
    target_port = input.target_port;
    description = input.description;
    disabled = false;
  }

  unfoldable pub create_port_forward : PortForwardInput → Io (World S) PortForward
  unfolding create_script
  create_port_forward input = fmap (forward_of input) (
      create_script nat_create_php "creating port forward: " "nat create"
        (codec.write_forward input))

  delete_result : String → String → Execution → Option Error → Result Unit0
  delete_result deleting tracker run none = ok tt
  delete_result deleting tracker run (some e) =
      err (plain (deleting <> (tracker <> (": " <> stderr_or run.stderr e))))

  delete_script : Script → String → String → Io (World S) Unit0
  unfolding delete_result
  delete_script script deleting tracker w =
      if str_eq tracker ""
      then (err (plain "tracker must not be empty"), w)
      else (let (run, w') = run_embedded_php host script none (tracker ∷ []) w in
          (delete_result deleting tracker run run.failure, w'))

  unfoldable pub delete_firewall_rule : String → Io (World S) Unit0
  unfolding delete_script
  delete_firewall_rule = delete_script firewall_delete_php "deleting firewall rule "

  unfoldable pub delete_port_forward : String → Io (World S) Unit0
  unfolding delete_script
  delete_port_forward = delete_script nat_delete_php "deleting port forward "

  restore_result : Execution → Option Error → Result Unit0
  restore_result run (some e) = err (with_stderr "restore script failed: " e run.stderr)
  restore_result run none =
      parsed "restore" run.stdout (codec.read_restored run.stdout)
        (λ status. expect_ok "restore" status tt)

  revert_to : String → Io (World S) Unit0
  unfolding restore_result
  revert_to snapshot w =
      if str_eq snapshot ""
      then (err (plain "empty snapshot"), w)
      else (let (run, w') = run_embedded_php host restore_php (some snapshot) [] w in
          (restore_result run run.failure, w'))

  unfoldable pub revert : Option String → Io (World S) Unit0
  unfolding revert_to
  revert none w = (err (plain "empty snapshot"), w)
  revert (some snapshot) w = revert_to snapshot w
