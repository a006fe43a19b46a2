-- ===== src/Dispatcher/Run/Keeps.antt =====
-- What `run` of internal/dispatcher/dispatcher.go leaves as it was: what all modules leave as it was.
use pfsense_agent.Base.{
  String, ◌≡◌, refl, Bool-cases, inl, inr, Option, none, some, List, Result, Io, contains, pure,
  fmap, ◌>>=◌,
}
use pfsense_agent.Base.Results.Keeps.{Keeps, bind-Keeps}
use pfsense_agent.Json.{Json}
use pfsense_agent.Pfsense.{FirewallRuleInput, PortForwardInput}
use pfsense_agent.Protocol.{rule, forward}
use pfsense_agent.Dispatcher.{Ports, Dispatcher}
use pfsense_agent.Dispatcher.Params.{Params, decode_tracker, decode_rule, decode_forward}
use pfsense_agent.Dispatcher.Operation.{
  Operation, disk_resize, pfsense_set_password, firewall_list, firewall_create, firewall_delete,
  nat_list, nat_create, nat_delete, dhcp_leases, exec, switch,
}
use pfsense_agent.Dispatcher.Run.{
  run, run_found, run_case, run_tool, decoded, tracked, delete_rule, delete_forward, create_rule,
  create_forward, run_exec,
}
use pfsense_agent.Dispatcher.Run.Defaults.{KeepsDefaults, default_case-Keeps}

-- Every call of a module leaves a view of the world as it was.
pub record KeepsPorts {W A : Type 0} (view : W → A) (ports : Ports W) : Type 0 where
  pub defaults : KeepsDefaults view ports
  pub execute :
      (command : String) (args : List String) (w : W)
      → view (ports.execute command args w).1 ≡ view w
  pub set_password :
      (user password : String) → Keeps view (ports.pfsense.set_password user password)
  pub list_firewall_rules : Keeps view ports.pfsense.list_firewall_rules
  pub create_firewall_rule :
      (input : FirewallRuleInput) → Keeps view (ports.pfsense.create_firewall_rule input)
  pub delete_firewall_rule :
      (tracker : String) → Keeps view (ports.pfsense.delete_firewall_rule tracker)
  pub list_port_forwards : Keeps view ports.pfsense.list_port_forwards
  pub create_port_forward :
      (input : PortForwardInput) → Keeps view (ports.pfsense.create_port_forward input)
  pub delete_port_forward :
      (tracker : String) → Keeps view (ports.pfsense.delete_port_forward tracker)
  pub list_dhcp_leases : Keeps view ports.pfsense.list_dhcp_leases
  pub resize : (target : String) → Keeps view (ports.resizer.resize target)

module _ {W A : Type 0} (view : W → A) (d : Dispatcher W) (kept : KeepsPorts view d.ports) where
  decoded-Keeps {ℓ} :
      {B : Type 0} {C : Type ℓ} (r : Result B) (k : B → Io W C)
      → ((b : B) → Keeps view (k b))
      → Keeps view (decoded d r >>= k)
  unfolding decoded
  decoded-Keeps r k next = bind-Keeps view (decoded d r) k (λ w. refl) next

  delete_rule-Keeps : (raw : Option Json) → Keeps view (delete_rule d raw)
  unfolding delete_rule
  delete_rule-Keeps raw = decoded-Keeps (decode_tracker raw) _ (λ tracker.
      bind-Keeps view (d.ports.pfsense.delete_firewall_rule tracker) (λ _. pure (tracked d tracker))
        (kept.delete_firewall_rule tracker) (λ _ w. refl))

  delete_forward-Keeps : (raw : Option Json) → Keeps view (delete_forward d raw)
  unfolding delete_forward
  delete_forward-Keeps raw = decoded-Keeps (decode_tracker raw) _ (λ tracker.
      bind-Keeps view (d.ports.pfsense.delete_port_forward tracker) (λ _. pure (tracked d tracker))
        (kept.delete_port_forward tracker) (λ _ w. refl))

  create_rule-Keeps : (raw : Option Json) → Keeps view (create_rule d raw)
  unfolding create_rule
  create_rule-Keeps raw =
      decoded-Keeps (decode_rule raw)
        (λ input. fmap rule (d.ports.pfsense.create_firewall_rule input))
        (λ input. kept.create_firewall_rule input)

  create_forward-Keeps : (raw : Option Json) → Keeps view (create_forward d raw)
  unfolding create_forward
  create_forward-Keeps raw =
      decoded-Keeps (decode_forward raw)
        (λ input. fmap forward (d.ports.pfsense.create_port_forward input))
        (λ input. kept.create_port_forward input)

  run_exec-Keeps : (command : String) (args : List String) → Keeps view (run_exec d command args)
  unfolding run_exec run_tool
  run_exec-Keeps command args w = elim (Bool-cases (contains d.allowed_commands command)) [
    | inl listed ↦ rw listed (kept.execute command args w)
    | inr unlisted ↦ rw unlisted refl
  ]

  run_case-Keeps :
      (c : Operation) (p : Params) (raw : Option Json) → Keeps view (run_case d c p raw)
  unfolding run_case
  run_case-Keeps disk_resize p raw w = kept.resize _ w
  run_case-Keeps pfsense_set_password p raw w = kept.set_password p.username p.password w
  run_case-Keeps firewall_list p raw w = kept.list_firewall_rules w
  run_case-Keeps firewall_create p raw w = create_rule-Keeps raw w
  run_case-Keeps firewall_delete p raw w = delete_rule-Keeps raw w
  run_case-Keeps nat_list p raw w = kept.list_port_forwards w
  run_case-Keeps nat_create p raw w = create_forward-Keeps raw w
  run_case-Keeps nat_delete p raw w = delete_forward-Keeps raw w
  run_case-Keeps dhcp_leases p raw w = kept.list_dhcp_leases w
  run_case-Keeps exec p raw w = run_exec-Keeps p.command p.args w
  run_case-Keeps c p raw w = default_case-Keeps view d kept.defaults c refl p raw w

  run_found-Keeps :
      (op : String) (c : Option Operation) (p : Params) (raw : Option Json)
      → Keeps view (run_found d op c p raw)
  unfolding run_found
  run_found-Keeps op none p raw w = refl
  run_found-Keeps op (some c) p raw w = run_case-Keeps c p raw w

  -- What every module leaves as it was, every operation leaves as it was.
  pub run-Keeps : (op : String) (p : Params) (raw : Option Json) → Keeps view (run d op p raw)
  unfolding run
  run-Keeps op p raw w = run_found-Keeps op (switch op) p raw w
