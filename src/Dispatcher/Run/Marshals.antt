-- ===== src/Dispatcher/Run/Marshals.antt =====
-- The outputs of `run` in internal/dispatcher/dispatcher.go that can be marshalled.
use pfsense_agent.Base.{
  String, ◌≡◌, refl, Bool, true, Option, none, some, List, Result, ok, err, Error, Io, map_result,
  bind_result, ◌>>=◌, ◌>>◌, pure, wrap_error, fmap, wrapped, str_eq, Bool-cases, inl, inr, contains,
}
use pfsense_agent.Base.Int.{ℤ, is_positive}
use pfsense_agent.Json.{Json}
use pfsense_agent.Executor.{Execution}
use pfsense_agent.System.{SystemModule}
use pfsense_agent.Protocol.{
  Output, info, metrics, cpu, memory, disks, network, service_list, service, action, resized,
  announced, password_set, rules, rule, forwards, forward, leases, output_marshals,
}
use pfsense_agent.Dispatcher.{Goos, linux, windows, freebsd, Dispatcher}
use pfsense_agent.Dispatcher.Operation.{
  Operation, system_info, system_metrics, system_cpu, system_memory, system_disk, system_network,
  services_list, services_get, services_action, disk_resize, vm_reboot, vm_shutdown, system_update,
  agent_allowed_operations, agent_version, telemetry_set_interval, pfsense_set_password,
  firewall_list, firewall_create, firewall_delete, nat_list, nat_create, nat_delete, dhcp_leases,
  exec, switch,
}
use pfsense_agent.Dispatcher.Params.{Params, decode_tracker, decode_rule, decode_forward}
use pfsense_agent.Dispatcher.OsRelease.{debian_distro}
use pfsense_agent.Dispatcher.Run.{
  tracked, resize_target, apt_get, returned, run_tool, reboot, shutdown, after_update, apt_update,
  update, set_interval, decoded, delete_rule, delete_forward, create_rule, create_forward, run_exec,
  run_case, run_found, run,
}

-- An output that can be marshalled, or a failure.
abbrev pub fine : Result Output → Bool
fine (ok o) = output_marshals o
fine (err e) = true

-- Each reading of the system module is a number, or fails.
abbrev pub ReadsNumbers : {W : Type 0} → SystemModule W → W → Type 0
ReadsNumbers system w =
    (fine (map_result metrics (system.get_metrics w).0) ≡ true)
    × (fine (map_result cpu (system.get_cpu w).0) ≡ true)
    × (fine (map_result memory (system.get_memory w).0) ≡ true)
    × (fine (map_result disks (system.get_disk w).0) ≡ true)

fmap-fine :
    {A : Type 0} (f : A → Output)
    → ((a : A) → output_marshals (f a) ≡ true)
    → (r : Result A) → fine (map_result f r) ≡ true
fmap-fine f h (ok a) = h a
fmap-fine f h (err e) = refl

then_fine :
    {W A : Type 0} (r : Result A × W) (k : A → Io W Output)
    → ((a : A) (w : W) → fine (k a w).0 ≡ true)
    → fine (bind_result r k).0 ≡ true
then_fine (ok a, w) k h = h a w
then_fine (err e, w) k h = refl

bind_fine :
    {W A : Type 0} (m : Io W A) (k : A → Io W Output)
    → ((a : A) (w : W) → fine (k a w).0 ≡ true)
    → (w : W) → fine ((m >>= k) w).0 ≡ true
bind_fine m k h w = then_fine (m w) k h

returned-fine :
    (o : Output) → output_marshals o ≡ true → (e : Option Error) → fine (returned o e) ≡ true
returned-fine o h none = h
returned-fine o h (some e) = refl

module _ {W : Type 0} (d : Dispatcher W) where
  run_tool-fine :
      (command : String) (args : List String) (w : W) → fine (run_tool d command args w).0 ≡ true
  unfolding run_tool output_marshals
  run_tool-fine command args w = returned-fine _ refl (d.ports.execute command args w).0.failure

  reboot-fine : (goos : Goos) (w : W) → fine (reboot d goos w).0 ≡ true
  unfolding reboot
  reboot-fine windows w = run_tool-fine _ _ w
  reboot-fine linux w = run_tool-fine _ _ w
  reboot-fine freebsd w = run_tool-fine _ _ w

  shutdown-fine : (goos : Goos) (w : W) → fine (shutdown d goos w).0 ≡ true
  unfolding shutdown
  shutdown-fine windows w = run_tool-fine _ _ w
  shutdown-fine linux w = run_tool-fine _ _ w
  shutdown-fine freebsd w = run_tool-fine _ _ w

  after_update-fine :
      (distro : String) (e : Execution) (o : Option Error) (w : W)
      → fine (after_update d distro e o w).0 ≡ true
  unfolding after_update output_marshals
  after_update-fine distro e none w = returned-fine _ refl (d.ports.execute "apt-get" _ w).0.failure
  after_update-fine distro e (some x) w = refl

  apt_update-fine : (distro : String) (w : W) → fine (apt_update d distro w).0 ≡ true
  unfolding apt_update output_marshals
  apt_update-fine distro w = elim (Bool-cases (str_eq distro "")) [
    | inl absent ↦ rw absent refl
    | inr found ↦ rw found (
        let (e, w') = d.ports.execute "apt-get" (apt_get "update") w in
        after_update-fine distro e e.failure w')
  ]

  update-fine : (w : W) → fine (update d w).0 ≡ true
  unfolding update
  update-fine w =
      bind_fine
        (wrapped "could not detect OS: "
          (wrapped "reading /etc/os-release: " d.ports.read_os_release))
        (λ os. apt_update d (debian_distro os)) (λ os. apt_update-fine (debian_distro os)) w

  set_interval-fine : (s : ℤ) (w : W) → fine (set_interval d s w).0 ≡ true
  unfolding set_interval output_marshals
  set_interval-fine s w = elim (Bool-cases (is_positive s)) [
    | inl positive ↦ rw positive refl
    | inr other ↦ rw other refl
  ]

  run_exec-fine :
      (command : String) (args : List String) (w : W) → fine (run_exec d command args w).0 ≡ true
  unfolding run_exec output_marshals
  run_exec-fine command args w = elim (Bool-cases (contains d.allowed_commands command)) [
    | inl listed ↦ rw listed (run_tool-fine command args w)
    | inr unlisted ↦ rw unlisted refl
  ]

  delete_rule-fine : (raw : Option Json) (w : W) → fine (delete_rule d raw w).0 ≡ true
  unfolding delete_rule output_marshals
  delete_rule-fine raw w =
      bind_fine (decoded d (decode_tracker raw))
        (λ tracker. d.ports.pfsense.delete_firewall_rule tracker >> pure (tracked d tracker))
        (λ tracker.
          bind_fine (d.ports.pfsense.delete_firewall_rule tracker) (λ u. pure (tracked d tracker))
            (λ u w'. refl))
        w

  delete_forward-fine : (raw : Option Json) (w : W) → fine (delete_forward d raw w).0 ≡ true
  unfolding delete_forward output_marshals
  delete_forward-fine raw w =
      bind_fine (decoded d (decode_tracker raw))
        (λ tracker. d.ports.pfsense.delete_port_forward tracker >> pure (tracked d tracker))
        (λ tracker.
          bind_fine (d.ports.pfsense.delete_port_forward tracker) (λ u. pure (tracked d tracker))
            (λ u w'. refl))
        w

  create_rule-fine : (raw : Option Json) (w : W) → fine (create_rule d raw w).0 ≡ true
  unfolding create_rule output_marshals
  create_rule-fine raw w =
      bind_fine (decoded d (decode_rule raw))
        (λ input. fmap rule (d.ports.pfsense.create_firewall_rule input))
        (λ input w'. fmap-fine rule (λ a. refl) (d.ports.pfsense.create_firewall_rule input w').0) w

  create_forward-fine : (raw : Option Json) (w : W) → fine (create_forward d raw w).0 ≡ true
  unfolding create_forward output_marshals
  create_forward-fine raw w =
      bind_fine (decoded d (decode_forward raw))
        (λ input. fmap forward (d.ports.pfsense.create_port_forward input))
        (λ input w'. fmap-fine forward (λ a. refl) (d.ports.pfsense.create_port_forward input w').0)
        w

  run_case-fine :
      (w : W)
      → ReadsNumbers d.ports.system w
      → (c : Operation) (p : Params) (raw : Option Json) → fine (run_case d c p raw w).0 ≡ true
  unfolding run_case output_marshals
  run_case-fine w h system_metrics p raw = h.0
  run_case-fine w h system_cpu p raw = h.1
  run_case-fine w h system_memory p raw = h.2
  run_case-fine w h system_disk p raw = h.3
  run_case-fine w h vm_reboot p raw = reboot-fine d.goos w
  run_case-fine w h vm_shutdown p raw = shutdown-fine d.goos w
  run_case-fine w h system_update p raw = update-fine w
  run_case-fine w h agent_version p raw = refl
  run_case-fine w h telemetry_set_interval p raw = set_interval-fine p.interval_s w
  run_case-fine w h firewall_create p raw = create_rule-fine raw w
  run_case-fine w h firewall_delete p raw = delete_rule-fine raw w
  run_case-fine w h nat_create p raw = create_forward-fine raw w
  run_case-fine w h nat_delete p raw = delete_forward-fine raw w
  run_case-fine w h exec p raw = run_exec-fine p.command p.args w
  run_case-fine w h system_info p raw = fmap-fine info (λ a. refl) (d.ports.system.get_info w).0
  run_case-fine w h system_network p raw =
      fmap-fine network (λ a. refl) (d.ports.system.get_network w).0
  run_case-fine w h services_list p raw =
      fmap-fine service_list (λ a. refl) (d.ports.services.list w).0
  run_case-fine w h services_get p raw =
      fmap-fine service (λ a. refl) (d.ports.services.get p.name w).0
  run_case-fine w h (services_action a) p raw =
      fmap-fine action (λ a. refl) (d.ports.services.perform a p.name w).0
  run_case-fine w h disk_resize p raw =
      fmap-fine resized (λ a. refl) (d.ports.resizer.resize (resize_target d.goos p.name) w).0
  run_case-fine w h agent_allowed_operations p raw =
      fmap-fine announced (λ a. refl)
        (wrap_error "re-publishing capabilities: " (d.ports.send_capabilities w).0)
  run_case-fine w h pfsense_set_password p raw =
      fmap-fine password_set (λ a. refl) (d.ports.pfsense.set_password p.username p.password w).0
  run_case-fine w h firewall_list p raw =
      fmap-fine rules (λ a. refl) (d.ports.pfsense.list_firewall_rules w).0
  run_case-fine w h nat_list p raw =
      fmap-fine forwards (λ a. refl) (d.ports.pfsense.list_port_forwards w).0
  run_case-fine w h dhcp_leases p raw =
      fmap-fine leases (λ a. refl) (d.ports.pfsense.list_dhcp_leases w).0

  run_found-fine :
      (w : W)
      → ReadsNumbers d.ports.system w
      → (op : String) (o : Option Operation) (p : Params) (raw : Option Json)
      → fine (run_found d op o p raw w).0 ≡ true
  unfolding run_found
  run_found-fine w h op none p raw = refl
  run_found-fine w h op (some c) p raw = run_case-fine w h c p raw

  -- If the readings of the system module are numbers, the output of every operation can be marshalled.
  pub run-fine :
      (w : W)
      → ReadsNumbers d.ports.system w
      → (op : String) (p : Params) (raw : Option Json) → fine (run d op p raw w).0 ≡ true
  unfolding run
  run-fine w h op p raw = run_found-fine w h op (switch op) p raw
