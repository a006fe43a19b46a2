-- ===== src/Dispatcher/Run/Defaults.antt =====
-- What the default operations leave as it was, of those that `run` of internal/dispatcher/dispatcher.go
-- has a case for.
use pfsense_agent.Base.{
  ap, Bool, not, sym, true, false, [], ◌∷◌, String, ◌≡◌, refl, ◌∙◌, Bool-cases, inl, inr, Option,
  none, some, List, wrapped, str_eq, contains, Error,
}
use pfsense_agent.Base.Int.{ℤ, is_positive}
use pfsense_agent.Base.Results.Keeps.{Keeps, bind-Keeps}
use pfsense_agent.Json.{Json}
use pfsense_agent.Config.{default_operations}
use pfsense_agent.Config.Laws.{is_reserved, default_operations_lem}
use pfsense_agent.Dispatcher.Operation.Names.{Operation-Name}
use mathlib.Core.Bool.{true≢false}
use pfsense_agent.Services.{ServiceAction}
use pfsense_agent.Executor.{Execution}
use pfsense_agent.Dispatcher.{Ports, Dispatcher, Goos, linux, windows, freebsd}
use pfsense_agent.Dispatcher.OsRelease.{debian_distro}
use pfsense_agent.Dispatcher.Params.{Params}
use pfsense_agent.Dispatcher.Operation.{
  Operation, system_info, system_metrics, system_cpu, system_memory, system_disk, system_network,
  services_list, services_get, services_action, vm_reboot, vm_shutdown, system_update,
  agent_allowed_operations, agent_version, telemetry_set_interval, switch,
}
use pfsense_agent.Dispatcher.Run.{
  run, run_found, run_case, run_tool, reboot, shutdown, apt_get, after_update, apt_update, update,
  set_interval,
}

-- What the default operations call leaves a view of the world as it was: the readings, the services, the
-- capabilities, the interval, and the three tools that restart, stop and update the machine.
abbrev pub system_tools : List String
system_tools = "systemctl" ∷ "shutdown" ∷ "apt-get" ∷ []

pub record KeepsDefaults {W A : Type 0} (view : W → A) (ports : Ports W) : Type 0 where
  pub get_info : Keeps view ports.system.get_info
  pub get_metrics : Keeps view ports.system.get_metrics
  pub get_cpu : Keeps view ports.system.get_cpu
  pub get_memory : Keeps view ports.system.get_memory
  pub get_disk : Keeps view ports.system.get_disk
  pub get_network : Keeps view ports.system.get_network
  pub list_services : Keeps view ports.services.list
  pub get_service : (name : String) → Keeps view (ports.services.get name)
  pub perform : (a : ServiceAction) (name : String) → Keeps view (ports.services.perform a name)
  pub execute_tool :
      (command : String) (args : List String) (w : W)
      → contains system_tools command ≡ true
      → view (ports.execute command args w).1 ≡ view w
  pub send_capabilities : Keeps view ports.send_capabilities
  pub set_telemetry_interval :
      (period : ℤ) (w : W) → view (ports.set_telemetry_interval period w).1 ≡ view w
  pub read_os_release : Keeps view ports.read_os_release

not-eq-true : (b : Bool) → not b ≡ true → b ≡ false
not-eq-true true e = sym e
not-eq-true false e = refl

module _ {W A : Type 0} (view : W → A) (d : Dispatcher W) (kept : KeepsDefaults view d.ports) where
  run_tool-Keeps :
      (command : String) (args : List String)
      → contains system_tools command ≡ true
      → Keeps view (run_tool d command args)
  unfolding run_tool
  run_tool-Keeps command args listed w = kept.execute_tool command args w listed

  reboot-Keeps : (goos : Goos) → Keeps view (reboot d goos)
  unfolding reboot contains
  reboot-Keeps windows w = run_tool-Keeps "shutdown" _ refl w
  reboot-Keeps linux w = run_tool-Keeps "systemctl" _ refl w
  reboot-Keeps freebsd w = run_tool-Keeps "systemctl" _ refl w

  shutdown-Keeps : (goos : Goos) → Keeps view (shutdown d goos)
  unfolding shutdown contains
  shutdown-Keeps windows w = run_tool-Keeps "shutdown" _ refl w
  shutdown-Keeps linux w = run_tool-Keeps "systemctl" _ refl w
  shutdown-Keeps freebsd w = run_tool-Keeps "systemctl" _ refl w

  apt_get_kept : (args : List String) (w : W) → view (d.ports.execute "apt-get" args w).1 ≡ view w
  unfolding contains
  apt_get_kept args w = kept.execute_tool "apt-get" args w refl

  after_update-Keeps :
      (distro : String) (e : Execution) (failure : Option Error)
      → Keeps view (after_update d distro e failure)
  unfolding after_update
  after_update-Keeps distro e (some x) w = refl
  after_update-Keeps distro e none w = apt_get_kept (apt_get "upgrade") w

  apt_update-Keeps : (distro : String) → Keeps view (apt_update d distro)
  unfolding apt_update
  apt_update-Keeps distro w = elim (Bool-cases (str_eq distro "")) [
    | inl other ↦ rw other refl
    | inr apt ↦ rw apt (
        after_update-Keeps distro (d.ports.execute "apt-get" (apt_get "update") w).0
          (d.ports.execute "apt-get" (apt_get "update") w).0.failure
          (d.ports.execute "apt-get" (apt_get "update") w).1
        ∙ apt_get_kept (apt_get "update") w)
  ]

  update-Keeps : Keeps view (update d)
  unfolding update
  update-Keeps =
      bind-Keeps view
        (wrapped "could not detect OS: "
          (wrapped "reading /etc/os-release: " d.ports.read_os_release))
        (λ os_release. apt_update d (debian_distro os_release)) kept.read_os_release
        (λ os_release. apt_update-Keeps (debian_distro os_release))

  set_interval-Keeps : (seconds : ℤ) → Keeps view (set_interval d seconds)
  unfolding set_interval
  set_interval-Keeps seconds w = elim (Bool-cases (is_positive seconds)) [
    | inl positive ↦ rw positive (kept.set_telemetry_interval _ w)
    | inr other ↦ rw other refl
  ]

  -- The operations that the defaults allow.
  pub default_case-Keeps :
      (c : Operation)
      → is_reserved c ≡ false
      → (p : Params) (raw : Option Json) → Keeps view (run_case d c p raw)
  unfolding run_case
  default_case-Keeps system_info e p raw w = kept.get_info w
  default_case-Keeps system_metrics e p raw w = kept.get_metrics w
  default_case-Keeps system_cpu e p raw w = kept.get_cpu w
  default_case-Keeps system_memory e p raw w = kept.get_memory w
  default_case-Keeps system_disk e p raw w = kept.get_disk w
  default_case-Keeps system_network e p raw w = kept.get_network w
  default_case-Keeps services_list e p raw w = kept.list_services w
  default_case-Keeps services_get e p raw w = kept.get_service p.name w
  default_case-Keeps (services_action a) e p raw w = kept.perform a p.name w
  default_case-Keeps vm_reboot e p raw w = reboot-Keeps d.goos w
  default_case-Keeps vm_shutdown e p raw w = shutdown-Keeps d.goos w
  default_case-Keeps system_update e p raw w = update-Keeps w
  default_case-Keeps agent_allowed_operations e p raw w = kept.send_capabilities w
  default_case-Keeps agent_version e p raw w = refl
  default_case-Keeps telemetry_set_interval e p raw w = set_interval-Keeps p.interval_s w
  default_case-Keeps _ e p raw w = absurd (true≢false e)

  default_found-Keeps :
      (op : String) (c : Option Operation)
      → switch op ≡ c
      → contains default_operations op ≡ true
      → (p : Params) (raw : Option Json) → Keeps view (run_found d op c p raw)
  unfolding run_found
  default_found-Keeps op none found listed p raw w = refl
  default_found-Keeps op (some c) found listed p raw w =
      default_case-Keeps c
        (not-eq-true (is_reserved c) (
          sym (default_operations_lem c)
          ∙ (ap (contains default_operations) (((Operation-Name.1 op c).0) found) ∙ listed)))
        p raw w

  -- What the default operations call leaves as it was, they leave as it was.
  pub run_default-Keeps :
      (op : String)
      → contains default_operations op ≡ true
      → (p : Params) (raw : Option Json) → Keeps view (run d op p raw)
  unfolding run
  run_default-Keeps op listed p raw w = default_found-Keeps op (switch op) refl listed p raw w
