-- ===== src/Dispatcher/Run.antt =====
-- `run` of internal/dispatcher/dispatcher.go: one operation, over any world of the modules.
pub mod Pace
pub mod Marshals
pub mod Depends
pub mod Timeout
pub mod Keeps
pub mod Defaults
use pfsense_agent.Base.{
  ℕ, String, ◌<>◌, Bool, true, false, not, Option, none, some, List, [], ◌∷◌, str_eq, if◌then◌else◌,
  Result, ok, err, Error, plain, wrap, Io, ◌>>=◌, ◌>>◌, pure, throw, wrapped, fmap, lift,
  wrap_error, contains, quote,
}
use pfsense_agent.Base.Int.{ℤ, is_positive, mul64, div64}
use pfsense_agent.Json.{Json}
use pfsense_agent.Executor.{Execution}
use pfsense_agent.Protocol.{
  Output, info, metrics, cpu, memory, disks, network, service_list, service, action, resized, texts,
  announced, intervals, password_set, rules, rule, forwards, forward, leases,
}
use pfsense_agent.Dispatcher.{Goos, linux, windows, freebsd, Ports, Dispatcher}
use pfsense_agent.Dispatcher.Operation.{
  Operation, system_info, system_metrics, system_cpu, system_memory, system_disk, system_network,
  services_list, services_get, services_action, disk_resize, vm_reboot, vm_shutdown, system_update,
  agent_allowed_operations, agent_version, telemetry_set_interval, pfsense_set_password,
  firewall_list, firewall_create, firewall_delete, nat_list, nat_create, nat_delete, dhcp_leases,
  exec, switch,
}
use pfsense_agent.Dispatcher.Params.{Params, decode_tracker, decode_rule, decode_forward}
use pfsense_agent.Dispatcher.OsRelease.{debian_distro}

-- A `time.Second`, in nanoseconds.
abbrev pub second : ℕ
second = 1000000000

abbrev pub resize_target : Goos → String → String
resize_target goos name = if str_eq name "" then elim goos [ windows ↦ "C" | _ ↦ "/" ] else name

abbrev outputs : Execution → Output
outputs e = texts (("stdout", e.stdout) ∷ ("stderr", e.stderr) ∷ [])

-- `return output, err`: `Dispatch` reads the output only if the error is nil.
abbrev pub returned : Output → Option Error → Result Output
returned output none = ok output
returned output (some e) = err e

abbrev pub apt_get : String → List String
apt_get step =
    "-y" ∷ "-o" ∷ "Dpkg::Options::=--force-confdef" ∷ "-o" ∷ "Dpkg::Options::=--force-confold"
    ∷ step ∷ []

module _ {W : Type 0} (d : Dispatcher W) where
  open d use {ports, allowed_commands, goos}

  -- A command whose outputs are the result.
  unfoldable pub run_tool : String → List String → Io W Output
  run_tool command args w =
      let (e, w') = ports.execute command args w in (returned (outputs e) e.failure, w')

  unfoldable pub reboot : Goos → Io W Output
  unfolding run_tool
  reboot windows = run_tool "shutdown" ("/r" ∷ "/t" ∷ "0" ∷ [])
  reboot _ = run_tool "systemctl" ("reboot" ∷ [])

  unfoldable pub shutdown : Goos → Io W Output
  unfolding run_tool
  shutdown windows = run_tool "shutdown" ("/s" ∷ "/t" ∷ "0" ∷ [])
  shutdown _ = run_tool "systemctl" ("poweroff" ∷ [])

  abbrev update_outputs : String → Execution → Execution → Output
  update_outputs distro update upgrade = texts (
      ("distro", distro)
      ∷ ("update_stdout", update.stdout)
      ∷ ("update_stderr", update.stderr)
      ∷ ("upgrade_stdout", upgrade.stdout)
      ∷ ("upgrade_stderr", upgrade.stderr)
      ∷ [])

  -- The second step, once the first has ended.
  after_update : String → Execution → Option Error → Io W Output
  after_update distro update (some e) w = (err (wrap "apt-get update failed: " e ""), w)
  after_update distro update none w =
      let (upgrade, w') = ports.execute "apt-get" (apt_get "upgrade") w in
      (returned (update_outputs distro update upgrade) upgrade.failure, w')

  apt_update : String → Io W Output
  unfolding after_update
  apt_update distro w =
      if str_eq distro ""
      then (
        err (
            plain "system.update is only supported on Ubuntu/Debian; detected OS is not apt-based"),
        w,
      )
      else (let (update, w') = ports.execute "apt-get" (apt_get "update") w in
          after_update distro update update.failure w')

  unfoldable pub update : Io W Output
  unfolding apt_update
  update = do
    os_release ←
        wrapped "could not detect OS: " (wrapped "reading /etc/os-release: " ports.read_os_release)
    apt_update (debian_distro os_release)

  -- `telemetry.set_interval`, with the product and the seconds of an `int64` number of nanoseconds.
  unfoldable pub set_interval : ℤ → Io W Output
  set_interval seconds w =
      if is_positive seconds
      then (let (applied, w') = ports.set_telemetry_interval (mul64 seconds second) w in
          (ok (intervals seconds (div64 applied second)), w'))
      else (err (plain "interval_s must be a positive integer (seconds)"), w)

  decoded : {A : Type 0} → Result A → Io W A
  decoded r = lift (wrap_error "could not decode params: " r)

  abbrev tracked : String → Output
  tracked tracker = texts (("tracker", tracker) ∷ [])

  delete_rule : Option Json → Io W Output
  unfolding decoded
  delete_rule raw = do
    tracker ← decoded (decode_tracker raw)
    ports.pfsense.delete_firewall_rule tracker
    pure (tracked tracker)

  delete_forward : Option Json → Io W Output
  unfolding decoded
  delete_forward raw = do
    tracker ← decoded (decode_tracker raw)
    ports.pfsense.delete_port_forward tracker
    pure (tracked tracker)

  create_rule : Option Json → Io W Output
  unfolding decoded
  create_rule raw = do
    input ← decoded (decode_rule raw)
    fmap rule (ports.pfsense.create_firewall_rule input)

  create_forward : Option Json → Io W Output
  unfolding decoded
  create_forward raw = do
    input ← decoded (decode_forward raw)
    fmap forward (ports.pfsense.create_port_forward input)

  unfoldable pub run_exec : String → List String → Io W Output
  run_exec command args w =
      if contains allowed_commands command
      then run_tool command args w
      else (err (plain ("command " <> (quote command <> " is not in allowed_commands"))), w)

  unfoldable pub run_case : Operation → Params → Option Json → Io W Output
  unfolding reboot shutdown update set_interval delete_rule delete_forward create_rule
      create_forward run_exec
  run_case system_info p raw = fmap info ports.system.get_info
  run_case system_metrics p raw = fmap metrics ports.system.get_metrics
  run_case system_cpu p raw = fmap cpu ports.system.get_cpu
  run_case system_memory p raw = fmap memory ports.system.get_memory
  run_case system_disk p raw = fmap disks ports.system.get_disk
  run_case system_network p raw = fmap network ports.system.get_network
  run_case services_list p raw = fmap service_list ports.services.list
  run_case services_get p raw = fmap service (ports.services.get p.name)
  run_case (services_action a) p raw = fmap action (ports.services.perform a p.name)
  run_case disk_resize p raw = fmap resized (ports.resizer.resize (resize_target goos p.name))
  run_case vm_reboot p raw = reboot goos
  run_case vm_shutdown p raw = shutdown goos
  run_case system_update p raw = update
  run_case agent_allowed_operations p raw =
      fmap announced (wrapped "re-publishing capabilities: " ports.send_capabilities)
  run_case agent_version p raw = pure (texts (("version", d.agent_version) ∷ []))
  run_case telemetry_set_interval p raw = set_interval p.interval_s
  run_case pfsense_set_password p raw =
      fmap password_set (ports.pfsense.set_password p.username p.password)
  run_case firewall_list p raw = fmap rules ports.pfsense.list_firewall_rules
  run_case firewall_create p raw = create_rule raw
  run_case firewall_delete p raw = delete_rule raw
  run_case nat_list p raw = fmap forwards ports.pfsense.list_port_forwards
  run_case nat_create p raw = create_forward raw
  run_case nat_delete p raw = delete_forward raw
  run_case dhcp_leases p raw = fmap leases ports.pfsense.list_dhcp_leases
  run_case exec p raw = run_exec p.command p.args

  run_found : String → Option Operation → Params → Option Json → Io W Output
  run_found op none p raw = throw (plain ("unknown operation " <> quote op))
  run_found op (some c) p raw = run_case c p raw

  unfoldable pub run : String → Params → Option Json → Io W Output
  unfolding run_found
  run op p raw = run_found op (switch op) p raw
