-- ===== src/Tests/Machine.antt =====
-- Growing a file system whose tool has to be installed, acting on a service, and the network report.
use pfsense_agent.Base.{
  arith, ◌*◌, ◌+◌, ℕ, suc, zero, has_suffix, String, ◌≡◌, refl, ◌⊎◌, Option, none, some, List, [],
  ◌∷◌, ok, Error, plain, missing_tool, is_missing_tool, str_eq, if◌then◌else◌, after_prefix,
  is_digit,
}
use pfsense_agent.Executor.{Execution}
use pfsense_agent.Services.{restart, ServiceInfo, ActionResult}
use pfsense_agent.Services.Linux.{Unit1, Bus, list, ensure_service_suffix, info_of}
use pfsense_agent.Dispatcher.{linux}
use pfsense_agent.Agent.Platform.{new_service_manager, is_done, new_service_manager_reports}
use pfsense_agent.System.Network
use pfsense_agent.DiskResize.Platforms.{drive_letter}
use pfsense_agent.DiskResize.Device.{Partition, parse_device}
use pfsense_agent.Base.Int.{pos, sub64}
use pfsense_agent.Base.Int.Laws.{IsDifference}
use pfsense_agent.DiskResize.{ResizeResult}
use pfsense_agent.DiskResize.Linux.Resize.{IsFirstAt, resize_ok, resize-IsDifference}
use pfsense_agent.DiskResize.Linux.{
  Mount, measured, resize, Host, run_or_install, install_package, grow, says_nochange,
}
use pfsense_agent.DiskResize.Linux.Laws.{IsGrown}

abbrev nvme : Partition
nvme = record { base = "nvme0n1"; number = "2" }

parsed : parse_device "nvme0n1p2" ≡ some nvme
unfolding parse_device after_prefix is_digit
parsed = refl

-- A host over the number of calls: a tool is missing until apt-get has been called.
abbrev ended : Option Error → Execution
ended e = record { stdout = ""; stderr = ""; failure = e }

abbrev bare_host : Host ℕ
bare_host = record {
  execute = λ name args w. (
    ended (
        if str_eq name "apt-get" then none else elim w [
          | zero ↦ some (missing_tool "executable file not found in $PATH")
          | suc n ↦ none
        ]),
    suc w,
  );
  stat = λ path w. some (plain "no such file");
  partitions = λ w. (ok [], w);
  usage_total = λ target w. (ok 0, w);
}

abbrev busy_host : Host ℕ
busy_host = record bare_host {
  execute = λ name args w. (ended (some (plain "device busy")), suc w);
}

installs :
    (run_or_install bare_host "resize2fs" "e2fsprogs" "e2fsprogs" ("/dev/vda" ∷ []) 1).0 ≡ ok tt
unfolding run_or_install
installs = refl

abbrev root : Mount
root = record { mountpoint = "/"; device = "/dev/vda"; fstype = "ext4" }

abbrev mounted_host : Host ℕ
mounted_host = record bare_host {
  partitions = λ w. (ok (record root { mountpoint = "/boot" } ∷ root ∷ []), w);
  usage_total = λ target w. (ok (10 * (w + 1)), w);
}

abbrev root_grown : ResizeResult
root_grown = record {
  target = "/";
  device = "/dev/vda";
  fstype = "ext4";
  before_bytes = 10;
  after_bytes = 40;
  grown_bytes = pos 30;
  message = "resized /dev/vda (ext4) at /";
}

grows : resize mounted_host "/" 0 ≡ (ok root_grown, 3)
unfolding resize sub64 grow run_or_install install_package says_nochange is_missing_tool
grows = refl

resize_ok_example :
    (mounts : List Mount) × (m : Mount) × (before after : ℕ) × (v : ℕ) × ((mounted_host.partitions
        0).0
      ≡ ok mounts)
    × IsFirstAt mounted_host "/" mounts m
    × ((mounted_host.usage_total "/" (mounted_host.partitions 0).1).0 ≡ ok before)
    × (grow mounted_host m.device m.fstype "/"
          (mounted_host.usage_total "/" (mounted_host.partitions 0).1).1
        ≡ (ok tt, v))
    × IsGrown mounted_host m.device m.fstype "/"
    × (mounted_host.usage_total "/" v ≡ (ok after, 3))
    × (root_grown ≡ measured mounted_host "/" m before after)
resize_ok_example = resize_ok mounted_host "/" 0 3 root_grown grows

resize-IsDifference_example : IsDifference root_grown.grown_bytes 40 10
resize-IsDifference_example =
    resize-IsDifference mounted_host "/" 0 3 root_grown grows (omega arith) (omega arith)

abbrev unit_of : String → Unit1
unit_of name = record {
  name = name;
  description = "";
  active_state = "active";
  sub_state = "running";
}

abbrev bus : Bus ℕ
bus = record {
  list_units = λ w. (ok (unit_of "ssh.service" ∷ unit_of "ssh.socket" ∷ []), w);
  list_units_by_name = λ name w. (ok (unit_of name ∷ []), w);
  start_unit = λ name w. (ok "done", suc w);
  stop_unit = λ name w. (ok "done", suc w);
  restart_unit = λ name w. (ok "failed", suc w);
  reload_unit = λ name w. (ok "done", suc w);
  enable_unit_file = λ name w. (ok tt, suc w);
  disable_unit_file = λ name w. (ok tt, suc w);
  daemon_reload = λ w. (none, w);
}

new_service_manager_reports_example :
    (r : ActionResult) × (((new_service_manager linux (some bus) suc).0.perform restart "ssh" 0).0
      ≡ ok r)
    × (r.action ≡ restart)
    × ((r.service ≡ "ssh") ⊎ (r.service ≡ ensure_service_suffix "ssh"))
    × (r.success ≡ is_done linux (some bus) restart "ssh" 0)
new_service_manager_reports_example =
    new_service_manager_reports linux (some bus) suc restart "ssh" 0

abbrev ssh_only : List ServiceInfo
ssh_only = info_of (unit_of "ssh.service") ∷ []

listed : (list (some bus) 0).0 ≡ ok ssh_only
unfolding list has_suffix
listed = refl

abbrev counters : List Network.Counters
counters =
    record { name = "vtnet0"; bytes_sent = 10; bytes_recv = 20 }
    ∷ record { name = "docker0"; bytes_sent = 1; bytes_recv = 2 }
    ∷ []

abbrev ifaces : List Network.Interface
ifaces = record { name = "vtnet0"; flags = "broadcast" ∷ "up" ∷ [] } ∷ []

abbrev network_host : Network.Host ℕ
network_host = record {
  io_counters = λ s. (ok counters, s + 1);
  interfaces = λ s. (ok ifaces, s + 1);
}

networked : (Network.get_network network_host 0).1 ≡ 2
unfolding Network.get_network
networked = refl

-- The resizers of the other platforms.
drive_d : drive_letter " d: " ≡ "D"
unfolding drive_letter
drive_d = refl

drive_c : drive_letter ":" ≡ "C"
unfolding drive_letter
drive_c = refl
