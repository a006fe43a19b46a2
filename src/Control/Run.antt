-- ===== src/Control/Run.antt =====
-- The commands of cmd/ctl/main.go: what each asks the agent for, and how it shows the answer.
-- encoding/json at the types that are shown is a parameter.
pub mod Printers
pub mod Laws
use pfsense_agent.Base.{
  String, ◌<>◌, Bool, true, false, Option, none, some, List, [], ◌∷◌, Result, ok, err, Unit0,
  if◌then◌else◌,
}
use pfsense_agent.Json.{Json}
use pfsense_agent.System.{SystemInfo, CpuStats, MemoryStats, DiskEntry, NetworkEntry, SystemMetrics}
use pfsense_agent.Services.{ServiceAction, ServiceInfo, ActionResult}
use pfsense_agent.Control.Table.{Screen, stdout, print, print_table, print_success, print_error}
use pfsense_agent.Control.Client.{Settings, Http, RequestOption, with_method}
use pfsense_agent.Control.Fetch.{Codec, Ended, Printer, fetch_and_print, fetch_raw_and_print}
use pfsense_agent.Control.Commands.{
  Texts, info_rows, cpu_rows, memory_rows, disk_rows, network_rows, service_rows, service_fields,
  action_text,
}

pub data Command : Type 0 where
  system_info system_metrics system_cpu system_memory system_disk system_network : Command
  service_list : Command
  service_get : String → Command
  service_action : ServiceAction → String → Command
  metadata_show metadata_instance metadata_network : Command
  agent_status agent_version : Command

pub record Codecs : Type 0 where
  pub info : Codec SystemInfo
  pub metrics : Codec SystemMetrics
  pub cpu : Codec CpuStats
  pub memory : Codec MemoryStats
  pub disk : Codec (List DiskEntry)
  pub network : Codec (List NetworkEntry)
  pub services : Codec (List ServiceInfo)
  pub service : Codec ServiceInfo
  pub action : Codec ActionResult
  pub raw : Json → Result String

unfoldable pub path_of : Command → String
path_of system_info = "/api/v1/system/info"
path_of system_metrics = "/api/v1/system/metrics"
path_of system_cpu = "/api/v1/system/cpu"
path_of system_memory = "/api/v1/system/memory"
path_of system_disk = "/api/v1/system/disk"
path_of system_network = "/api/v1/system/network"
path_of service_list = "/api/v1/services"
path_of (service_get name) = "/api/v1/services/" <> name
path_of (service_action action name) = "/api/v1/services/" <> (name <> ("/" <> action_text action))
path_of metadata_show = "/api/v1/metadata"
path_of metadata_instance = "/api/v1/metadata/instance"
path_of metadata_network = "/api/v1/metadata/network"
path_of agent_status = "/healthz"
path_of agent_version = ""

abbrev pub options_of : Command → List RequestOption
options_of (service_action action name) = with_method "POST" ∷ []
options_of _ = []

abbrev fields : List String
fields = "Field" ∷ "Value" ∷ []

abbrev disk_headers : List String
disk_headers = "Device" ∷ "Mountpoint" ∷ "Total" ∷ "Used" ∷ "Use%" ∷ []

abbrev network_headers : List String
network_headers = "Interface" ∷ "Bytes Recv" ∷ "Bytes Sent" ∷ "Up" ∷ []

module _ {W : Type 0} where
  shown_rows : List String → Option (List (List String)) → Screen W → Option (Screen W)
  unfolding print_table
  shown_rows headers none s = none
  shown_rows headers (some rows) s = some (print_table headers rows s)

  and_then : Option (Screen W) → (Screen W → Option (Screen W)) → Option (Screen W)
  and_then none f = none
  and_then (some s) f = f s

  unfoldable pub print_result : ActionResult → Screen W → Option (Screen W)
  unfolding print_success print_error
  print_result v s = some (if v.success then print_success v.message s else print_error v.message s)

  module _ (texts : Texts) where
    unfoldable pub print_cpu : Printer W CpuStats
    unfolding shown_rows cpu_rows
    print_cpu v s = shown_rows fields (cpu_rows texts v) s

    unfoldable pub print_memory : Printer W MemoryStats
    unfolding shown_rows memory_rows
    print_memory v s = shown_rows fields (memory_rows texts v) s

    unfoldable pub print_metrics : Printer W SystemMetrics
    unfolding and_then print_cpu print_memory
    print_metrics v s = and_then (print_cpu v.cpu s) (print_memory v.memory)

    unfoldable pub print_disks : Printer W (List DiskEntry)
    unfolding shown_rows disk_rows
    print_disks v s = shown_rows disk_headers (disk_rows texts v) s

    unfoldable pub print_network : Printer W (List NetworkEntry)
    unfolding shown_rows network_rows
    print_network v s = shown_rows network_headers (network_rows texts v) s

    abbrev print_info : Printer W SystemInfo
    print_info v s = some (print_table fields (info_rows texts v) s)

  abbrev print_services : Printer W (List ServiceInfo)
  print_services v s =
      some (print_table ("Name" ∷ "State" ∷ "SubState" ∷ "Enabled" ∷ "PID" ∷ []) (service_rows v) s)

  abbrev print_service : Printer W ServiceInfo
  print_service v s = some (print_table fields (service_fields v) s)

  abbrev print_version : String → Screen W → Screen W
  print_version version s = print (stdout ("plsctl version: " <> (version <> "\n"))) s

  -- The metadata and the status are shown as they come.
  abbrev show_raw : Codecs → Http W → Settings → String → Screen W → Ended W
  show_raw codecs http settings path s =
      some (fetch_raw_and_print codecs.raw http settings path [] s)

  -- One run of the tool; the version, which the build may set, is printed without a request.
  module _ (version : String) (texts : Texts) (codecs : Codecs) (http : Http W)
      (settings : Settings) where
    unfoldable pub run_command : Command → Screen W → Ended W
    unfolding fetch_and_print fetch_raw_and_print print_metrics print_disks print_network
        print_result print_cpu print_memory print_table info_rows service_rows service_fields
        path_of print
    run_command system_info s =
        fetch_and_print codecs.info (print_info texts) http settings (path_of system_info) [] s
    run_command system_metrics s =
        fetch_and_print codecs.metrics (print_metrics texts) http settings (path_of system_metrics)
          [] s
    run_command system_cpu s =
        fetch_and_print codecs.cpu (print_cpu texts) http settings (path_of system_cpu) [] s
    run_command system_memory s =
        fetch_and_print codecs.memory (print_memory texts) http settings (path_of system_memory) []
          s
    run_command system_disk s =
        fetch_and_print codecs.disk (print_disks texts) http settings (path_of system_disk) [] s
    run_command system_network s =
        fetch_and_print codecs.network (print_network texts) http settings (path_of system_network)
          [] s
    run_command service_list s =
        fetch_and_print codecs.services print_services http settings (path_of service_list) [] s
    run_command (service_get name) s =
        fetch_and_print codecs.service print_service http settings (path_of (service_get name)) [] s
    run_command (service_action action name) s =
        fetch_and_print codecs.action print_result http settings
          (path_of (service_action action name)) (options_of (service_action action name)) s
    run_command agent_version s = some (ok tt, print_version version s)
    run_command c s = show_raw codecs http settings (path_of c) s
