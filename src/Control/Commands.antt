-- ===== src/Control/Commands.antt =====
-- The rows of the tables that the commands of cmd/ctl/main.go print. The texts of numbers and times are
-- parameters.
pub mod Laws
use pfsense_agent.Base.{
  ℕ, zero, suc, String, ◌<>◌, Bool, true, false, Option, none, some, List, [], ◌∷◌, Result, ok, err,
  decimal, if◌then◌else◌, Unit0,
}
use pfsense_agent.Base.Int.{ℤ}
use pfsense_agent.System.{
  Float64, SystemInfo, CpuStats, MemoryStats, DiskEntry, NetworkEntry, SystemMetrics,
}
use pfsense_agent.Services.{
  ServiceState, active, inactive, failed, unknown, ServiceAction, start, stop, restart, enable,
  disable, reload, ServiceInfo,
}
use pfsense_agent.Control.Format.{FloatText, format_bytes, format_seconds}

-- A row whose cells are all there.
add_cell : Option String → Option (List String) → Option (List String)
add_cell (some cell) (some cells) = some (cell ∷ cells)
add_cell _ _ = none

unfoldable pub row_of : List (Option String) → Option (List String)
unfolding add_cell
row_of [] = some []
row_of (cell ∷ cells) = add_cell cell (row_of cells)

add_row : Option (List String) → Option (List (List String)) → Option (List (List String))
add_row (some row) (some rows) = some (row ∷ rows)
add_row _ _ = none

-- An element of the array of load averages.
average_at : ℕ → List Float64 → Option Float64
average_at i [] = none
average_at zero (x ∷ xs) = some x
average_at (suc i) (x ∷ xs) = average_at i xs

abbrev pub yes_no : Bool → String
yes_no true = "yes"
yes_no false = "no"

abbrev pub state_text : ServiceState → String
state_text active = "active"
state_text inactive = "inactive"
state_text failed = "failed"
state_text unknown = "unknown"

abbrev pub action_text : ServiceAction → String
action_text start = "start"
action_text stop = "stop"
action_text restart = "restart"
action_text enable = "enable"
action_text disable = "disable"
action_text reload = "reload"

-- The texts that packages fmt and time give to a `float64` and to the seconds of an epoch.
pub record Texts : Type 0 where
  pub show_float : FloatText
  pub show_time : ℤ → String

module _ (texts : Texts) where
  percent : Float64 → String
  percent x = texts.show_float 1 x <> "%"

  average_text : Option Float64 → Option String
  average_text none = none
  average_text (some x) = some (texts.show_float 2 x)

  unfoldable pub info_rows : SystemInfo → List (List String)
  unfolding format_seconds
  info_rows v =
      ("Hostname" ∷ v.hostname ∷ [])
      ∷ ("OS" ∷ v.os ∷ [])
      ∷ ("Kernel" ∷ v.kernel_version ∷ [])
      ∷ ("Architecture" ∷ v.architecture ∷ [])
      ∷ ("Uptime" ∷ format_seconds v.uptime ∷ [])
      ∷ ("Boot Time" ∷ texts.show_time v.boot_time ∷ [])
      ∷ ("VM ID" ∷ v.vm_id ∷ [])
      ∷ ("Tenant ID" ∷ v.tenant_id ∷ [])
      ∷ []

  unfoldable pub cpu_rows : CpuStats → Option (List (List String))
  unfolding row_of add_row average_at average_text percent
  cpu_rows v = add_row (some ("Core Count" ∷ decimal v.core_count ∷ [])) (
      add_row (some ("Usage" ∷ percent v.usage_pct ∷ [])) (
        add_row (row_of (some "Load Avg 1m" ∷ average_text (average_at 0 v.load_avg) ∷ [])) (
          add_row (row_of (some "Load Avg 5m" ∷ average_text (average_at 1 v.load_avg) ∷ [])) (
            add_row (row_of (some "Load Avg 15m" ∷ average_text (average_at 2 v.load_avg) ∷ []))
              (some [])))))

  unfoldable pub memory_rows : MemoryStats → Option (List (List String))
  unfolding row_of add_row format_bytes percent
  memory_rows v =
      add_row (row_of (some "Total RAM" ∷ format_bytes texts.show_float v.total_bytes ∷ [])) (
        add_row (row_of (some "Used RAM" ∷ format_bytes texts.show_float v.used_bytes ∷ []))
          (some (("RAM Usage" ∷ percent v.usage_pct ∷ []) ∷ [])))

  unfoldable pub disk_rows : List DiskEntry → Option (List (List String))
  unfolding row_of add_row format_bytes percent
  disk_rows [] = some []
  disk_rows (p ∷ ps) =
      add_row
        (row_of (
          some p.device
          ∷ some p.mountpoint
          ∷ format_bytes texts.show_float p.total_bytes
          ∷ format_bytes texts.show_float p.used_bytes
          ∷ some (percent p.usage_pct)
          ∷ []))
        (disk_rows ps)

  unfoldable pub network_rows : List NetworkEntry → Option (List (List String))
  unfolding row_of add_row format_bytes
  network_rows [] = some []
  network_rows (i ∷ is) =
      add_row
        (row_of (
          some i.interface
          ∷ format_bytes texts.show_float i.bytes_recv
          ∷ format_bytes texts.show_float i.bytes_sent
          ∷ some (yes_no i.is_up)
          ∷ []))
        (network_rows is)

unfoldable pub service_rows : List ServiceInfo → List (List String)
service_rows [] = []
service_rows (s ∷ ss) =
    (s.name ∷ state_text s.state ∷ s.sub_state ∷ yes_no s.enabled ∷ decimal s.pid ∷ [])
    ∷ service_rows ss

unfoldable pub service_fields : ServiceInfo → List (List String)
service_fields v =
    ("Name" ∷ v.name ∷ [])
    ∷ ("Description" ∷ v.description ∷ [])
    ∷ ("State" ∷ state_text v.state ∷ [])
    ∷ ("Sub-State" ∷ v.sub_state ∷ [])
    ∷ ("Enabled" ∷ yes_no v.enabled ∷ [])
    ∷ ("PID" ∷ decimal v.pid ∷ [])
    ∷ []
