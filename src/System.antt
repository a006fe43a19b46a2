-- ===== src/System.antt =====
-- internal/modules/system: the types of types.go and the operations of system.go as the other
-- modules call them. A `float64` is the fraction that it rounds; a denominator 0 stands for a value
-- that is no number (NaN or an infinity).
pub mod Network
pub mod Disk
pub mod Collect
use pfsense_agent.Base.{ℕ, String, Bool, List, Option, Io}
use pfsense_agent.Base.Int.{ℤ}

pub record Float64 : Type 0 where
  pub num : ℕ
  pub den : ℕ

pub record SystemInfo : Type 0 where
  pub hostname : String
  pub os : String
  pub kernel_version : String
  pub architecture : String
  pub uptime : ℤ
  pub boot_time : ℤ
  pub vm_id : String
  pub tenant_id : String

pub record CoreStat : Type 0 where
  pub id : ℕ
  pub usage_pct : Float64

pub record CpuStats : Type 0 where
  pub usage_pct : Float64
  pub core_count : ℕ
  pub load_avg : List Float64
  pub cores : List CoreStat

pub record MemoryStats : Type 0 where
  pub total_bytes : ℕ
  pub used_bytes : ℕ
  pub usage_pct : Float64

pub record DiskIo : Type 0 where
  pub read_bytes_per_s : Float64
  pub write_bytes_per_s : Float64
  pub read_iops : Float64
  pub write_iops : Float64
  pub util_pct : Float64

pub record DiskEntry : Type 0 where
  pub device : String
  pub mountpoint : String
  pub total_bytes : ℕ
  pub used_bytes : ℕ
  pub usage_pct : Float64
  pub io : Option DiskIo

pub record NetworkEntry : Type 0 where
  pub interface : String
  pub bytes_sent : ℕ
  pub bytes_recv : ℕ
  pub is_up : Bool

pub record SystemMetrics : Type 0 where
  pub cpu : CpuStats
  pub memory : MemoryStats
  pub disks : List DiskEntry
  pub network : List NetworkEntry

-- The methods of `system.Module`, over the world that holds its state.
pub record SystemModule (W : Type 0) : Type 0 where
  pub get_info : Io W SystemInfo
  pub get_metrics : Io W SystemMetrics
  pub get_cpu : Io W CpuStats
  pub get_memory : Io W MemoryStats
  pub get_disk : Io W (List DiskEntry)
  pub get_network : Io W (List NetworkEntry)
