-- ===== src/System/Collect.antt =====
-- `GetInfo`, `GetCPU`, `GetMemory` and `GetMetrics` of internal/modules/system/system.go, and the
-- module that they form with the disks and the network. gopsutil is a parameter.
pub mod Finite
pub mod Laws
use pfsense_agent.Base.{
  ℕ, suc, zero, ◌+◌, ◌%◌, ◌^◌, String, ◌<>◌, Bool, true, false, Option, none, some, List, [], ◌∷◌,
  Result, ok, err, Error, wrap, Io, ◌>>=◌, pure, wrapped,
}
use pfsense_agent.Base.Int.{ℤ, of_bits64}
use pfsense_agent.IsoConfig.{IsoMetadata, vmid, tenant_id}
use pfsense_agent.System.{
  Float64, SystemInfo, CoreStat, CpuStats, MemoryStats, DiskEntry, NetworkEntry, SystemMetrics,
  SystemModule,
}
use pfsense_agent.System.Disk
use pfsense_agent.System.Network

-- What is read of `host.InfoStat`, `load.AvgStat` and `mem.VirtualMemoryStat`.
pub record InfoStat : Type 0 where
  pub hostname : String
  pub platform : String
  pub platform_version : String
  pub kernel_version : String
  pub kernel_arch : String
  pub uptime : ℕ
  pub boot_time : ℕ

pub record AvgStat : Type 0 where
  pub load1 : Float64
  pub load5 : Float64
  pub load15 : Float64

pub record VirtualMemoryStat : Type 0 where
  pub total : ℕ
  pub used : ℕ
  pub used_percent : Float64

-- `percent` takes the interval in milliseconds and whether to tell the cores apart, and `counts`
-- whether to count the logical ones.
pub record Host (S : Type 0) : Type 0 where
  pub info : Io S InfoStat
  pub percent : ℕ → Bool → Io S (List Float64)
  pub counts : Bool → Io S ℕ
  pub load_avg : Io S AvgStat
  pub virtual_memory : Io S VirtualMemoryStat
  pub disk : Disk.Host S
  pub network : Network.Host S

-- `int64(n)` of a `uint64`.
unfoldable pub info_of : IsoMetadata → InfoStat → SystemInfo
unfolding of_bits64 vmid
info_of iso info = record {
  hostname = info.hostname;
  os = info.platform <> (" " <> info.platform_version);
  kernel_version = info.kernel_version;
  architecture = info.kernel_arch;
  uptime = of_bits64 (info.uptime % 2 ^ 64);
  boot_time = of_bits64 (info.boot_time % 2 ^ 64);
  vm_id = vmid iso;
  tenant_id = tenant_id iso;
}

abbrev float_zero : Float64
float_zero = record { num = 0; den = 1 }

unfoldable pub overall : List Float64 → Float64
overall [] = float_zero
overall (x ∷ xs) = x

unfoldable pub cores_from : ℕ → List Float64 → List CoreStat
cores_from i [] = []
cores_from i (x ∷ xs) = record { id = i; usage_pct = x } ∷ cores_from (suc i) xs

-- Data that cannot be read is left out.
unfoldable pub cores_of : Result (List Float64) → List CoreStat
unfolding cores_from
cores_of (err e) = []
cores_of (ok pcts) = cores_from 0 pcts

unfoldable pub averages_of : Result AvgStat → List Float64
averages_of (err e) = float_zero ∷ float_zero ∷ float_zero ∷ []
averages_of (ok avg) = avg.load1 ∷ avg.load5 ∷ avg.load15 ∷ []

module _ {S : Type 0} (host : Host S) where
  -- The two readings whose failures are ignored.
  rest_of_cpu : List Float64 → ℕ → Io S CpuStats
  unfolding overall cores_of averages_of
  rest_of_cpu pcts core_count s =
      let (per_core, s') = host.percent 0 true s in
      let (avg, s'') = host.load_avg s' in
      (
        ok (record {
          usage_pct = overall pcts;
          core_count = core_count;
          load_avg = averages_of avg;
          cores = cores_of per_core;
        }),
        s'',
      )

  unfoldable pub get_cpu : Io S CpuStats
  unfolding rest_of_cpu
  get_cpu = do
    pcts ← wrapped "cpu.Percent (overall): " (host.percent 500 false)
    core_count ← wrapped "cpu.Counts: " (host.counts true)
    rest_of_cpu pcts core_count

  unfoldable pub get_memory : Io S MemoryStats
  get_memory = do
    vm ← wrapped "mem.VirtualMemory: " host.virtual_memory
    pure (record { total_bytes = vm.total; used_bytes = vm.used; usage_pct = vm.used_percent })

  unfoldable pub get_info : IsoMetadata → Io S SystemInfo
  unfolding info_of
  get_info iso = do info ← wrapped "getting host info: " host.info; pure (info_of iso info)

  -- A reading that leaves the disks' counters alone.
  unfoldable pub on_world : {A : Type 0} → Io S A → Io (Disk.Module S) A
  on_world read m = let (r, s) = read m.world in (r, record m { world = s })

  unfoldable pub get_metrics : Io (Disk.Module S) SystemMetrics
  unfolding on_world get_cpu get_memory Disk.get_disk Network.get_network
  get_metrics = do
    cpu ← wrapped "collecting CPU metrics: " (on_world get_cpu)
    memory ← wrapped "collecting memory metrics: " (on_world get_memory)
    disks ← wrapped "collecting disk metrics: " (Disk.get_disk host.disk)
    network ← wrapped "collecting network metrics: " (on_world (Network.get_network host.network))
    pure (record { cpu = cpu; memory = memory; disks = disks; network = network })

  -- The `Module` that `New` makes, as the other parts call it, and its first state.
  unfoldable pub new : IsoMetadata → SystemModule (Disk.Module S)
  unfolding on_world get_info get_metrics get_cpu get_memory Disk.get_disk Network.get_network
  new iso = record {
    get_info = on_world (get_info iso);
    get_metrics = get_metrics;
    get_cpu = on_world get_cpu;
    get_memory = on_world get_memory;
    get_disk = Disk.get_disk host.disk;
    get_network = on_world (Network.get_network host.network);
  }

abbrev pub new_state : {S : Type 0} → S → Disk.Module S
new_state s = record { prev_io = none; prev_io_at = none; world = s }
