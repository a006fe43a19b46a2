-- ===== src/System/Collect/Laws.antt =====
-- The metrics of internal/modules/system/system.go as numbers that encoding/json can write.
use pfsense_agent.Base.{
  ℕ, String, ◌≡◌, refl, Bool, true, false, ◌&&◌, List, Result, ok, err, Io, OnOk, All, map_result,
  ◌>>=◌, pure, wrapped,
}
use pfsense_agent.Base.Results.Gives.{Gives, on_ok, wrapped-Gives, bind-Gives}
use pfsense_agent.IsoConfig.{IsoMetadata}
use pfsense_agent.System.{Float64, CpuStats, MemoryStats, DiskEntry, NetworkEntry, SystemMetrics}
use pfsense_agent.System.Disk
use pfsense_agent.System.Disk.Laws.{IsMeasured, get_disk-IsMeasured, get_disk-All}
use pfsense_agent.System.Network
use pfsense_agent.System.Collect.{
  VirtualMemoryStat, Host, overall, cores_of, averages_of, rest_of_cpu, get_cpu, get_memory,
  on_world, get_metrics, new,
}
use pfsense_agent.Protocol.{
  Output, metrics, cpu, memory, disks, is_finite, all_finite, cores_finite, cpu_marshals,
  disks_marshal, metrics_marshal, output_marshals,
}
use pfsense_agent.System.Collect.Finite.{
  and_true, overall-finite, cores_of-finite, averages_of-finite, disks_marshal-All,
  IsNumericAverage,
}
use pfsense_agent.Dispatcher.Run.Marshals.{fine, ReadsNumbers}

both :
    {A : Type 0} (P Q R : A → Type 0)
    → ((a : A) → P a → Q a → R a)
    → (r : Result A) → OnOk P r
    → OnOk Q r
    → OnOk R r
both P Q R f (ok a) p q = f a p q
both P Q R f (err e) p q = tt

-- A success that encoding/json can write.
abbrev IsFine : {A : Type 0} → (A → Output) → A → Type 0
IsFine f a = output_marshals (f a) ≡ true

fine-OnOk :
    {A : Type 0} (f : A → Output) (r : Result A) → OnOk (IsFine f) r → fine (map_result f r) ≡ true
fine-OnOk f (ok a) h = h
fine-OnOk f (err e) h = refl

abbrev pub AllFinite : List Float64 → Type 0
AllFinite xs = all_finite xs ≡ true

abbrev pub IsUsedFinite : VirtualMemoryStat → Type 0
IsUsedFinite v = is_finite v.used_percent ≡ true

abbrev pub IsUsageFinite : Disk.Usage → Type 0
IsUsageFinite u = is_finite u.used_percent ≡ true

module _ {S : Type 0} (host : Host S)
    (percents : (ms : ℕ) (cores : Bool) → Gives AllFinite (host.percent ms cores))
    (averages : Gives IsNumericAverage host.load_avg)
    (used : Gives IsUsedFinite host.virtual_memory)
    (usages : (path : String) → Gives IsUsageFinite (host.disk.usage path)) where
  rest_of_cpu-Gives :
      (pcts : List Float64) (n : ℕ) → AllFinite pcts → Gives (IsFine cpu) (rest_of_cpu host pcts n)
  unfolding rest_of_cpu cpu_marshals output_marshals
  rest_of_cpu-Gives pcts n h s =
      let cores = host.percent 0 true s in
      let avg = host.load_avg cores.1 in
      and_true (is_finite (overall pcts))
        (all_finite (averages_of avg.0) && cores_finite (cores_of cores.0)) (overall-finite pcts h)
        (and_true (all_finite (averages_of avg.0)) (cores_finite (cores_of cores.0))
          (averages_of-finite avg.0 (averages cores.1))
          (cores_of-finite cores.0 (percents 0 true s)))

  counted-Gives :
      (pcts : List Float64)
      → AllFinite pcts
      → Gives
          (IsFine cpu)
          (wrapped "cpu.Counts: " (host.counts true) >>= λ n. rest_of_cpu host pcts n)
  counted-Gives pcts h =
      bind-Gives (λ (n : ℕ). Unit {0}) (IsFine cpu) (wrapped "cpu.Counts: " (host.counts true))
        (λ n. rest_of_cpu host pcts n)
        (λ s. on_ok (λ n. tt) (wrapped "cpu.Counts: " (host.counts true) s).0)
        (λ n u. rest_of_cpu-Gives pcts n h)

  get_cpu-Gives : Gives (IsFine cpu) (get_cpu host)
  unfolding get_cpu
  get_cpu-Gives =
      bind-Gives AllFinite (IsFine cpu) (wrapped "cpu.Percent (overall): " (host.percent 500 false))
        (λ pcts. wrapped "cpu.Counts: " (host.counts true) >>= λ n. rest_of_cpu host pcts n)
        (wrapped-Gives AllFinite "cpu.Percent (overall): " (host.percent 500 false)
          (percents 500 false))
        counted-Gives

  get_memory-Gives : Gives (IsFine memory) (get_memory host)
  unfolding get_memory output_marshals
  get_memory-Gives =
      bind-Gives IsUsedFinite (IsFine memory) (wrapped "mem.VirtualMemory: " host.virtual_memory)
        (λ vm.
          pure
            (record { total_bytes = vm.total; used_bytes = vm.used; usage_pct = vm.used_percent }))
        (wrapped-Gives IsUsedFinite "mem.VirtualMemory: " host.virtual_memory used) (λ vm h s. h)

  get_disk-Gives : Gives (IsFine disks) (Disk.get_disk host.disk)
  unfolding output_marshals
  get_disk-Gives m =
      both (All (λ (d : DiskEntry). is_finite d.usage_pct ≡ true))
        (All (λ (d : DiskEntry). IsMeasured d.io)) (IsFine disks) disks_marshal-All
        (Disk.get_disk host.disk m).0
        (get_disk-All host.disk (λ d. is_finite d.usage_pct ≡ true)
          (λ io p s. usages p.mountpoint s) m)
        (get_disk-IsMeasured host.disk m)

  on_world-Gives :
      {A : Type 0} (P : A → Type 0) (m : Io S A) → Gives P m → Gives P (on_world host m)
  unfolding on_world
  on_world-Gives P m h w = h w.world

  abbrev Disks : Type 0
  Disks = Disk.Module S

  network_part : CpuStats → MemoryStats → List DiskEntry → Io Disks SystemMetrics
  network_part c m ds = do
    network ←
        wrapped "collecting network metrics: " (on_world host (Network.get_network host.network))
    pure (record { cpu = c; memory = m; disks = ds; network = network })

  disk_part : CpuStats → MemoryStats → Io Disks SystemMetrics
  unfolding network_part
  disk_part c m = wrapped "collecting disk metrics: " (Disk.get_disk host.disk) >>= network_part c m

  memory_part : CpuStats → Io Disks SystemMetrics
  unfolding disk_part
  memory_part c =
      wrapped "collecting memory metrics: " (on_world host (get_memory host)) >>= disk_part c

  network_part-Gives :
      (c : CpuStats) (m : MemoryStats) (ds : List DiskEntry)
      → IsFine cpu c
      → IsFine memory m
      → IsFine disks ds
      → Gives (IsFine metrics) (network_part c m ds)
  unfolding network_part output_marshals metrics_marshal
  network_part-Gives c m ds h h' h'' =
      bind-Gives (λ (n : List NetworkEntry). Unit {0}) (IsFine metrics)
        (wrapped "collecting network metrics: " (on_world host (Network.get_network host.network)))
        (λ n. pure (record { cpu = c; memory = m; disks = ds; network = n }))
        (λ s.
          on_ok (λ n. tt)
            (wrapped "collecting network metrics: "
              (on_world host (Network.get_network host.network)) s).0)
        (λ n u s.
          and_true (cpu_marshals c) (is_finite m.usage_pct && disks_marshal ds) h
            (and_true (is_finite m.usage_pct) (disks_marshal ds) h' h''))

  disk_part-Gives :
      (c : CpuStats) (m : MemoryStats)
      → IsFine cpu c
      → IsFine memory m
      → Gives (IsFine metrics) (disk_part c m)
  unfolding disk_part
  disk_part-Gives c m h h' =
      bind-Gives (IsFine disks) (IsFine metrics)
        (wrapped "collecting disk metrics: " (Disk.get_disk host.disk)) (network_part c m)
        (wrapped-Gives (IsFine disks) "collecting disk metrics: " (Disk.get_disk host.disk)
          get_disk-Gives)
        (λ ds h''. network_part-Gives c m ds h h' h'')

  memory_part-Gives : (c : CpuStats) → IsFine cpu c → Gives (IsFine metrics) (memory_part c)
  unfolding memory_part
  memory_part-Gives c h =
      bind-Gives (IsFine memory) (IsFine metrics)
        (wrapped "collecting memory metrics: " (on_world host (get_memory host))) (disk_part c)
        (wrapped-Gives (IsFine memory) "collecting memory metrics: "
          (on_world host (get_memory host))
          (on_world-Gives (IsFine memory) (get_memory host) get_memory-Gives))
        (λ m h'. disk_part-Gives c m h h')

  get_metrics-Gives : Gives (IsFine metrics) (get_metrics host)
  unfolding get_metrics memory_part disk_part network_part
  get_metrics-Gives =
      bind-Gives (IsFine cpu) (IsFine metrics)
        (wrapped "collecting CPU metrics: " (on_world host (get_cpu host))) memory_part
        (wrapped-Gives (IsFine cpu) "collecting CPU metrics: " (on_world host (get_cpu host))
          (on_world-Gives (IsFine cpu) (get_cpu host) get_cpu-Gives))
        memory_part-Gives

  -- Every reading of the module, in every state, is a number that encoding/json can write, or fails, if
  -- the percentages and the averages that gopsutil gives are numbers: the rates of the disks and
  -- their utilisation, which the module computes, always are.
  pub new-ReadsNumbers : (iso : IsoMetadata) (m : Disk.Module S) → ReadsNumbers (new host iso) m
  unfolding new
  new-ReadsNumbers iso m = (
    fine-OnOk metrics (get_metrics host m).0 (get_metrics-Gives m),
    fine-OnOk cpu (on_world host (get_cpu host) m).0
        (on_world-Gives (IsFine cpu) (get_cpu host) get_cpu-Gives m),
    fine-OnOk memory (on_world host (get_memory host) m).0
        (on_world-Gives (IsFine memory) (get_memory host) get_memory-Gives m),
    fine-OnOk disks (Disk.get_disk host.disk m).0 (get_disk-Gives m),
  )
