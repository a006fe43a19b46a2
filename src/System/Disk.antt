-- ===== src/System/Disk.antt =====
-- `GetDisk` of internal/modules/system/system.go, with the counters that it keeps between two calls.
-- gopsutil and the clock are parameters; a time is a number of nanoseconds that never goes back.
pub mod Laws
use pfsense_agent.Base.{
  ℕ, ◌+◌, ◌-◌, ◌*◌, ◌%◌, ◌^◌, String, Bool, true, false, ◌&&◌, Option, none, some, List, [], ◌∷◌,
  ◌++◌, Result, ok, err, Error, wrap, str_eq, contains, trim_prefix, ltb, if◌then◌else◌, Io,
}
use pfsense_agent.System.{Float64, DiskIo, DiskEntry}

-- `PartitionStat`, `UsageStat` and `IOCountersStat` of gopsutil, as far as they are read.
pub record Partition : Type 0 where
  pub device : String
  pub mountpoint : String
  pub fstype : String

pub record Usage : Type 0 where
  pub total : ℕ
  pub used : ℕ
  pub used_percent : Float64

pub record IoCounters : Type 0 where
  pub read_bytes : ℕ
  pub write_bytes : ℕ
  pub read_count : ℕ
  pub write_count : ℕ
  pub io_time : ℕ

-- A map by the kernel's names of the devices.
abbrev pub Table : Type 0
Table = List (String × IoCounters)

unfoldable pub find : Table → String → Option IoCounters
find [] name = none
find ((key, c) ∷ table) name =
    let rest = find table name in if str_eq name key then some c else rest

-- The counters may be a nil map, with or without an error.
pub record Host (S : Type 0) : Type 0 where
  pub partitions : Io S (List Partition)
  pub now : S → ℕ × S
  pub io_counters : S → Option Table × S
  pub usage : String → Io S Usage

-- `prevIO` and `prevIOAt` over the rest of the world: no time is the zero time.
pub record Module (S : Type 0) : Type 0 where
  pub prev_io : Option Table
  pub prev_io_at : Option ℕ
  pub world : S

unfoldable pub pseudo_fs : List String
pseudo_fs =
    "tmpfs" ∷ "devtmpfs" ∷ "proc" ∷ "sysfs" ∷ "devpts" ∷ "cgroup" ∷ "cgroup2" ∷ "pstore"
    ∷ "hugetlbfs" ∷ "mqueue" ∷ "debugfs" ∷ "tracefs" ∷ "securityfs" ∷ "fusectl" ∷ "configfs" ∷ "bpf"
    ∷ "overlay" ∷ "squashfs" ∷ "efivarfs" ∷ []

-- `elapsed`, in nanoseconds.
unfoldable pub elapsed_since : Option ℕ → ℕ → ℕ
elapsed_since none now = 0
elapsed_since (some prev_at) now = now - prev_at

-- The difference of two `uint64`.
unfoldable pub delta : ℕ → ℕ → ℕ
delta cur old = (cur + 2 ^ 64 - old) % 2 ^ 64

-- `float64(cur - old) / elapsed`, in units per second.
unfoldable pub rate : ℕ → ℕ → ℕ → Float64
unfolding delta
rate cur old elapsed = record { num = delta cur old * 1000000000; den = elapsed }

-- The milliseconds of I/O by those that have passed, in per cent, up to 100.
unfoldable pub utilisation : ℕ → ℕ → ℕ → Float64
unfolding delta
utilisation cur old elapsed =
    let hundred : Float64 = record { num = 100; den = 1 } in
    let pct : Float64 = record { num = delta cur old * 100000000; den = elapsed } in
    if ltb 0 elapsed
    then (if ltb (100 * elapsed) (delta cur old * 100000000) then hundred else pct)
    else record { num = 0; den = 1 }

unfoldable pub io_between : ℕ → IoCounters → IoCounters → DiskIo
unfolding rate utilisation
io_between elapsed cur old = record {
  read_bytes_per_s = rate cur.read_bytes old.read_bytes elapsed;
  write_bytes_per_s = rate cur.write_bytes old.write_bytes elapsed;
  read_iops = rate cur.read_count old.read_count elapsed;
  write_iops = rate cur.write_count old.write_count elapsed;
  util_pct = utilisation cur.io_time old.io_time elapsed;
}

io_found : ℕ → Option IoCounters → Option IoCounters → Option DiskIo
unfolding io_between
io_found elapsed (some cur) (some old) = some (io_between elapsed cur old)
io_found elapsed _ _ = none

io_in : ℕ → Option Table → Option Table → String → Option DiskIo
unfolding io_found find
io_in elapsed (some prev) (some cur) dev_name =
    if ltb 0 elapsed then io_found elapsed (find cur dev_name) (find prev dev_name) else none
io_in elapsed _ _ dev_name = none

-- The rates of a device, named with or without its directory.
unfoldable pub io_of : ℕ → Option Table → Option Table → String → Option DiskIo
unfolding io_in trim_prefix
io_of elapsed prev cur device = io_in elapsed prev cur (trim_prefix device "/dev/")

abbrev pub entry_of : Option DiskIo → Partition → Usage → DiskEntry
entry_of io p usage = record {
  device = p.device;
  mountpoint = p.mountpoint;
  total_bytes = usage.total;
  used_bytes = usage.used;
  usage_pct = usage.used_percent;
  io = io;
}

module _ {S : Type 0} (host : Host S) where
  -- A partition whose usage cannot be read is left out.
  with_usage :
      (Partition → Option DiskIo) → Partition → Result Usage → List DiskEntry → List DiskEntry
  with_usage io p (err e) entries = entries
  with_usage io p (ok usage) entries = entries ++ entry_of (io p) p usage ∷ []

  entries_from :
      (Partition → Option DiskIo) → List Partition → List DiskEntry → S → List DiskEntry × S
  unfolding with_usage pseudo_fs contains
  entries_from io [] entries s = (entries, s)
  entries_from io (p ∷ ps) entries s =
      if contains pseudo_fs p.fstype
      then entries_from io ps entries s
      else (let (usage, s') = host.usage p.mountpoint s in
          entries_from io ps (with_usage io p usage entries) s')

  -- The snapshot, taken before the usages are read.
  measured : List Partition → Module S → Result (List DiskEntry) × Module S
  unfolding entries_from io_of elapsed_since
  measured ps m =
      let (now, s) = host.now m.world in
      let (counters, s') = host.io_counters s in
      let elapsed = elapsed_since m.prev_io_at now in
      let io = λ (p : Partition). io_of elapsed m.prev_io counters p.device in
      let (entries, s'') = entries_from io ps [] s' in
      (ok entries, record { prev_io = counters; prev_io_at = some now; world = s'' })

  with_partitions : Result (List Partition) → Module S → Result (List DiskEntry) × Module S
  unfolding measured
  with_partitions (err e) m = (err (wrap "disk.Partitions: " e ""), m)
  with_partitions (ok ps) m = measured ps m

  unfoldable pub get_disk : Io (Module S) (List DiskEntry)
  unfolding with_partitions
  get_disk m = let (ps, s) = host.partitions m.world in with_partitions ps (record m { world = s })
