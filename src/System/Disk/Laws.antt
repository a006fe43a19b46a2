-- ===== src/System/Disk/Laws.antt =====
-- The I/O rates that `GetDisk` of internal/modules/system/system.go reports.
use mathlib.Core.Path.{subst}
use pfsense_agent.Base.{
  ℕ, ◌-◌, ◌*◌, ◌^◌, ◌≤◌, ◌<◌, String, ◌≡◌, refl, sym, Option, none, some, List, [], ◌∷◌, Result, ok,
  err, contains, ltb, if◌then◌else◌, Bool-cases, inl, inr, All, All-append, All-map, OnOk,
  trim_prefix, arith,
}
use pfsense_agent.Base.Results.Gives.{Gives, on_ok}
use pfsense_agent.System.{Float64, DiskIo, DiskEntry}
use pfsense_agent.System.Disk.{
  Partition, Usage, IoCounters, Table, find, Host, Module, pseudo_fs, elapsed_since, delta, rate,
  utilisation, io_between, io_found, io_in, io_of, entry_of, with_usage, entries_from, measured,
  with_partitions, get_disk,
}

delta_exact : (cur old : ℕ) → cur < 2 ^ 64 → old ≤ cur → delta cur old ≡ cur - old
unfolding delta
delta_exact cur old small up = omega arith

delta_wraps : (cur old : ℕ) → old < 2 ^ 64 → cur < old → delta cur old ≡ 2 ^ 64 - (old - cur)
unfolding delta
delta_wraps cur old small down = omega arith

-- A rate is the difference of the two counters over the elapsed seconds, if the counter did not go
-- back; one that went back, as a counter that starts again at 0 does, is taken to have grown by 2^64
-- less what it lost.
pub rate_lem :
    (cur old elapsed : ℕ)
    → cur < 2 ^ 64
    → old < 2 ^ 64
    → rate cur old elapsed ≡ record {
      num = (if ltb cur old then 2 ^ 64 - (old - cur) else cur - old) * 1000000000;
      den = elapsed;
    }
unfolding rate
rate_lem cur old elapsed small small' = elim (Bool-cases (ltb cur old)) [
  | inl down ↦ rw (down, delta_wraps cur old small' (ground arith)) refl
  | inr up ↦ rw (up, delta_exact cur old small (ground arith)) refl
]

abbrev pub IsPercentage : Float64 → Type 0
IsPercentage x = (0 < x.den) × (x.num ≤ 100 * x.den)

utilisation-IsPercentage : (cur old elapsed : ℕ) → IsPercentage (utilisation cur old elapsed)
unfolding utilisation
utilisation-IsPercentage cur old elapsed = ground arith

-- Rates over a time that has passed: each is a number, and the utilisation is at most 100 per cent.
abbrev pub IsMeasured : Option DiskIo → Type 0
IsMeasured none = Unit
IsMeasured (some io) =
    (0 < io.read_bytes_per_s.den)
    × (0 < io.write_bytes_per_s.den)
    × (0 < io.read_iops.den)
    × (0 < io.write_iops.den)
    × IsPercentage io.util_pct

io_found-IsMeasured :
    (elapsed : ℕ) (cur old : Option IoCounters)
    → 0 < elapsed
    → IsMeasured (io_found elapsed cur old)
unfolding io_found io_between rate
io_found-IsMeasured elapsed (some cur) (some old) h =
    (h, h, h, h, utilisation-IsPercentage cur.io_time old.io_time elapsed)
io_found-IsMeasured elapsed (some cur) none h = tt
io_found-IsMeasured elapsed none old h = tt

io_in-IsMeasured :
    (elapsed : ℕ) (prev cur : Option Table) (name : String)
    → IsMeasured (io_in elapsed prev cur name)
unfolding io_in
io_in-IsMeasured elapsed (some prev) (some cur) name = elim (Bool-cases (ltb 0 elapsed)) [
  | inl later ↦
      rw later (io_found-IsMeasured elapsed (find cur name) (find prev name) (ground arith))
  | inr same ↦ rw same tt
]
io_in-IsMeasured elapsed (some prev) none name = tt
io_in-IsMeasured elapsed none cur name = tt

module _ {S : Type 0} (host : Host S) where
  -- What holds of the entry that each reading of a usage makes holds of every entry.
  module _ (Q : DiskEntry → Type 0) where
    with_usage-All :
        (io : Partition → Option DiskIo) (p : Partition) (r : Result Usage)
        (entries : List DiskEntry)
        → OnOk (λ usage. Q (entry_of (io p) p usage)) r
        → All Q entries
        → All Q (with_usage host io p r entries)
    unfolding with_usage
    with_usage-All io p (err e) entries q h = h
    with_usage-All io p (ok usage) entries q h = All-append Q entries _ h (q, tt)

    entries_from-All :
        (io : Partition → Option DiskIo)
        → ((p : Partition) (s : S)
            → OnOk (λ usage. Q (entry_of (io p) p usage)) (host.usage p.mountpoint s).0)
        → (ps : List Partition) (entries : List DiskEntry) (s : S) → All Q entries
        → All Q (entries_from host io ps entries s).0
    unfolding entries_from
    entries_from-All io q [] entries s h = h
    entries_from-All io q (p ∷ ps) entries s h = elim (Bool-cases (contains pseudo_fs p.fstype)) [
      | inl skipped ↦ rw skipped (entries_from-All io q ps entries s h)
      | inr real ↦ rw real (
          entries_from-All io q ps _ _
            (with_usage-All io p (host.usage p.mountpoint s).0 entries (q p s) h))
    ]

  -- The rates of an entry, by the counters and the times of two readings.
  abbrev IsBetween : Module S → ℕ → Module S → DiskEntry → Type 0
  IsBetween m now m' e = e.io ≡ io_of (elapsed_since m.prev_io_at now) m.prev_io m'.prev_io e.device

  -- How a call of `GetDisk` can end, from the state before it.
  abbrev pub IsReading : Module S → Result (List DiskEntry) × Module S → Type 0
  IsReading m (err e, m') = (m'.prev_io ≡ m.prev_io) × (m'.prev_io_at ≡ m.prev_io_at)
  IsReading m (ok entries, m') =
      (now : ℕ) × (m'.prev_io_at ≡ some now) × All (IsBetween m now m') entries

  measured-IsReading :
      (ps : List Partition) (m m₀ : Module S)
      → m₀.prev_io ≡ m.prev_io
      → m₀.prev_io_at ≡ m.prev_io_at
      → IsReading m (measured host ps m₀)
  unfolding measured
  measured-IsReading ps m m₀ same same_at =
      let now = (host.now m₀.world).0 in
      let s = host.io_counters (host.now m₀.world).1 in
      (
        now,
        refl,
        entries_from-All (λ e. e.io ≡ io_of (elapsed_since m.prev_io_at now) m.prev_io s.0 e.device)
            (λ (p : Partition). io_of (elapsed_since m₀.prev_io_at now) m₀.prev_io s.0 p.device)
            (λ p s'. on_ok (λ usage. rw (same, same_at) refl) (host.usage p.mountpoint s').0) ps []
            s.1 tt,
      )

  with_partitions-IsReading :
      (r : Result (List Partition)) (m m₀ : Module S)
      → m₀.prev_io ≡ m.prev_io
      → m₀.prev_io_at ≡ m.prev_io_at
      → IsReading m (with_partitions host r m₀)
  unfolding with_partitions
  with_partitions-IsReading (err e) m m₀ same same_at = (same, same_at)
  with_partitions-IsReading (ok ps) m m₀ same same_at = measured-IsReading ps m m₀ same same_at

  -- The rates of every entry are those between the counters that the call before left and the ones that
  -- this call leaves, over the time between the two calls; a call that fails leaves the counters and
  -- the time as they were.
  pub get_disk-IsReading : (m : Module S) → IsReading m (get_disk host m)
  unfolding get_disk
  get_disk-IsReading m = with_partitions-IsReading _ m _ refl refl

  reading-All :
      (P : Option DiskIo → Type 0) (m : Module S)
      → ((now : ℕ) (cur : Option Table) (device : String)
          → P (io_of (elapsed_since m.prev_io_at now) m.prev_io cur device))
      → (r : Result (List DiskEntry)) (m' : Module S) → IsReading m (r, m')
      → OnOk (All (λ (e : DiskEntry). P e.io)) r
  reading-All P m all (err e) m' h = tt
  reading-All P m all (ok entries) m' (now, at, same) =
      All-map (λ e (h : IsBetween m now m' e). subst P (sym h) (all now m'.prev_io e.device))
        entries same

  no_time-none : (prev cur : Option Table) (name : String) → io_in 0 prev cur name ≡ none
  unfolding io_in
  no_time-none (some prev) (some cur) name = refl
  no_time-none (some prev) none name = refl
  no_time-none none cur name = refl

  -- The first call reports no rates.
  pub get_disk_first :
      (m : Module S)
      → m.prev_io_at ≡ none
      → OnOk (All (λ (e : DiskEntry). e.io ≡ none)) (get_disk host m).0
  unfolding io_of elapsed_since
  get_disk_first m first =
      reading-All (λ io. io ≡ none) m
        (λ now cur device. rw first (no_time-none m.prev_io cur (trim_prefix device "/dev/"))) _ _
        (get_disk-IsReading m)

  -- Every rate that is reported is a number, since some time has passed, and no utilisation is above
  -- 100 per cent.
  pub get_disk-IsMeasured :
      (m : Module S) → OnOk (All (λ (e : DiskEntry). IsMeasured e.io)) (get_disk host m).0
  unfolding io_of
  get_disk-IsMeasured m =
      reading-All IsMeasured m
        (λ now cur device. io_in-IsMeasured _ m.prev_io cur (trim_prefix device "/dev/")) _ _
        (get_disk-IsReading m)

  -- What every reading of a usage gives holds of every entry.
  module _ (Q : DiskEntry → Type 0)
      (q : (io : Option DiskIo) (p : Partition) (s : S)
        → OnOk (λ usage. Q (entry_of io p usage)) (host.usage p.mountpoint s).0) where
    with_partitions-All :
        (r : Result (List Partition)) (m : Module S) → OnOk (All Q) (with_partitions host r m).0
    unfolding with_partitions measured
    with_partitions-All (err e) m = tt
    with_partitions-All (ok ps) m =
        entries_from-All Q (λ p. io_of _ m.prev_io _ p.device) (λ p s. q _ p s) ps [] _ tt

    pub get_disk-All : Gives (All Q) (get_disk host)
    unfolding get_disk
    get_disk-All m = with_partitions-All (host.partitions m.world).0 _
