-- ===== src/System/Collect/Finite.antt =====
-- When the values that internal/modules/system/system.go collects are numbers.
use pfsense_agent.Base.{
  ℕ, suc, ◌≡◌, refl, Bool, true, ◌&&◌, not, Option, none, some, List, [], ◌∷◌, Result, ok, err,
  OnOk, All, ◌==◌, ◌<◌, arith,
}
use pfsense_agent.System.{Float64, DiskIo, DiskEntry}
use pfsense_agent.System.Disk.Laws.{IsMeasured}
use pfsense_agent.System.Collect.{AvgStat, overall, cores_from, cores_of, averages_of}
use pfsense_agent.Protocol.{is_finite, all_finite, cores_finite, io_marshals, disks_marshal}

pub and_true : (a b : Bool) → a ≡ true → b ≡ true → a && b ≡ true
and_true a b h h' = ground arith

and_left : (a b : Bool) → a && b ≡ true → a ≡ true
and_left a b h = ground arith

and_right : (a b : Bool) → a && b ≡ true → b ≡ true
and_right a b h = ground arith

finite_of : (f : Float64) → 0 < f.den → is_finite f ≡ true
unfolding is_finite
finite_of f h = ground arith

pub overall-finite : (xs : List Float64) → all_finite xs ≡ true → is_finite (overall xs) ≡ true
unfolding overall all_finite is_finite
overall-finite [] h = refl
overall-finite (x ∷ xs) h = and_left (not (x.den == 0)) (all_finite xs) h

cores_from-finite :
    (i : ℕ) (xs : List Float64) → all_finite xs ≡ true → cores_finite (cores_from i xs) ≡ true
unfolding cores_from cores_finite all_finite is_finite
cores_from-finite i [] h = refl
cores_from-finite i (x ∷ xs) h =
    and_true (not (x.den == 0)) _ (and_left (not (x.den == 0)) (all_finite xs) h)
      (cores_from-finite (suc i) xs (and_right (not (x.den == 0)) (all_finite xs) h))

pub cores_of-finite :
    (r : Result (List Float64))
    → OnOk (λ xs. all_finite xs ≡ true) r
    → cores_finite (cores_of r) ≡ true
unfolding cores_of cores_finite
cores_of-finite (err e) h = refl
cores_of-finite (ok xs) h = cores_from-finite 0 xs h

-- The three averages are numbers.
abbrev pub IsNumericAverage : AvgStat → Type 0
IsNumericAverage a =
    (is_finite a.load1 ≡ true) × (is_finite a.load5 ≡ true) × (is_finite a.load15 ≡ true)

pub averages_of-finite :
    (r : Result AvgStat) → OnOk IsNumericAverage r → all_finite (averages_of r) ≡ true
unfolding averages_of all_finite is_finite
averages_of-finite (err e) h = refl
averages_of-finite (ok a) h =
    and_true (not (a.load1.den == 0)) _ h.0
      (and_true (not (a.load5.den == 0)) _ h.1 (and_true (not (a.load15.den == 0)) _ h.2 refl))

io_marshals-IsMeasured : (io : Option DiskIo) → IsMeasured io → io_marshals io ≡ true
unfolding io_marshals
io_marshals-IsMeasured none h = refl
io_marshals-IsMeasured (some io) (read, write, reads, writes, util) =
    rw
      (
        finite_of io.read_bytes_per_s read,
        finite_of io.write_bytes_per_s write,
        finite_of io.read_iops reads,
        finite_of io.write_iops writes,
        finite_of io.util_pct util.0,
      )
      refl

pub disks_marshal-All :
    (ds : List DiskEntry)
    → All (λ (d : DiskEntry). is_finite d.usage_pct ≡ true) ds
    → All (λ (d : DiskEntry). IsMeasured d.io) ds
    → disks_marshal ds ≡ true
unfolding disks_marshal
disks_marshal-All [] h h' = refl
disks_marshal-All (d ∷ ds) h h' =
    and_true (is_finite d.usage_pct && io_marshals d.io) (disks_marshal ds)
      (and_true (is_finite d.usage_pct) (io_marshals d.io) h.0 (io_marshals-IsMeasured d.io h'.0))
      (disks_marshal-All ds h.1 h'.1)
