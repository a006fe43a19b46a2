-- ===== src/DiskResize/Linux.antt =====
-- internal/modules/diskresize/linux.go: growing a partition and its file system, with the tool that is
-- missing installed first. The command runner, package os and gopsutil are parameters.
pub mod Laws
pub mod Resize
use pfsense_agent.Base.{
  ℕ, String, ◌<>◌, Bool, true, false, not, ◌&&◌, ◌||◌, Option, none, some, List, [], ◌∷◌, Result,
  ok, err, Error, plain, wrap, is_missing_tool, Io, ◌>>=◌, ◌>>◌, pure, throw, wrapped, str_eq,
  if◌then◌else◌, quote, to_upper, has_infix, trim_prefix, Unit0,
}
use pfsense_agent.Base.Int.{sub64}
use pfsense_agent.Executor.{Execution}
use pfsense_agent.DiskResize.{ResizeResult}
use pfsense_agent.DiskResize.Device.{Partition, parse_device}

-- A mounted partition as gopsutil lists it.
pub record Mount : Type 0 where
  pub mountpoint : String
  pub device : String
  pub fstype : String

pub record Host (W : Type 0) : Type 0 where
  pub execute : String → List String → W → Execution × W
  pub stat : String → W → Option Error
  pub partitions : Io W (List Mount)
  pub usage_total : String → Io W ℕ

-- The tool ended without an error, or said that there is nothing to change.
unfoldable pub says_nochange : Execution → Bool
unfolding has_infix to_upper
says_nochange e = has_infix (to_upper (e.stdout <> e.stderr)) "NOCHANGE"

-- The loop over the package managers, with the last error that was not a missing manager.
abbrev pub managers : String → String → List (String × List String)
managers apt_pkg rhel_pkg =
    ("apt-get", "install" ∷ "-y" ∷ apt_pkg ∷ [])
    ∷ ("dnf", "install" ∷ "-y" ∷ rhel_pkg ∷ [])
    ∷ ("yum", "install" ∷ "-y" ∷ rhel_pkg ∷ [])
    ∷ []

abbrev kept_error : Option Error → Error → Option Error
kept_error last_err e = if is_missing_tool e then last_err else some e

module _ {W : Type 0} (host : Host W) where
  open host use {execute}

  -- By the error of `os.Stat` in sysfs.
  abbrev pub is_partition_sysfs : String → W → Bool
  is_partition_sysfs dev_name w =
      elim (host.stat ("/sys/class/block/" <> (dev_name <> "/partition")) w) [
        | none ↦ true
        | some e ↦ false
      ]

  none_installed : Option Error → Error
  none_installed none = plain "no supported package manager found (tried apt-get, dnf, yum)"
  none_installed (some e) = e

  -- By what the next manager gave, and the rest of the loop for each error that may be kept.
  after_install : Option Error → (Option Error → Io W Unit0) → Option Error → Io W Unit0
  after_install last_err rest none w = (ok tt, w)
  after_install last_err rest (some e) w = rest (kept_error last_err e) w

  try_managers : List (String × List String) → Option Error → Io W Unit0
  unfolding after_install none_installed
  try_managers [] last_err w = (err (none_installed last_err), w)
  try_managers ((bin, args) ∷ ms) last_err w =
      after_install last_err (try_managers ms) (execute bin args w).0.failure (execute bin args w).1

  unfoldable pub install_package : String → String → Io W Unit0
  unfolding try_managers
  install_package apt_pkg rhel_pkg = try_managers (managers apt_pkg rhel_pkg) none

  second_try : String → Execution → Option Error → Result Unit0
  second_try tool e none = ok tt
  second_try tool e (some x) =
      if says_nochange e then ok tt else err (wrap (tool <> " still failing after install: ") x "")

  after_installed : String → List String → Result Unit0 × W → Result Unit0 × W
  unfolding second_try
  after_installed tool args (err x, w) =
      (err (wrap (tool <> " not found and install failed: ") x ""), w)
  after_installed tool args (ok _, w) =
      let (e, w') = execute tool args w in (second_try tool e e.failure, w')

  first_try : String → String → String → List String → Execution → Option Error → Io W Unit0
  unfolding after_installed
  first_try tool apt_pkg rhel_pkg args e none w = (ok tt, w)
  first_try tool apt_pkg rhel_pkg args e (some x) w =
      if says_nochange e
      then (ok tt, w)
      else if not (is_missing_tool x)
      then (err x, w)
      else after_installed tool args (install_package apt_pkg rhel_pkg w)

  unfoldable pub run_or_install : String → String → String → List String → Io W Unit0
  unfolding first_try
  run_or_install tool apt_pkg rhel_pkg args w =
      let (e, w') = execute tool args w in first_try tool apt_pkg rhel_pkg args e e.failure w'

  grow_parsed : String → Option Partition → Io W Unit0
  grow_parsed device none w = (err (plain ("could not parse partition device " <> quote device)), w)
  grow_parsed device (some p) w =
      wrapped "growing partition: "
        (run_or_install "growpart" "cloud-guest-utils" "cloud-utils-growpart"
          (("/dev/" <> p.base) ∷ p.number ∷ []))
        w

  grow_partition : String → Io W Unit0
  unfolding grow_parsed
  grow_partition device w =
      if is_partition_sysfs (trim_prefix device "/dev/") w
      then grow_parsed device (parse_device (trim_prefix device "/dev/")) w
      else (ok tt, w)

  abbrev pub is_ext : String → Bool
  is_ext fstype = str_eq fstype "ext2" || (str_eq fstype "ext3" || str_eq fstype "ext4")

  grow_filesystem : String → String → String → Io W Unit0
  grow_filesystem device fstype target w =
      if is_ext fstype
      then wrapped "growing filesystem: "
          (run_or_install "resize2fs" "e2fsprogs" "e2fsprogs" (device ∷ [])) w
      else if str_eq fstype "xfs"
      then wrapped "growing filesystem: "
          (run_or_install "xfs_growfs" "xfsprogs" "xfsprogs" (target ∷ [])) w
      else (
        err (
            plain (
              "unsupported filesystem "
              <> (quote fstype <> " for resize (supported: ext2/ext3/ext4, xfs)"))),
        w,
      )

  unfoldable pub grow : String → String → String → Io W Unit0
  unfolding grow_partition grow_filesystem
  grow device fstype target = grow_partition device >> grow_filesystem device fstype target

  -- The first partition that is mounted there.
  unfoldable pub mounted_at : String → List Mount → Option Mount
  mounted_at target [] = none
  mounted_at target (m ∷ ms) =
      let rest = mounted_at target ms in if str_eq m.mountpoint target then some m else rest

  abbrev pub measured : String → Mount → ℕ → ℕ → ResizeResult
  measured target m before after = record {
    target = target;
    device = m.device;
    fstype = m.fstype;
    before_bytes = before;
    after_bytes = after;
    grown_bytes = sub64 after before;
    message = "resized " <> (m.device <> (" (" <> (m.fstype <> (") at " <> target))));
  }

  resize_mount : String → Option Mount → Io W ResizeResult
  unfolding grow
  resize_mount target none = throw (plain ("no mounted filesystem at " <> quote target))
  resize_mount target (some m) = do
    before ← wrapped ("reading usage for " <> (quote target <> ": ")) (host.usage_total target)
    grow m.device m.fstype target
    after ←
        wrapped ("reading usage for " <> (quote target <> " after resize: "))
          (host.usage_total target)
    pure (measured target m before after)

  unfoldable pub resize : String → Io W ResizeResult
  unfolding resize_mount mounted_at
  resize target = do
    mounts ← wrapped "disk.Partitions: " host.partitions
    resize_mount target (mounted_at target mounts)
