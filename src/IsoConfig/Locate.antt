-- ===== src/IsoConfig/Locate.antt =====
-- pkg/isoconfig/locator_linux.go, locator_freebsd.go and locator_windows.go: whether the config-drive
-- is mounted, and mounting it. The file system and the commands are parameters; a line of mountinfo is no
-- longer than the 64 KB that `bufio.Scanner` takes.
pub mod Lines
pub mod Laws
use pfsense_agent.Base.{
  ℕ, zero, suc, String, ◌<>◌, Bool, true, false, ◌&&◌, ◌||◌, not, Option, none, some, List, [], ◌∷◌,
  ◌++◌, Error, wrap, Result, ok, err, str_eq, before_char, split_char, trim_space, quote, contains,
  if◌then◌else◌,
}
use pfsense_agent.Base.Text.Parts.{cut, fields}
use pfsense_agent.Executor.{Execution}
use pfsense_agent.IsoConfig.Load.{Located}

-- `stat` and `mkdir_all` give the error, and `read_file` what `os.Open` and the scanner read.
pub record Host (S : Type 0) : Type 0 where
  pub stat : String → S → Option Error
  pub read_file : String → S → Result String
  pub mkdir_all : String → S → Option Error × S
  pub execute : String → List String → S → Execution × S

any_line : (String → Bool) → List String → Bool
any_line p [] = false
any_line p (line ∷ lines) = p line || any_line p lines

-- The word at a place.
word_at : ℕ → List String → Option String
word_at i [] = none
word_at zero (w ∷ ws) = some w
word_at (suc i) (w ∷ ws) = word_at i ws

abbrev is_word : Option String → List String → Bool
is_word none texts = false
is_word (some w) texts = contains texts w

-- A line of mountinfo: the mount point is the fifth word before " - ", and the type of the file
-- system the first one after it.
mounts_drive : String → Option (String × String) → Bool
unfolding fields word_at contains
mounts_drive mount_path none = false
mounts_drive mount_path (some (pre, post)) =
    is_word (word_at 4 (fields pre)) (mount_path ∷ [])
    && is_word (word_at 0 (fields post)) ("iso9660" ∷ "udf" ∷ [])

unfoldable pub is_drive_line : String → String → Bool
unfolding mounts_drive cut
is_drive_line mount_path line = mounts_drive mount_path (cut line " - ")

abbrev in_text : (String → Bool) → Result String → Bool
in_text p (err e) = false
in_text p (ok text) = any_line p (split_char 10 text)

-- `mountInfoHasConfigDrive`
unfoldable pub mount_info_has_config_drive : Result String → String → Bool
unfolding any_line is_drive_line split_char
mount_info_has_config_drive info mount_path = in_text (is_drive_line mount_path) info

abbrev pub needle : String → String
needle mount_path = " on " <> (mount_path <> " (")

-- A line of FreeBSD's `mount`: what stands behind the mount point up to a comma or a parenthesis.
shows_drive : Option (String × String) → Bool
unfolding before_char trim_space contains
shows_drive none = false
shows_drive (some (device, rest)) =
    contains ("cd9660" ∷ "udf" ∷ []) (trim_space (before_char b')' (before_char b',' rest)))

unfoldable pub is_mount_line : String → String → Bool
unfolding shows_drive cut
is_mount_line mount_path line = shows_drive (cut line (needle mount_path))

-- `mountOutputHasConfigDrive`
unfoldable pub mount_output_has_config_drive : String → String → Bool
unfolding any_line is_mount_line split_char
mount_output_has_config_drive output mount_path = in_text (is_mount_line mount_path) (ok output)

module _ {S : Type 0} (host : Host S) where
  abbrev pub noop : S → S
  noop s = s

  abbrev pub unmount : String → S → S
  unmount mount_path s = (host.execute "umount" (mount_path ∷ []) s).1

  abbrev nowhere : Option Error → Located S
  nowhere e = record { dir = ""; failure = e; unmount = noop }

  abbrev there : String → (S → S) → Located S
  there mount_path undo = record { dir = mount_path; failure = none; unmount = undo }

  -- By how `mount` ended.
  after_mount : String → String → Execution × S → Located S × S
  unfolding quote
  after_mount device mount_path (run, s) = elim run.failure [
    | none ↦ (there mount_path (unmount mount_path), s)
    | some e ↦ (
      nowhere (
          some (
            wrap ("mounting " <> (quote device <> (" at " <> (quote mount_path <> ": ")))) e
              (" (stderr: " <> (run.stderr <> ")")))),
      s,
    )
  ]

  after_mkdir : List String → String → String → Option Error × S → Located S × S
  unfolding after_mount quote
  after_mkdir options device mount_path (some e, s) =
      (nowhere (some (wrap ("creating mount point " <> (quote mount_path <> ": ")) e "")), s)
  after_mkdir options device mount_path (none, s) =
      after_mount device mount_path (host.execute "mount" (options ++ device ∷ mount_path ∷ []) s)

  -- The same steps on both systems, once it is known whether the drive is mounted.
  ensure_mounted : List String → String → String → Bool → S → Located S × S
  unfolding after_mkdir
  ensure_mounted options device mount_path mounted s =
      if mounted
      then (there mount_path noop, s)
      else after_mkdir options device mount_path (host.mkdir_all mount_path s)

  -- By the error of `os.Stat`: no device is the expected outcome without a config-drive.
  on_label : String → String → Option Error → S → Located S × S
  unfolding ensure_mounted mount_info_has_config_drive
  on_label mount_path device (some e) s = (nowhere none, s)
  on_label mount_path device none s =
      ensure_mounted [] device mount_path
        (mount_info_has_config_drive (host.read_file "/proc/self/mountinfo" s) mount_path) s

  -- `Locate` on Linux.
  unfoldable pub locate_linux : String → String → S → Located S × S
  unfolding on_label
  locate_linux mount_path label s =
      let device = "/dev/disk/by-label/" <> label in
      on_label mount_path device (host.stat device s) s

  -- By what FreeBSD's `mount` prints.
  after_list : String → String → Execution × S → Located S × S
  unfolding ensure_mounted mount_output_has_config_drive quote
  after_list device mount_path (run, s) = elim run.failure [
    | some e ↦
        (nowhere (some (wrap ("checking mount status of " <> (quote mount_path <> ": ")) e "")), s)
    | none ↦
        ensure_mounted ("-t" ∷ "cd9660" ∷ []) device mount_path
          (mount_output_has_config_drive run.stdout mount_path) s
  ]

  on_geom : String → String → Option Error → S → Located S × S
  unfolding after_list
  on_geom mount_path device (some e) s = (nowhere none, s)
  on_geom mount_path device none s = after_list device mount_path (host.execute "mount" [] s)

  -- `Locate` on FreeBSD.
  unfoldable pub locate_freebsd : String → String → S → Located S × S
  unfolding on_geom
  locate_freebsd mount_path label s =
      let device = "/dev/iso9660/" <> label in on_geom mount_path device (host.stat device s) s

  -- By what PowerShell prints: the letter of the drive with the label.
  after_query : String → Execution × S → Located S × S
  unfolding trim_space quote
  after_query label (run, s) = elim run.failure [
    | some e ↦ (
      nowhere (
          some (
            wrap ("querying volumes for label " <> (quote label <> ": ")) e
              (" (stderr: " <> (run.stderr <> ")")))),
      s,
    )
    | none ↦ (
      if str_eq (trim_space run.stdout) ""
          then nowhere none
          else there (trim_space run.stdout <> ":\\") noop,
      s,
    )
  ]

  abbrev volume_script : String → String
  volume_script label =
      "(Get-Volume | Where-Object FileSystemLabel -eq '"
      <> (label <> "' | Select-Object -First 1).DriveLetter")

  -- `Locate` on Windows, which mounts by itself.
  unfoldable pub locate_windows : String → String → S → Located S × S
  unfolding after_query
  locate_windows mount_path label s = after_query label (
      host.execute "powershell"
        ("-NoProfile" ∷ "-NonInteractive" ∷ "-Command" ∷ volume_script label ∷ []) s)
