-- ===== src/Tests/Drive.antt =====
-- The config-drive on a Linux and on a FreeBSD machine.
use pfsense_agent.Base.{ℕ, suc, String, ◌<>◌, ◌≡◌, refl, ◌⊎◌, true, none, [], ◌∷◌, ok}
use pfsense_agent.Base.Text.Split.{has_char}
use pfsense_agent.IsoConfig.Locate.{Host, is_mount_line, locate_linux, mount_info_has_config_drive}
use pfsense_agent.IsoConfig.Locate.Laws.{IsMissing, IsEnsured, locate_linux_lem}

abbrev media : String
media = "/media/plusclouds-config"

mount_shown :
    is_mount_line media
      ("/dev/cd0" <> (" on " <> (media <> (" (" <> ("cd9660" <> ("," <> " local, read-only)"))))))
    ≡ true
unfolding is_mount_line has_char
mount_shown = refl

-- A host over the number of commands that were run, where each ends well.
abbrev host : Host ℕ
host = record {
  stat = λ path n. none;
  read_file = λ path n. ok "";
  mkdir_all = λ path n. (none, n);
  execute = λ name args n. (record { stdout = ""; stderr = ""; failure = none }, suc n);
}

locate_linux_lem_example :
    IsMissing host
      (host.stat ("/dev/disk/by-label/" <> "cidata") 0)
      0
      (locate_linux host media "cidata" 0)
    ⊎ ((host.stat ("/dev/disk/by-label/" <> "cidata") 0 ≡ none)
        × IsEnsured host
            (("/dev/disk/by-label/" <> "cidata") ∷ media ∷ [])
            media
            (mount_info_has_config_drive (host.read_file "/proc/self/mountinfo" 0) media)
            0
            (locate_linux host media "cidata" 0))
locate_linux_lem_example = locate_linux_lem host media "cidata" 0
