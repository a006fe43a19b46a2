-- ===== src/Dispatcher/OsRelease.antt =====
-- `detectDebianDistro` of internal/dispatcher/dispatcher.go, over the text of /etc/os-release.
use pfsense_agent.Base.{
  String, ◌||◌, List, [], ◌∷◌, str_eq, if◌then◌else◌, split_char, trim_space, has_prefix,
  trim_prefix, trim_quotes, to_lower, has_infix,
}

-- `id` and `idLike`, the last line of each kind counting.
pub record Ids : Type 0 where
  pub id : String
  pub id_like : String

abbrev read_value : String → String → String
read_value line key = to_lower (trim_quotes (trim_prefix line key))

scan_line : String → Ids → Ids
unfolding has_prefix to_lower trim_quotes trim_prefix
scan_line line ids =
    if has_prefix line "ID="
    then record ids { id = read_value line "ID=" }
    else if has_prefix line "ID_LIKE="
    then record ids { id_like = read_value line "ID_LIKE=" }
    else ids

scan_lines : List String → Ids → Ids
unfolding scan_line trim_space
scan_lines [] ids = ids
scan_lines (line ∷ lines) ids = scan_lines lines (scan_line (trim_space line) ids)

unfoldable pub is_debian : Ids → String
unfolding has_infix
is_debian ids =
    if str_eq ids.id "ubuntu"
      || (str_eq ids.id "debian"
          || (has_infix ids.id_like "ubuntu" || has_infix ids.id_like "debian"))
    then (if str_eq ids.id "" then ids.id_like else ids.id)
    else ""

-- The empty text stands for a distribution that is not based on Debian.
unfoldable pub debian_distro : String → String
unfolding scan_lines split_char is_debian
debian_distro os_release =
    is_debian (scan_lines (split_char b'\n' os_release) (record { id = ""; id_like = "" }))
