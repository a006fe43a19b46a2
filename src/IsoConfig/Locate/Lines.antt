-- ===== src/IsoConfig/Locate/Lines.antt =====
-- Which lines show the config-drive as mounted (pkg/isoconfig/locator_linux.go and locator_freebsd.go).
use text.Mathlib.TextLemmas.{nil-append, cons-append, append_assoc}
use pfsense_agent.Base.{
  ℕ, String, ◌<>◌, code, ◌≡◌, refl, sym, ap, ◌∙◌, true, false, ◌&&◌, ◌||◌, some, List, ◌∷◌, Char,
  ==_iff, arith, All, str_eq, ◌==◌, before_char, trim_space, contains, has_infix, join,
}
use pfsense_agent.Base.Text.Split.{has_char, or_false}
use pfsense_agent.Base.Text.Parts.{cut}
use pfsense_agent.Base.Text.Parts.Laws.{cut-append}
use pfsense_agent.Base.Text.Parts.Words.{IsWord, fields-join, cut-dash}
use pfsense_agent.IsoConfig.Locate.{
  word_at, mounts_drive, is_drive_line, needle, shows_drive, is_mount_line,
}

-- A line of mountinfo made of words shows the config-drive at a path exactly if the mount point is that
-- path and the file system's type is iso9660 or udf: a bind mount of the directory onto itself, whose
-- type is another one, does not.
pub is_drive_line_lem :
    (path id parent device root mount fstype : String) (more others : List String)
    → All IsWord (id ∷ parent ∷ device ∷ root ∷ mount ∷ more)
    → All IsWord (fstype ∷ others)
    → has_infix (join " " (id ∷ parent ∷ device ∷ root ∷ mount ∷ more)) " -" ≡ false
    → is_drive_line path (
        join " " (id ∷ parent ∷ device ∷ root ∷ mount ∷ more)
        <> (" - " <> join " " (fstype ∷ others)))
      ≡ (str_eq mount path && (str_eq fstype "iso9660" || str_eq fstype "udf"))
unfolding is_drive_line mounts_drive word_at contains
is_drive_line_lem path id parent device root mount fstype more others before after no_dash =
    rw
      (cut-dash (join " " (id ∷ parent ∷ device ∷ root ∷ mount ∷ more)) (join " " (fstype ∷ others))
        no_dash)
      rw
      (
        fields-join (id ∷ parent ∷ device ∷ root ∷ mount ∷ more) before,
        fields-join (fstype ∷ others) after,
      )
      ground arith

before_char-append :
    (d : ℕ) (s : String) (c : Char) (t : String)
    → code c ≡ d
    → has_char d s ≡ false
    → before_char d (s <> String.◌∷◌ c t) ≡ s
unfolding before_char has_char
before_char-append d String.[] c t e h =
    let here : code c == d ≡ true = (==_iff (code c) d).1 e in
    rw (nil-append (String.◌∷◌ c t)) (rw here refl)
before_char-append d (String.◌∷◌ b s) c t e h =
    let (other, rest) = or_false (code b == d) (has_char d s) h in
    rw (cons-append b s (String.◌∷◌ c t)) (rw other (rw (before_char-append d s c t e rest) refl))

before_char-whole : (d : ℕ) (s : String) → has_char d s ≡ false → before_char d s ≡ s
unfolding before_char has_char
before_char-whole d String.[] h = refl
before_char-whole d (String.◌∷◌ b s) h =
    let (other, rest) = or_false (code b == d) (has_char d s) h in
    rw other (rw (before_char-whole d s rest) refl)

cut-needle :
    (mount device rest : String)
    → has_char 32 device ≡ false
    → cut (device <> (" on " <> (mount <> (" (" <> rest)))) (needle mount) ≡ some (device, rest)
cut-needle mount device rest no_space =
    let split : needle mount ≡ String.◌∷◌ " " ("on " <> (mount <> " (")) =
      cons-append " " "on " (mount <> " (") in
    let line : " on " <> (mount <> (" (" <> rest)) ≡ needle mount <> rest = sym (
      append_assoc " on " (mount <> " (") rest
      ∙ ap (λ u. " on " <> u) (append_assoc mount " (" rest)) in
    rw line (rw split (cut-append device " " ("on " <> (mount <> " (")) rest no_space))

-- A line of FreeBSD's `mount` for a device without a space in its name shows the config-drive at its
-- mount point exactly if the file system's type, without the spaces around it, is cd9660 or udf.
pub is_mount_line_lem :
    (mount device fstype options : String)
    → has_char 32 device ≡ false
    → has_char 44 fstype ≡ false
    → has_char 41 fstype ≡ false
    → is_mount_line mount (device <> (" on " <> (mount <> (" (" <> (fstype <> ("," <> options))))))
      ≡ (str_eq (trim_space fstype) "cd9660" || str_eq (trim_space fstype) "udf")
unfolding is_mount_line shows_drive contains
is_mount_line_lem mount device fstype options no_space no_comma no_close =
    let type : before_char 44 (fstype <> ("," <> options)) ≡ fstype =
      rw (cons-append "," "" options, nil-append options)
        (before_char-append 44 fstype "," options refl no_comma) in
    rw (cut-needle mount device (fstype <> ("," <> options)) no_space) rw
      (type, before_char-whole 41 fstype no_close) ground arith
