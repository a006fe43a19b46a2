-- ===== src/Control/Table.antt =====
-- pkg/cmdutil/output.go. The alignment of a table's columns by text/tabwriter and the text of a value
-- by encoding/json are left to those packages: a table is what is written to the tabwriter.
pub mod Laws
use pfsense_agent.Base.{
  ℕ, String, ◌<>◌, Char, code, List, [], ◌∷◌, ◌++◌, map, ltb, if◌then◌else◌, to_upper, join, Result,
  ok, err, message,
}

pub data Printed : Type 0 where
  table : List String → Printed
  stdout : String → Printed
  stderr : String → Printed

-- What has been printed, over the rest of the world.
pub record Screen (W : Type 0) : Type 0 where
  pub printed : List Printed
  pub world : W

unfoldable pub print : {W : Type 0} → Printed → Screen W → Screen W
print p s = record s { printed = s.printed ++ p ∷ [] }

-- `len(h)` of the UTF-8 text.
byte_width : Char → ℕ
byte_width c =
    if ltb (code c) 0x80
    then 1
    else if ltb (code c) 0x800
    then 2
    else if ltb (code c) 0x10000
    then 3
    else 4

-- `strings.Repeat("-", n)`, before a text.
dashes : ℕ → String → String
dashes ℕ.zero s = s
dashes (ℕ.suc n) s = String.◌∷◌ "-" (dashes n s)

unfoldable pub separator : String → String
unfolding byte_width dashes
separator String.[] = ""
separator (String.◌∷◌ c s) = dashes (byte_width c) (separator s)

-- The lines of `PrintTable`.
unfoldable pub table_lines : List String → List (List String) → List String
unfolding join separator
table_lines headers rows =
    let upper = map to_upper headers in
    join "\t" upper ∷ join "\t" (map separator upper) ∷ map (join "\t") rows

module _ {W : Type 0} where
  unfoldable pub print_table : List String → List (List String) → Screen W → Screen W
  unfolding table_lines print
  print_table headers rows s = print (table (table_lines headers rows)) s

  unfoldable pub print_success : String → Screen W → Screen W
  unfolding print
  print_success said s = print (stdout ("✓ " <> (said <> "\n"))) s

  unfoldable pub print_error : String → Screen W → Screen W
  unfolding print
  print_error said s = print (stderr ("ERROR: " <> (said <> "\n"))) s

  -- By what the encoder makes of the value: its text ends in a line feed.
  unfoldable pub print_json : Result String → Screen W → Screen W
  unfolding print print_error
  print_json (ok text) s = print (stdout text) s
  print_json (err e) s = print_error ("JSON encoding error: " <> message e) s
