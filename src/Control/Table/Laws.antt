-- ===== src/Control/Table/Laws.antt =====
-- The lines of a table in pkg/cmdutil/output.go give its cells back.
use text.Mathlib.TextLemmas.{cons-append, nil-append}
use pfsense_agent.Base.{join, String, List, [], ◌∷◌, map, ◌≡◌, refl, ap, false, All, split_char}
use pfsense_agent.Base.Text.Split.{has_char, split_char-whole, split_char-append}
use pfsense_agent.Control.Table.{table_lines}

-- A row has a cell, and no cell has a tab.
abbrev pub IsRow : List String → Type 0
IsRow [] = ⊥
IsRow (cell ∷ cells) = All (λ (s : String). has_char 9 s ≡ false) (cell ∷ cells)

split-join : (cells : List String) → IsRow cells → split_char 9 (join "\t" cells) ≡ cells
unfolding join
split-join [] h = absurd h
split-join (s ∷ []) h = split_char-whole 9 s h.0
split-join (s ∷ t ∷ rest) h =
    rw (cons-append "\t" "" (join "\t" (t ∷ rest)), nil-append (join "\t" (t ∷ rest))) rw
      (split_char-append 9 s "\t" (join "\t" (t ∷ rest)) refl h.0)
      (ap (λ (cells : List String). s ∷ cells) (split-join (t ∷ rest) h.1))

split-rows :
    (rows : List (List String)) → All IsRow rows → map (split_char 9) (map (join "\t") rows) ≡ rows
split-rows [] h = refl
split-rows (row ∷ rows) h =
    rw (split-join row h.0) (ap (λ (rs : List (List String)). row ∷ rs) (split-rows rows h.1))

-- A table has a line of headers, a line of separators and a line for each row, in their order; a
-- row's line split at its tabs gives the row back, if the row has a cell and no cell has a tab.
pub table_lines_lem :
    (headers : List String) (rows : List (List String))
    → All IsRow rows
    → (head : String) × (rule : String) × (lines : List String) × (table_lines headers rows
        ≡ head ∷ rule ∷ lines)
      × (map (split_char 9) lines ≡ rows)
unfolding table_lines
table_lines_lem headers rows h = (_, _, _, refl, split-rows rows h)
