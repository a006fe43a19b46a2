-- ===== src/Control/Commands/Laws.antt =====
-- The rows of cmd/ctl/main.go that print sizes of `uint64`.
use pfsense_agent.Base.{
  ℕ, ◌<◌, ◌^◌, String, List, [], ◌∷◌, some, ◌≡◌, refl, ltb, Bool-cases, inl, inr, All, length,
  arith,
}
use pfsense_agent.System.{DiskEntry}
use pfsense_agent.Control.Format.{FloatText, format_bytes}
use pfsense_agent.Control.Format.Laws.{format_bytes_ends}
use pfsense_agent.Control.Commands.{Texts, add_cell, row_of, add_row, disk_rows, percent}

-- Below 2^64 a size has a text.
pub size_text : (f : FloatText) (b : ℕ) → b < 2 ^ 64 → (t : String) × (format_bytes f b ≡ some t)
unfolding format_bytes
size_text f b small = elim (Bool-cases (ltb b 1024)) [
  | inl bytes ↦ rw bytes (_, refl)
  | inr larger ↦ let ended = format_bytes_ends f b (ground arith) small in (_, ended.2)
]

-- Sizes that a `uint64` holds.
abbrev pub IsSized : DiskEntry → Type 0
IsSized p = (p.total_bytes < 2 ^ 64) × (p.used_bytes < 2 ^ 64)

module _ (texts : Texts) where
  pub disk_rows-length :
      (ps : List DiskEntry)
      → All IsSized ps
      → (rows : List (List String)) × (disk_rows texts ps ≡ some rows) × (length rows ≡ length ps)
  unfolding disk_rows row_of add_cell add_row
  disk_rows-length [] h = ([], refl, refl)
  disk_rows-length (p ∷ ps) h =
      let (total, e) = size_text texts.show_float p.total_bytes h.0.0 in
      let (used, e') = size_text texts.show_float p.used_bytes h.0.1 in
      let (rows, found, long) = disk_rows-length ps h.1 in
      (
        (p.device ∷ p.mountpoint ∷ total ∷ used ∷ percent texts p.usage_pct ∷ []) ∷ rows,
        rw (e, e', found) refl,
        omega (arith, long),
      )
