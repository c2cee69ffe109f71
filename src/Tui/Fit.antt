-- ===== src/Tui/Fit.antt =====
-- internal/tui/format.go: text fitted into a width. The cells of a text, and the cutting and wrapping by
-- ansi and lipgloss, are parameters.
use gatelet.Prelude.{
  ℕ, ◌+◌, ◌-◌, List, [], ◌∷◌, ◌++◌, leb, if◌then◌else◌, ◌==◌, nat_eq, Bytes, codes, split,
}
use gatelet.Tui.Rows.{spaces}

-- `ansi.StringWidth`, `lipgloss.Width`, `ansi.Cut`, `ansi.Truncate` and `ansi.Hardwrap`.
pub record Ansi : Type 0 where
  pub string_width : Bytes → ℕ
  pub block_width : Bytes → ℕ
  pub cut_cells : Bytes → ℕ → ℕ → Bytes
  pub truncate_cells : Bytes → ℕ → Bytes → Bytes
  pub hardwrap : Bytes → ℕ → Bytes

abbrev pub joined_lines : List Bytes → Bytes
joined_lines [] = []
joined_lines (l ∷ []) = l
joined_lines (l ∷ k ∷ ls) = l ++ (b'\n' ∷ joined_lines (k ∷ ls))

module _ (ansi : Ansi) where
  unfoldable pub truncate_visible : Bytes → ℕ → Bytes
  truncate_visible s limit =
      if limit == 0
      then []
      else if leb (ansi.string_width s) limit
      then s
      else ansi.truncate_cells s limit (codes "...")

  unfoldable pub truncate : Bytes → ℕ → Bytes
  truncate s limit =
      if leb (ansi.string_width s) limit
      then s
      else ansi.truncate_cells s limit (if leb limit 3 then [] else codes "...")

  -- `padRight` on text of any cells.
  unfoldable pub pad_cells : Bytes → ℕ → Bytes
  unfolding truncate_visible
  pad_cells s width =
      if width == 0
      then []
      else let fitted = truncate_visible s width in
        fitted ++ spaces (width - ansi.block_width fitted)

  unfoldable pub visible_window : Bytes → ℕ → ℕ → Bytes
  visible_window s start width = if width == 0 then [] else ansi.cut_cells s start (start + width)

  abbrev wrapped : List Bytes → ℕ → List Bytes
  wrapped [] width = []
  wrapped (line ∷ lines) width =
      if leb (ansi.string_width line) width
      then line ∷ wrapped lines width
      else split b'\n' (ansi.hardwrap line width) ++ wrapped lines width

  unfoldable pub wrap_visible_block : Bytes → ℕ → Bytes
  unfolding split
  wrap_visible_block s width =
      if width == 0 then [] else joined_lines (wrapped (split b'\n' s) width)
