-- ===== src/Tui/Screen/Size.antt =====
-- The size of the screen.
use gatelet.Prelude.{ℕ, ◌≡◌, Option, some, List, nat_eq, length, Bytes}
use gatelet.Tui.Model.{Model}

-- Blocks of this height.
abbrev pub Fills : Option (List Bytes) → ℕ → Type 0
Fills drawn height = (lines : List Bytes) × (drawn ≡ some lines) × (length lines ≡ height)
