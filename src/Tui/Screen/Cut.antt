-- ===== src/Tui/Screen/Cut.antt =====
-- `fitBlock` on the lines of a block that scrolls.
use gatelet.Prelude.{
  All-take, All-drop, length-drop, length-map, ℕ, zero, suc, ◌+◌, ◌-◌, ◌≤◌, ◌<◌, ◌≡◌, refl, sym, ap,
  ◌∙◌, true, false, List, [], ◌∷◌, ◌++◌, map, append_assoc, arith, ltb, All, length, take, drop,
  length-take, has_byte, is_empty, Bytes, split, split-part, trim_right, trim_right-append, ℤ,
}
use gatelet.Tui.Selection.{max}
use gatelet.Tui.View.{pad_lines, fit_block, scroll_start, scroll_end, progress}
use gatelet.Tui.Screen.{fit_line, Layout, newline, with_newlines, scrolled_text, fit}

abbrev IsLine : Bytes → Type 0
IsLine s = has_byte b'\n' s ≡ false

-- What lines are once they are styled: no newline in a line that had none, and a line that says which ones
-- are shown is not empty and does not end in a newline.
pub record OneLine (l : Layout) (show : Bytes → Bytes) : Type 0 where
  pub shown : (s : Bytes) → IsLine s → IsLine (show s)
  pub muted :
      (start end total : ℕ)
      → is_empty (trim_right newline (l.muted_row (progress start end total))) ≡ false
  pub whole :
      (start end total : ℕ)
      → trim_right newline (l.muted_row (progress start end total))
        ≡ l.muted_row (progress start end total)

with_newlines-append : (ls : List Bytes) (t : Bytes) → (s : Bytes) × (with_newlines ls t ≡ s ++ t)
with_newlines-append [] t = ([], refl)
with_newlines-append (l ∷ ls) t =
    let (s, e) = with_newlines-append ls t in
    (l ++ (b'\n' ∷ s), ap (λ x. l ++ (b'\n' ∷ x)) e ∙ sym (append_assoc l (b'\n' ∷ s) t))

trim-with_newlines :
    (ls : List Bytes) (t : Bytes)
    → is_empty (trim_right newline t) ≡ false
    → trim_right newline t ≡ t
    → trim_right newline (with_newlines ls t) ≡ with_newlines ls t
trim-with_newlines ls t f e =
    let (s, same) = with_newlines-append ls t in
    rw same (trim_right-append newline s t f ∙ ap (λ x. s ++ x) e)

split-with_newlines :
    (ls : List Bytes) (t : Bytes)
    → All IsLine ls
    → split b'\n' (with_newlines ls t) ≡ ls ++ split b'\n' t
split-with_newlines [] t a = refl
split-with_newlines (l ∷ ls) t a =
    split-part b'\n' l (with_newlines ls t) a.0 ∙ ap (◌∷◌ l) (split-with_newlines ls t a.1)

pad-full :
    (ls rest : List Bytes) (height : ℕ) → length ls ≡ height → pad_lines height (ls ++ rest) ≡ ls
pad-full [] rest zero e = refl
pad-full [] rest (suc height) e = absurd (omega (arith, e))
pad-full (l ∷ ls) rest zero e = absurd (omega (arith, e))
pad-full (l ∷ ls) rest (suc height) e = ap (◌∷◌ l) (pad-full ls rest height (omega (arith, e)))

shown-lines :
    (show : Bytes → Bytes)
    → ((s : Bytes) → IsLine s → IsLine (show s))
    → (ls : List Bytes) → All IsLine ls
    → All IsLine (map show ls)
shown-lines show one [] a = tt
shown-lines show one (l ∷ ls) a = (one l a.0, shown-lines show one ls a.1)

window_size :
    (scroll : ℤ) (total height : ℕ)
    → height < total
    → (scroll_end (scroll_start scroll total height) total height - scroll_start scroll total height
        ≡ height)
      × (scroll_start scroll total height + height ≤ total)
window_size scroll total height h = ground arith

-- The lines that the height has room for, from the place that the scroll position gives.
abbrev pub shown_lines : (Bytes → Bytes) → List Bytes → ℤ → ℕ → List Bytes
shown_lines show lines scroll height =
    map show (take height (drop (scroll_start scroll (length lines) height) lines))

length-shown_lines :
    (show : Bytes → Bytes) (lines : List Bytes) (scroll : ℤ) (height : ℕ)
    → height < length lines
    → length (shown_lines show lines scroll height) ≡ height
length-shown_lines show lines scroll height h =
    let start = scroll_start scroll (length lines) height in
    length-map show (take height (drop start lines))
    ∙ ground (
      arith,
      length-take height (drop start lines),
      length-drop start lines,
      window_size scroll (length lines) height h,
    )

scrolled_text-more :
    (l : Layout) (show : Bytes → Bytes) (lines : List Bytes) (scroll : ℤ) (height : ℕ)
    → 0 < height
    → height < length lines
    → scrolled_text l show lines scroll height
      ≡ with_newlines (shown_lines show lines scroll height) (
          l.muted_row (
            progress
              (scroll_start scroll (length lines) height)
              (scroll_end (scroll_start scroll (length lines) height) (length lines) height)
              (length lines)))
unfolding scrolled_text
scrolled_text-more l show lines scroll height some_height h =
    let visible : max 1 height ≡ height = ground arith in
    let more : ltb height (length lines) ≡ true = ground arith in
    rw (visible, more, (window_size scroll (length lines) height h).0) refl

-- Where there are more lines than room, the block is those lines and no other: the line behind them is cut.
pub fit-scrolled :
    (l : Layout) (show : Bytes → Bytes) (width : ℕ) (lines : List Bytes) (scroll : ℤ) (height : ℕ)
    → OneLine l show
    → All IsLine lines
    → 0 < height
    → height < length lines
    → fit l width (scrolled_text l show lines scroll height) height
      ≡ map (fit_line l width) (shown_lines show lines scroll height)
unfolding fit fit_block
fit-scrolled l show width lines scroll height one a some_height h =
    let text = scrolled_text-more l show lines scroll height some_height h in
    let start = scroll_start scroll (length lines) height in
    let end = scroll_end start (length lines) height in
    let shown = shown_lines show lines scroll height in
    let last : Bytes = l.muted_row (progress start end (length lines)) in
    let trimmed =
      trim-with_newlines shown last (one.muted start end (length lines))
        (one.whole start end (length lines)) in
    let parts = All-take IsLine height _ (All-drop IsLine start lines a) in
    let cut = split-with_newlines shown last (shown-lines show one.shown _ parts) in
    rw (text, trimmed, cut)
      (ap (map (fit_line l width))
        (pad-full shown (split b'\n' last) height (length-shown_lines show lines scroll height h)))
