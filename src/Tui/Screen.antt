-- ===== src/Tui/Screen.antt =====
-- internal/tui/view.go, list.go and detail.go: `View` and the blocks that it joins. The styles of
-- lipgloss are parameters.
pub mod Size
pub mod Cut
pub mod Hidden
use gatelet.Prelude.{
  ℕ, ◌-◌, Bool, Option, none, some, List, [], ◌∷◌, ◌++◌, map, ltb, if◌then◌else◌, ◌==◌, nat_eq,
  length, take, drop, Bytes, codes, bytes_eq, is_empty, trim_right, split, ℤ,
}
use gatelet.Tui.Model.{
  RequestItem, ViewMode, view_list, view_inspector, view_body, InspectorTab, Model,
}
use gatelet.Tui.Selection.{max, visible_requests, selected_request}
use gatelet.Tui.Rows.{request_columns, request_row_line, styled_row_line, spaces, list_rows}
use gatelet.Tui.Fit.{
  Ansi, truncate_visible, pad_cells, visible_window, wrap_visible_block, joined_lines,
}
use gatelet.Tui.Inspector.{Printer, format_inspector, format_body_view}
use gatelet.Tui.View.{
  header_place, header_state, status_bar, fit_block, scroll_start, scroll_end, progress,
}

pub record Layout : Type 0 where
  pub ansi : Ansi
  pub printer_at : ℕ → Printer
  -- `lipgloss.NewStyle().Width(width).Render`.
  pub block_style : ℕ → Bytes → Bytes
  -- `rowStyle.Render(mutedStyle.Render(s))`.
  pub muted_row : Bytes → Bytes
  pub selected_row : Bytes → Bytes
  pub title : Bytes → Bytes
  pub url_style : Bytes → Bytes
  -- `statusAccentStyle`, and `statusBarStyle` at a width.
  pub accent : Bytes → Bytes
  pub bar : ℕ → Bytes → Bytes

abbrev pub newline : ℕ → Bool
newline c = c == b'\n'

abbrev pub lines_of : Bytes → List Bytes
lines_of s = split b'\n' (trim_right newline s)

-- Each line, with a newline.
abbrev pub with_newlines : List Bytes → Bytes → Bytes
with_newlines [] rest = rest
with_newlines (l ∷ ls) rest = l ++ (b'\n' ∷ with_newlines ls rest)

unfoldable pub window : Layout → ℕ → Bytes → Bytes
unfolding visible_window
window l width s = visible_window l.ansi s 0 width

unfoldable pub fit_line : Layout → ℕ → Bytes → Bytes
unfolding truncate_visible
fit_line l width s = l.block_style width (truncate_visible l.ansi s width)

-- The line behind the ones that are shown, if there are more of them.
abbrev pub progress_line : Layout → ℕ → ℕ → ℕ → ℕ → Bytes
progress_line l start end total visible =
    if ltb visible total then l.muted_row (progress start end total) else []

-- The text that `renderInspector` and `renderBody` give to `fitBlock`.
unfoldable pub scrolled_text : Layout → (Bytes → Bytes) → List Bytes → ℤ → ℕ → Bytes
scrolled_text l show lines scroll height =
    let visible = max 1 height in
    let start = scroll_start scroll (length lines) visible in
    let end = scroll_end start (length lines) visible in
    with_newlines (map show (take (end - start) (drop start lines)))
      (progress_line l start end (length lines) visible)

unfoldable pub fit : Layout → ℕ → Bytes → ℕ → List Bytes
unfolding fit_block fit_line
fit l width s height = map (fit_line l width) (fit_block s height)

abbrev pub no_selection : Layout → Bytes
no_selection l = l.muted_row (codes "No request selected.")

abbrev pub inspector_lines_of : Layout → Model → RequestItem → ℕ → List Bytes
inspector_lines_of l m item width =
    lines_of (format_inspector (l.printer_at width) item m.now m.plain_body m.inspector_tab)

abbrev pub inspector_text : Layout → Model → ℕ → ℕ → Bytes
inspector_text l m width height = elim (selected_request m) [
  | none ↦ no_selection l
  | some item ↦
      scrolled_text l (window l width) (inspector_lines_of l m item width) m.detail_scroll height
]

unfoldable pub render_inspector : Layout → Model → ℕ → ℕ → List Bytes
unfolding fit scrolled_text selected_request
render_inspector l m width height = fit l width (inspector_text l m width height) height

abbrev only_blank : List Bytes → List Bytes
only_blank [] = []
only_blank (l ∷ []) = if is_empty l then [] else l ∷ []
only_blank (l ∷ k ∷ ls) = l ∷ k ∷ ls

unfoldable pub body_view_lines : Layout → RequestItem → ℕ → Bool → InspectorTab → List Bytes
unfolding format_body_view wrap_visible_block
body_view_lines l item width plain tab = only_blank (
    lines_of
      (wrap_visible_block l.ansi (format_body_view (l.printer_at width) item plain tab) width))

abbrev body_text : Layout → Model → ℕ → ℕ → Bytes
body_text l m width height = elim (selected_request m) [
  | none ↦ no_selection l
  | some item ↦
      scrolled_text l (λ line. pad_cells l.ansi line width)
        (body_view_lines l item width m.plain_body m.inspector_tab) m.body_scroll height
]

unfoldable pub render_body : Layout → Model → ℕ → ℕ → List Bytes
unfolding fit scrolled_text selected_request body_view_lines pad_cells
render_body l m width height = fit l width (body_text l m width height) height

abbrev no_rows : Layout → Model → Bytes
no_rows l m = l.muted_row (
    if is_empty m.filter
    then codes "No incoming requests yet."
    else codes "No requests match /" ++ m.filter)

unfoldable pub render_request_row : Layout → RequestItem → ℕ → ℕ → Bool → Bytes
unfolding request_columns request_row_line styled_row_line
render_request_row l item width now selected =
    let printer = l.printer_at width in
    let inner_width = max 1 (width - 2) in
    let cols = request_columns inner_width in
    if selected
    then l.selected_row
        (window l inner_width (request_row_line printer.shorten item cols printer.clock now))
    else printer.row (
        window l inner_width
          (styled_row_line printer.shorten printer.styles item cols printer.clock now))

abbrev row_texts : Layout → Model → ℕ → List (RequestItem × Bool) → List Bytes
row_texts l m width [] = []
row_texts l m width ((item, marked) ∷ rows) =
    render_request_row l item width m.now marked ∷ row_texts l m width rows

-- No result where an index is out of range.
unfoldable pub render_list : Layout → Model → ℕ → ℕ → Option (List Bytes)
unfolding fit visible_requests list_rows render_request_row
render_list l m width height =
    if length (visible_requests m) == 0
    then some (fit l width (no_rows l m) height)
    else elim (list_rows m height) [
      | none ↦ none
      | some rows ↦ some (fit l width (joined_lines (row_texts l m width rows)) height)
    ]

unfoldable pub top_line : Layout → Model → ℕ → Bytes
unfolding header_place header_state
top_line l m width =
    let styles = (l.printer_at width).styles in
    let left = l.title (codes "gatelet") ++ (b' ' ∷ header_place styles l.url_style m) in
    let right = header_state styles m in
    left
    ++ (spaces (max 1 (width - l.ansi.block_width left - l.ansi.block_width right - 1)) ++ right)

unfoldable pub render_header : Layout → Model → ℕ → Bytes
unfolding top_line window
render_header l m width = window l width (top_line l m width)

unfoldable pub render_status_bar : Layout → Model → ℕ → Bytes
unfolding status_bar
render_status_bar l m width =
    let (left, help) = status_bar m in
    let left_part = l.accent left in
    let remaining = width - l.ansi.block_width left_part in
    left_part ++ l.bar remaining (truncate_visible l.ansi help (max 1 (remaining - 2)))

abbrev pub view_width : Model → ℕ
view_width m = if m.width == 0 then 120 else m.width

abbrev pub view_height : Model → ℕ
view_height m = max 8 (if m.height == 0 then 32 else m.height)

-- `lipgloss.Height`.
abbrev pub height_of : Bytes → ℕ
height_of s = length (split b'\n' s)

-- A difference below 1 is 1.
abbrev pub view_body_height : Model → Bytes → Bytes → ℕ
view_body_height m header footer = max 1 (view_height m - height_of header - 1 - height_of footer)

abbrev pub block_in : Layout → Model → ViewMode → ℕ → ℕ → Option (List Bytes)
block_in l m view_body width height = some (render_body l m width height)
block_in l m view_inspector width height = some (render_inspector l m width height)
block_in l m view_list width height = render_list l m width height

-- `JoinVertical` of the header, an empty line, the block and the footer.
abbrev pub framed : Bytes → Bytes → List Bytes → List Bytes
framed header footer body = split b'\n' header ++ ([] ∷ (body ++ split b'\n' footer))

-- The lines of the screen, before they are made equally wide.
unfoldable pub view : Layout → Model → Option (List Bytes)
unfolding render_body render_inspector render_list render_header render_status_bar
view l m =
    let header = render_header l m (view_width m) in
    let footer = render_status_bar l m (view_width m) in
    elim (block_in l m m.mode (view_width m) (view_body_height m header footer)) [
      | none ↦ none
      | some body ↦ some (framed header footer body)
    ]
