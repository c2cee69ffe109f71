-- ===== src/Tui/Rows.antt =====
-- internal/tui/list.go: the rows of the request list.
pub mod Window
pub mod Columns
use gatelet.Prelude.{
  ℕ, zero, suc, ◌-◌, ◌/◌, Bool, false, ◌||◌, Option, none, some, List, [], ◌∷◌, ◌++◌, ltb, leb,
  if◌then◌else◌, ◌==◌, nat_eq, length, Bytes, bytes_eq, ℤ, pos, negsuc, minusℤ,
}
use gatelet.Client.Events.{remote_ip}
use gatelet.Client.Log.{format_bytes}
use gatelet.Tui.Model.{RequestItem, Model}
use gatelet.Tui.Format.{status_text, relative_age}
use gatelet.Tui.Detail.{Styles, status_style, method_style}
use gatelet.Tui.Requests.{get_elem?}
use gatelet.Tui.Selection.{visible_requests, max}

-- `min(a, b)` of the package.
abbrev pub min_of : ℕ → ℕ → ℕ
min_of a b = if ltb a b then a else b

unfoldable pub request_window_start : ℕ → ℤ → ℕ → ℕ
request_window_start total selected limit =
    if leb total limit || limit == 0 then 0 else elim (minusℤ selected (limit / 2)) [
      | negsuc n ↦ 0
      | pos start ↦ if ltb (total - limit) start then total - limit else start
    ]

abbrev is_at : ℕ → ℤ → Bool
is_at i (pos n) = i == n
is_at i (negsuc n) = false

-- The rows from `i` on, each with whether it is the selected one; an index out of range panics.
abbrev pub draw_rows : ℕ → ℕ → List RequestItem → ℤ → Option (List (RequestItem × Bool))
draw_rows zero i visible selected = some []
draw_rows (suc rows) i visible selected =
    let rest = draw_rows rows (suc i) visible selected in
    elim (get_elem? visible i) [
      | none ↦ none
      | some item ↦ elim rest [ none ↦ none | some more ↦ some ((item, is_at i selected) ∷ more) ]
    ]

abbrev pub row_limit : Model → ℕ → ℕ
row_limit m height = min_of (length (visible_requests m)) (max 1 height)

-- The loop of `renderList`.
unfoldable pub list_rows : Model → ℕ → Option (List (RequestItem × Bool))
unfolding visible_requests request_window_start
list_rows m height =
    let visible = visible_requests m in
    let limit = row_limit m height in
    draw_rows limit (request_window_start (length visible) m.selected limit) visible m.selected

pub record RequestColumnSet : Type 0 where
  pub method : ℕ
  pub path : ℕ
  pub status : ℕ
  pub size : ℕ
  pub remote : ℕ
  pub age : ℕ

-- No difference is negative at the widths that the tests admit, and the last one is below 12 where
-- it would be.
unfoldable pub request_columns : ℕ → RequestColumnSet
request_columns width =
    if leb 112 width
    then record {
      method = 7;
      path = width - 7 - 7 - 9 - 18 - 8 - 5;
      status = 7;
      size = 9;
      remote = 18;
      age = 8;
    }
    else if leb 90 width
    then record {
      method = 7;
      path = width - 7 - 7 - 9 - 15 - 8 - 5;
      status = 7;
      size = 9;
      remote = 15;
      age = 8;
    }
    else if leb 70 width
    then record {
      method = 7;
      path = width - 7 - 7 - 9 - 8 - 4;
      status = 7;
      size = 9;
      remote = 0;
      age = 8;
    }
    else record {
      method = 6;
      path = max 12 (width - 6 - 7 - 8 - 3);
      status = 7;
      size = 8;
      remote = 0;
      age = 0;
    }

abbrev pub spaces : ℕ → Bytes
spaces zero = []
spaces (suc n) = b' ' ∷ spaces n

module _ (shorten : Bytes → ℕ → Bytes) where
  -- `padRight` on text whose bytes are one cell wide; `shorten` is `ansi.Truncate` with "...".
  unfoldable pub pad_right : Bytes → ℕ → Bytes
  pad_right s width =
      if width == 0
      then []
      else let fitted = if leb (length s) width then s else shorten s width in
        fitted ++ spaces (width - length fitted)

  -- The parts whose column has a width, joined by spaces.
  abbrev pub row_parts : List (Bytes × ℕ) → List Bytes
  row_parts [] = []
  row_parts ((text, width) ∷ rest) =
      if width == 0 then row_parts rest else pad_right text width ∷ row_parts rest

  -- The parts as `padStyled` renders them, each in its style.
  abbrev pub styled_parts : List (Bytes × ℕ × (Bytes → Bytes)) → List Bytes
  styled_parts [] = []
  styled_parts ((text, width, style) ∷ rest) =
      if width == 0 then styled_parts rest else style (pad_right text width) ∷ styled_parts rest

abbrev pub join_parts : List Bytes → Bytes
join_parts [] = []
join_parts (p ∷ []) = p
join_parts (p ∷ q ∷ ps) = p ++ (b' ' ∷ join_parts (q ∷ ps))

-- `requestRowLine` with `styled` false.
unfoldable pub request_row_line :
    (Bytes → ℕ → Bytes) → RequestItem → RequestColumnSet → ℕ → ℕ → Bytes
unfolding pad_right status_text format_bytes remote_ip relative_age
request_row_line shorten item cols clock now = join_parts (
    row_parts shorten (
      (item.method, cols.method)
      ∷ (item.request_uri, cols.path)
      ∷ (status_text item, cols.status)
      ∷ (format_bytes item.request_size, cols.size)
      ∷ (remote_ip item.remote_addr, cols.remote)
      ∷ (relative_age clock now item.started_at, cols.age)
      ∷ []))

-- `requestRowLine` with `styled` true.
unfoldable pub styled_row_line :
    (Bytes → ℕ → Bytes) → Styles → RequestItem → RequestColumnSet → ℕ → ℕ → Bytes
unfolding pad_right status_text format_bytes remote_ip relative_age method_style status_style
styled_row_line shorten styles item cols clock now = join_parts (
    styled_parts shorten (
      (item.method, cols.method, method_style styles item.method)
      ∷ (item.request_uri, cols.path, styles.val)
      ∷ (status_text item, cols.status, status_style styles item)
      ∷ (format_bytes item.request_size, cols.size, styles.val)
      ∷ (remote_ip item.remote_addr, cols.remote, styles.val)
      ∷ (relative_age clock now item.started_at, cols.age, styles.val)
      ∷ []))
