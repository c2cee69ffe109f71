-- ===== src/Tui/ScreenTests.antt =====
-- The inspector on a terminal of nine lines.
use gatelet.Prelude.{
  is_empty, zero, suc, drop, ◌-◌, ap, ◌∙◌, has_byte, ℕ, ◌+◌, ◌<◌, ◌≡◌, refl, false, none, some, [],
  ◌∷◌, ◌++◌, map, arith, length, take, drop, has_byte, trim_right, split, trim_right-append,
  is_empty-append, Bytes, codes, pos, decimal,
}
use gatelet.Client.Events.{blank_event, request_received}
use gatelet.Tui.Model.{RequestItem, Model, World, start_model, view_list, view_inspector}
use gatelet.Tui.Requests.{item_of}
use gatelet.Tui.Selection.{visible_requests, selected_request, clamp_detail_scroll}
use gatelet.Tui.Detail.{Styles}
use gatelet.Tui.Inspector.{Printer, format_inspector}
use gatelet.Tui.Fit.{Ansi, visible_window, truncate_visible}
use gatelet.Tui.View.{progress}
use gatelet.Tui.Screen.{
  fit_line, window, render_list, Layout, newline, lines_of, inspector_lines_of, render_header,
  render_status_bar, framed, view,
}
use gatelet.Tui.Screen.Cut.{OneLine}
use gatelet.Tui.Screen.Hidden.{InInspector, view-hides}

abbrev plain_styles : Styles
plain_styles = record {
  key = λ text. text;
  val = λ text. text;
  muted = λ text. text;
  heading = λ text. text;
  status_2xx = λ text. text;
  status_3xx = λ text. text;
  status_4xx = λ text. text;
  status_5xx = λ text. text;
  queued = λ text. text;
}

abbrev plain_printer : Printer
plain_printer = record {
  styles = plain_styles;
  indent_json = λ text. none;
  text_width = λ text. length text;
  shorten = λ text n. take n text;
  clock = 9;
  show_time = λ t. decimal t;
  show_duration = λ d. codes "1s";
  row = λ text. text;
  sorted_keys = λ h. h;
}

-- A byte for a cell.
abbrev cells : Ansi
cells = record {
  string_width = λ text. length text;
  block_width = λ text. length text;
  cut_cells = λ text start end. take (end - start) (drop start text);
  truncate_cells = λ text limit tail. take limit text;
  hardwrap = λ text width. take width text ++ (b'\n' ∷ drop width text);
}

has_byte-take : (c n : ℕ) (s : Bytes) → has_byte c s ≡ false → has_byte c (take n s) ≡ false
has_byte-take c zero s e = refl
has_byte-take c (suc n) [] e = refl
has_byte-take c (suc n) (x ∷ s) e = ground (arith, e, has_byte-take c n s (ground (arith, e)))

abbrev layout : Layout
layout = record {
  printer_at = λ width. plain_printer;
  ansi = cells;
  block_style = λ width text. text;
  muted_row = λ text. text ++ b'~' ∷ [];
  selected_row = λ text. b'>' ∷ text;
  title = λ text. text;
  url_style = λ text. text;
  accent = λ text. text;
  bar = λ width text. take width text;
}

abbrev screen_world : World
screen_world = record {
  inspector_lines = λ item width now plain tab.
      length (lines_of (format_inspector plain_printer item now plain tab));
  body_lines = λ item width plain tab. 3;
  show_duration = λ d. codes "1s";
  url_path = λ uri. some uri;
  sorted_keys = λ h. h;
  cache_dir = none;
  path_join = λ a b. a ++ (b'/' ∷ b);
  replay_error = λ e. codes "no body";
  copy_text = λ text. none;
  make_dir = λ dir. none;
  write_file = λ path text. none;
}

abbrev first_model : Model
unfolding start_model
first_model = start_model (codes "https://a.b.c") (codes "http://127.0.0.1:80") false [] 1

abbrev shown_item : RequestItem
unfolding item_of first_model
shown_item = item_of first_model (record {
  event = record (blank_event request_received) {
    id = 1;
    method = codes "GET";
    request_uri = codes "/a";
    request_header = [];
  };
  time = 5;
  duration = pos 0;
})

abbrev inspecting : Model
unfolding first_model shown_item
inspecting = record first_model {
  requests = shown_item ∷ [];
  index = (1, 0) ∷ [];
  mode = view_inspector;
  width = 20;
  height = 9;
  detail_scroll = pos 100;
}

layout-OneLine : OneLine layout (window layout 20)
unfolding trim_right window visible_window
layout-OneLine = record {
  shown = has_byte-take b'\n' 20;
  muted = λ start end total.
      ap is_empty (trim_right-append newline (progress start end total) (b'~' ∷ []) refl)
      ∙ is_empty-append (progress start end total) (b'~' ∷ []) refl;
  whole = λ start end total. trim_right-append newline (progress start end total) (b'~' ∷ []) refl;
}

inspecting-InInspector : InInspector screen_world layout inspecting shown_item
unfolding inspecting shown_item first_model selected_request visible_requests format_inspector split
    render_status_bar clamp_detail_scroll render_header truncate_visible
inspecting-InInspector = record {
  mode = refl;
  found = refl;
  tall = omega arith;
  wide = omega arith;
  header = refl;
  footer = refl;
  count_agrees = refl;
}

abbrev clamped : Model
unfolding inspecting shown_item first_model
clamped = clamp_detail_scroll screen_world inspecting

view-hides_example :
    (start : ℕ) × (view layout clamped
      ≡ some (
          framed (render_header layout clamped 20) (render_status_bar layout clamped 20) (
            map (fit_line layout 20) (
              map
                (window layout 20)
                (take 6 (drop start (inspector_lines_of layout inspecting shown_item 20)))))))
    × (start + 6 < length (inspector_lines_of layout inspecting shown_item 20))
unfolding inspecting shown_item first_model format_inspector split
view-hides_example =
    view-hides screen_world layout inspecting shown_item inspecting-InInspector layout-OneLine
      (omega arith)

-- In the list the selected request is marked, and the block is filled up.
listed :
    render_list layout (record inspecting { mode = view_list; selected = pos 0 }) 40 2
    ≡ some (codes ">GET    /a             -       0B      " ∷ [] ∷ [])
unfolding inspecting shown_item first_model render_list split window
listed = refl
