-- ===== src/Tui/View.antt =====
-- internal/tui/view.go: the labels of the status bar and of the header, and the lines of a block.
use gatelet.Prelude.{
  ℕ, zero, suc, ◌+◌, ◌-◌, Bool, true, false, not, ◌&&◌, none, some, List, [], ◌∷◌, ◌++◌, map, ltb,
  leb, if◌then◌else◌, ◌==◌, nat_eq, length, Bytes, codes, bytes_eq, is_empty, trim_right, split, ℤ,
  pos, negsuc, pos_part, decimal,
}
use gatelet.Client.Pause.{queue_depth}
use gatelet.Tui.Model.{
  view_list, view_inspector, view_body, InspectorTab, tab_request, tab_response, TargetHealth,
  health_unknown, health_ok, health_down, health_degraded, Model,
}
use gatelet.Tui.Detail.{Styles}
use gatelet.Tui.Selection.{visible_requests, selected_request}

abbrev upper_byte : ℕ → ℕ
upper_byte c = if leb b'a' c && leb c b'z' then c - 32 else c

abbrev to_upper : Bytes → Bytes
to_upper = map upper_byte

unfoldable pub inspector_tab_label : InspectorTab → Bytes
inspector_tab_label tab_response = codes "response"
inspector_tab_label tab_request = codes "request"

-- `min(m.selected+1, visible)`.
abbrev row_number : ℤ → ℕ → ℕ
row_number (pos n) visible = if ltb (n + 1) visible then n + 1 else visible
row_number (negsuc n) visible = 0

abbrev when : Bool → Bytes → Bytes
when true text = text
when false text = []

unfoldable pub list_label : Model → Bytes
unfolding visible_requests decimal
list_label m =
    let visible = length (visible_requests m) in
    if visible == 0
    then (if m.paused then codes "LIST PAUSED" else codes "LIST")
    else codes "LIST "
      ++ (decimal (row_number m.selected visible)
          ++ (b'/'
              ∷ (decimal visible
                  ++ (when (not (is_empty m.filter)) (codes " /")
                      ++ when m.paused (codes " PAUSED")))))

unfoldable pub status_label : Model → Bytes
unfolding inspector_tab_label selected_request list_label
status_label m = elim m.mode [
  | view_inspector ↦ elim (selected_request m) [
    | none ↦ to_upper (inspector_tab_label m.inspector_tab)
    | some item ↦
        to_upper (inspector_tab_label m.inspector_tab)
        ++ (b' '
            ∷ (item.method ++ (b' ' ∷ (if m.plain_body then codes "PLAIN" else codes "FORMAT"))))
  ]
  | view_body ↦ codes "BODY " ++ to_upper (inspector_tab_label m.inspector_tab)
  | view_list ↦ list_label m
]

unfoldable pub status_help : Model → Bytes
status_help m =
    if ltb m.width 72
    then elim m.mode [
      | view_body ↦ codes "Esc back | F format | h/l tab | q"
      | view_inspector ↦ codes "h/l tabs | b body | r replay | q"
      | view_list ↦ codes "Enter open | / filter | p pause | q"
    ]
    else elim m.mode [
      | view_body ↦ codes "F format/plain | h/l tab | Esc inspector | j/k scroll | q quit"
      | view_inspector ↦ elim m.inspector_tab [
        | tab_response ↦
            codes "h request | b body | s save | F format/plain | Esc back | j/k scroll | q quit"
        | tab_request ↦
            codes
              "l response | b body | r replay | y copy curl | e save curl | F format/plain | Esc back | j/k scroll | q quit"
      ]
      | view_list ↦
          codes "Enter details | j/k move | / filter | x clear | c copy url | p pause | q quit"
    ]

-- The two parts of the status bar.
unfoldable pub status_bar : Model → Bytes × Bytes
unfolding status_label status_help
status_bar m =
    if m.filtering
    then (codes "FILTER", b'/' ∷ (m.filter ++ codes "  Enter apply  Esc clear  Ctrl+U reset"))
    else if is_empty m.message
    then (status_label m, status_help m)
    else (status_label m, m.message ++ (codes " | " ++ status_help m))

-- Text as a style renders it.
unfoldable pub styled_connection_state : Styles → Bytes → Bytes
styled_connection_state styles status =
    if status == codes "online"
    then styles.status_2xx (to_upper status)
    else styles.queued (to_upper status)

unfoldable pub styled_target_health : Styles → TargetHealth → Bytes
styled_target_health styles health_unknown = styles.muted (codes "target UNKNOWN")
styled_target_health styles health_ok = styles.status_2xx (codes "target OK")
styled_target_health styles health_down = styles.status_5xx (codes "target DOWN")
styled_target_health styles health_degraded = styles.status_3xx (codes "target DEGRADED")

unfoldable pub styled_forwarding_mode : Styles → Bytes → Bool → Bytes
styled_forwarding_mode styles status paused =
    if paused
    then styles.queued (codes "paused")
    else if not (status == codes "online")
    then styles.muted (codes "idle")
    else styles.status_2xx (codes "accepting")

abbrev shown_depth : Model → ℕ
unfolding queue_depth
shown_depth m = elim m.pause [ none ↦ 0 | some p ↦ queue_depth p ]

-- The left half of the header, behind the title, and the right half.
unfoldable pub header_place : Styles → (Bytes → Bytes) → Model → Bytes
unfolding inspector_tab_label
header_place styles url_style m = elim m.mode [
  | view_body ↦ styles.heading (inspector_tab_label m.inspector_tab ++ codes " body")
  | view_inspector ↦ styles.heading (inspector_tab_label m.inspector_tab ++ codes " inspector")
  | view_list ↦ url_style m.url
]

unfoldable pub header_state : Styles → Model → Bytes
unfolding shown_depth styled_connection_state styled_target_health styled_forwarding_mode decimal
header_state styles m =
    styled_connection_state styles m.status
    ++ (codes "  "
        ++ (styled_target_health styles m.target_health
            ++ (when m.http_basic_auth (codes "  " ++ styles.queued (codes "auth ON"))
                ++ (codes "  "
                    ++ (styled_forwarding_mode styles m.status m.paused
                        ++ (codes "  "
                            ++ styles.muted (codes "queued " ++ decimal (shown_depth m))))))))

-- The lines that `fitBlock` keeps and adds, before their styles.
abbrev pub pad_lines : ℕ → List Bytes → List Bytes
pad_lines zero lines = []
pad_lines (suc height) [] = [] ∷ pad_lines height []
pad_lines (suc height) (l ∷ lines) = l ∷ pad_lines height lines

unfoldable pub fit_block : Bytes → ℕ → List Bytes
unfolding trim_right split
fit_block s height = pad_lines height (split b'\n' (trim_right (λ c. c == b'\n') s))

-- `min(max(0, scroll), max(0, len(lines)-visible))`.
abbrev pub scroll_start : ℤ → ℕ → ℕ → ℕ
scroll_start scroll total visible =
    if ltb (pos_part scroll) (total - visible) then pos_part scroll else total - visible

abbrev pub scroll_end : ℕ → ℕ → ℕ → ℕ
scroll_end start total visible = if ltb total (start + visible) then total else start + visible

abbrev pub progress : ℕ → ℕ → ℕ → Bytes
progress start end total =
    codes "lines "
    ++ (decimal (start + 1) ++ (b'-' ∷ (decimal end ++ (codes " of " ++ decimal total))))
