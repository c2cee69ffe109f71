-- ===== src/Tui/Detail.antt =====
-- internal/tui/detail.go: the lines of the headers, and the texts about a body. A style is a function on
-- text, as `Render` of lipgloss is.
pub mod Redacted
use gatelet.Prelude.{
  ℕ, suc, ◌-◌, Bool, true, false, not, ◌&&◌, ◌||◌, none, some, List, [], ◌∷◌, ◌++◌, ltb, leb,
  if◌then◌else◌, ◌==◌, nat_eq, length, Bytes, codes, bytes_eq, is_empty, strip_suffix, to_lower,
  trim_space, cut, pos, decimal,
}
use gatelet.Client.Preview.{BodyPreview}
use gatelet.Client.Events.{EventType, response_started, request_forwarding}
use gatelet.Client.Log.{format_bytes}
use gatelet.Tui.Model.{RequestItem}
use gatelet.Tui.Format.{is_queued}

-- The styles of the package that the functions use.
pub record Styles : Type 0 where
  pub key : Bytes → Bytes
  pub val : Bytes → Bytes
  pub muted : Bytes → Bytes
  pub heading : Bytes → Bytes
  pub status_2xx : Bytes → Bytes
  pub status_3xx : Bytes → Bytes
  pub status_4xx : Bytes → Bytes
  pub status_5xx : Bytes → Bytes
  pub queued : Bytes → Bytes

-- internal/tui/list.go: `statusStyle` and `methodStyle`.
unfoldable pub status_style : Styles → RequestItem → Bytes → Bytes
status_style styles item =
    if not (is_empty item.error) || leb 500 item.status_code
    then styles.status_5xx
    else if leb 400 item.status_code
    then styles.status_4xx
    else if leb 300 item.status_code
    then styles.status_3xx
    else if leb 200 item.status_code
    then styles.status_2xx
    else if is_queued item.state
    then styles.queued
    else styles.muted

unfoldable pub method_style : Styles → Bytes → Bytes → Bytes
method_style styles method =
    if method == codes "GET"
    then styles.key
    else if method == codes "POST" || (method == codes "PUT" || method == codes "PATCH")
    then styles.heading
    else if method == codes "DELETE"
    then styles.status_5xx
    else styles.val

-- `strings.EqualFold` on ASCII.
abbrev equal_fold : Bytes → Bytes → Bool
equal_fold a b = to_lower a == to_lower b

unfoldable pub redact_header : Bytes → Bool
redact_header key =
    equal_fold key (codes "Authorization") || equal_fold key (codes "Proxy-Authorization")

-- `strings.Join(values, ", ")`.
abbrev pub join_values : List Bytes → Bytes
join_values [] = []
join_values (v ∷ []) = v
join_values (v ∷ w ∷ vs) = v ++ (codes ", " ++ join_values (w ∷ vs))

abbrev pub shown_value : Bytes × List Bytes → Bytes
shown_value (key, values) = if redact_header key then codes "(redacted)" else join_values values

module _ (styles : Styles) where
  abbrev header_line : Bytes × List Bytes → Bytes
  header_line (key, values) =
      codes "  "
      ++ (styles.key (key ++ codes ":")
          ++ (b' ' ∷ (styles.val (shown_value (key, values)) ++ b'\n' ∷ [])))

  more_line : ℕ → Bytes
  unfolding decimal
  more_line rest =
      codes "  " ++ (styles.muted (codes "... " ++ (decimal rest ++ codes " more")) ++ b'\n' ∷ [])

  -- The loop of `writeHeaders` from the number `i` on; `total` is the number of the keys.
  header_lines : ℕ → ℕ → ℕ → List (Bytes × List Bytes) → Bytes
  unfolding redact_header more_line
  header_lines limit total i [] = []
  header_lines limit total i (h ∷ hs) =
      if leb limit i
      then more_line (total - limit)
      else header_line h ++ header_lines limit total (suc i) hs

  -- `headers` lists the keys with their values in the order of `sort.Strings`.
  unfoldable pub write_headers : List (Bytes × List Bytes) → ℕ → Bytes
  unfolding header_lines
  write_headers [] limit = codes "  " ++ (styles.muted (codes "(none)") ++ b'\n' ∷ [])
  write_headers headers limit = header_lines limit (length headers) 0 headers

  unfoldable pub write_meta : Bytes → Bytes → Bytes
  write_meta label value =
      codes "  " ++ (styles.key (label ++ codes ":") ++ (b' ' ∷ (styles.val value ++ b'\n' ∷ [])))

unfoldable pub body_state_response : EventType → Bytes
body_state_response response_started =
    codes "(streaming response; body preview will appear when data is captured)"
body_state_response request_forwarding = codes "(waiting for upstream response)"
body_state_response _ = []

-- The size that is shown as captured.
abbrev captured_size : BodyPreview → ℕ
captured_size p =
    let at_first = if p.captured == 0 && not (is_empty p.text) then length p.text else p.captured in
    if at_first == 0 && (ltb 0 p.size && not p.omitted) then p.size else at_first

unfoldable pub captured_summary : BodyPreview → Bytes
unfolding format_bytes
captured_summary p =
    if ltb 0 p.size
    then codes "captured "
      ++ (format_bytes (pos (captured_size p)) ++ (codes " of " ++ format_bytes (pos p.size)))
    else codes "captured " ++ format_bytes (pos (captured_size p))

abbrev has_suffix : Bytes → Bytes → Bool
has_suffix suffix s = elim (strip_suffix suffix s) [ none ↦ false | some _ ↦ true ]

unfoldable pub is_json_content_type : Bytes → Bool
unfolding cut trim_space strip_suffix
is_json_content_type content_type =
    let first : Bytes = elim (cut b';' content_type) [
      | none ↦ content_type
      | some (before, _) ↦ before
    ] in
    let media_type = to_lower (trim_space first) in
    media_type == codes "application/json" || has_suffix (codes "+json") media_type
