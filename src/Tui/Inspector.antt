-- ===== src/Tui/Inspector.antt =====
-- internal/tui/detail.go: the preview of a body and the texts of the two inspectors.
pub mod Redacted
use gatelet.Prelude.{
  ℕ, Bool, true, false, not, ◌&&◌, ◌||◌, Option, none, some, List, [], ◌∷◌, ◌++◌, leb,
  if◌then◌else◌, ◌==◌, nat_eq, Bytes, codes, bytes_eq, is_empty, trim_prefix, trim_right,
  trim_space, ℤ,
}
use gatelet.Client.Preview.{BodyPreview}
use gatelet.Client.Events.{ErrorKind, no_kind, local_target, tunnel, remote_ip}
use gatelet.Client.Log.{format_bytes}
use gatelet.Tui.Model.{RequestItem, InspectorTab, tab_request, tab_response}
use gatelet.Tui.Format.{status_text, state_label, relative_age}
use gatelet.Tui.Detail.{
  Styles, status_style, write_headers, write_meta, body_state_response, captured_summary,
  is_json_content_type,
}
use gatelet.Tui.Colours.{colorize_json}

-- What the texts are made with: the styles; `json.Indent`; `ansi.Truncate` on text that is too wide;
-- the widths, the clock and the prints of a time and of a duration.
pub record Printer : Type 0 where
  pub styles : Styles
  pub indent_json : Bytes → Option Bytes
  pub text_width : Bytes → ℕ
  pub shorten : Bytes → ℕ → Bytes
  pub clock : ℕ
  pub show_time : ℕ → Bytes
  pub show_duration : ℤ → Bytes
  pub row : Bytes → Bytes
  pub sorted_keys : List (Bytes × List Bytes) → List (Bytes × List Bytes)

-- `strings.ReplaceAll(text, "\n", "\n  ")`.
abbrev pub indented : Bytes → Bytes
indented [] = []
indented (c ∷ cs) = if c == b'\n' then c ∷ b' ' ∷ b' ' ∷ indented cs else c ∷ indented cs

abbrev is_newline : ℕ → Bool
is_newline c = c == b'\n'

module _ (printer : Printer) where
  unfoldable pub limit_preview_text : Bytes → ℕ → Bytes
  limit_preview_text text limit =
      if limit == 0 || leb (printer.text_width text) limit then text else printer.shorten text limit

  unfoldable pub can_format_json : BodyPreview → Bool
  unfolding trim_space is_json_content_type
  can_format_json p =
      if is_empty (trim_space p.text)
      then false
      else is_json_content_type p.content_type
        || (elim (printer.indent_json p.text) [ none ↦ false | some _ ↦ true ])

  abbrev plain_text : BodyPreview → ℕ → Bytes
  plain_text p limit = printer.styles.val (limit_preview_text p.text limit)

  unfoldable pub preview_text : BodyPreview → Bool → ℕ → Bytes
  unfolding limit_preview_text can_format_json colorize_json
  preview_text p true limit = plain_text p limit
  preview_text p false limit = elim (printer.indent_json p.text) [
    | none ↦ plain_text p limit
    | some formatted ↦
        if can_format_json p
        then colorize_json printer.styles (limit_preview_text formatted limit)
        else plain_text p limit
  ]

  abbrev muted_line : Bytes → Bytes
  muted_line text = codes "  " ++ (printer.styles.muted text ++ b'\n' ∷ [])

  abbrev pub heading : Bytes → Bytes
  heading title = printer.row (printer.styles.heading title) ++ b'\n' ∷ []

  abbrev omitted_lines : BodyPreview → Bytes
  unfolding captured_summary
  omitted_lines p =
      muted_line (codes "omitted: " ++ p.reason)
      ++ ((if is_empty p.content_type
            then []
            else muted_line (codes "content-type: " ++ p.content_type))
          ++ muted_line (captured_summary p))

  abbrev text_lines : BodyPreview → Bool → ℕ → Bytes
  unfolding preview_text captured_summary
  text_lines p plain limit =
      codes "  "
      ++ (indented (preview_text p plain limit)
          ++ (b'\n'
              ∷ (if p.omitted
                  then muted_line
                      (codes "omitted: " ++ (p.reason ++ (codes "; " ++ captured_summary p)))
                  else [])))

  abbrev preview_lines : BodyPreview → Bool → Bytes → ℕ → Bytes
  preview_lines p plain state limit =
      if not (is_empty state) && (p.size == 0 && (is_empty p.text && not p.omitted))
      then muted_line state
      else if p.size == 0
      then muted_line (codes "(empty)")
      else if p.omitted && is_empty p.text
      then omitted_lines p
      else text_lines p plain limit

  unfoldable pub write_preview : Bytes → BodyPreview → Bool → Bytes → ℕ → Bytes
  unfolding preview_text captured_summary omitted_lines text_lines
  write_preview title p plain state limit =
      b'\n' ∷ (heading title ++ preview_lines p plain state limit)

  unfoldable pub error_kind_label : ErrorKind → Bytes
  error_kind_label no_kind = printer.styles.val []
  error_kind_label local_target = printer.styles.status_5xx (codes "local target")
  error_kind_label tunnel = printer.styles.queued (codes "tunnel")

  abbrev meta : Bytes → Bytes → Bytes
  meta = write_meta printer.styles

  abbrev meta_unless : Bool → Bytes → Bytes → Bytes
  meta_unless absent label value = if absent then [] else meta label value

  abbrev has_no_kind : ErrorKind → Bool
  has_no_kind no_kind = true
  has_no_kind _ = false

  abbrev error_lines : RequestItem → Bytes
  unfolding error_kind_label write_meta
  error_lines item =
      meta_unless (has_no_kind item.error_kind) (codes "Error Kind")
        (error_kind_label item.error_kind)
      ++ meta_unless (is_empty item.error) (codes "Error") (printer.styles.status_5xx item.error)

  unfoldable pub request_meta : RequestItem → ℕ → Bytes
  unfolding error_lines write_meta state_label remote_ip relative_age format_bytes
  request_meta item now =
      meta (codes "URL") (item.method ++ (b' ' ∷ item.request_uri))
      ++ (meta_unless (is_empty item.target_url) (codes "Forwarded to") item.target_url
          ++ (meta (codes "State") (state_label item.state)
              ++ (meta (codes "Client") (remote_ip item.remote_addr)
                  ++ (meta (codes "Host") item.host
                      ++ (meta (codes "Started") (printer.show_time item.started_at)
                          ++ (meta (codes "Age") (relative_age printer.clock now item.started_at)
                              ++ (meta (codes "Request Size") (format_bytes item.request_size)
                                  ++ (meta_unless (not item.http_basic_auth) (codes "HTTP Auth")
                                        (codes "enabled")
                                      ++ error_lines item))))))))

  unfoldable pub format_request_inspector : RequestItem → ℕ → Bool → Bytes
  unfolding request_meta write_headers write_preview trim_right
  format_request_inspector item now plain = trim_right is_newline (
      heading (codes "REQUEST")
      ++ (request_meta item now
          ++ (b'\n'
              ∷ (heading (codes "REQUEST HEADERS")
                  ++ (write_headers printer.styles (printer.sorted_keys item.request_header) 20
                      ++ write_preview (codes "BODY") item.request_preview plain [] 500)))))

  unfoldable pub response_meta : RequestItem → Bytes
  unfolding error_lines write_meta status_text state_label format_bytes
  response_meta item =
      meta (codes "URL") (item.method ++ (b' ' ∷ item.request_uri))
      ++ (meta (codes "Status") (status_style printer.styles item (status_text item))
          ++ (meta (codes "State") (state_label item.state)
              ++ (meta_unless (is_empty item.target_url) (codes "Target") item.target_url
                  ++ (meta (codes "Timing")
                        (codes "Upstream " ++ printer.show_duration item.duration)
                      ++ (meta (codes "Request Size") (format_bytes item.request_size)
                          ++ (meta (codes "Response Size") (format_bytes item.response_size)
                              ++ error_lines item))))))

  unfoldable pub format_response_inspector : RequestItem → Bool → Bytes
  unfolding response_meta write_headers write_preview body_state_response trim_right
  format_response_inspector item plain = trim_right is_newline (
      heading (codes "RESPONSE")
      ++ (response_meta item
          ++ (b'\n'
              ∷ (heading (codes "RESPONSE HEADERS")
                  ++ (write_headers printer.styles (printer.sorted_keys item.response_header) 20
                      ++ write_preview (codes "BODY") item.response_preview plain
                          (body_state_response item.state) 500)))))

  unfoldable pub format_inspector : RequestItem → ℕ → Bool → InspectorTab → Bytes
  unfolding format_request_inspector format_response_inspector
  format_inspector item now plain tab_response = format_response_inspector item plain
  format_inspector item now plain tab_request = format_request_inspector item now plain

  -- The newline that `writePreview` starts with is trimmed.
  unfoldable pub format_body_view : RequestItem → Bool → InspectorTab → Bytes
  unfolding write_preview body_state_response trim_right
  format_body_view item plain tab_response = trim_right is_newline (
      trim_prefix (codes "\n") (
        write_preview (codes "BODY") item.response_preview plain (body_state_response item.state)
          0))
  format_body_view item plain tab_request =
      trim_right is_newline
        (trim_prefix (codes "\n") (write_preview (codes "BODY") item.request_preview plain [] 0))
