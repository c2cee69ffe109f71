-- ===== src/Tui/Inspector/Redacted.antt =====
-- The inspectors do not show what authorizes a request.
use gatelet.Prelude.{ℕ, ◌≡◌, ap, Bool, [], ◌∷◌, ◌++◌, codes, trim_right}
use gatelet.Client.Events.{Header}
use gatelet.Tui.Model.{RequestItem, InspectorTab, tab_request, tab_response}
use gatelet.Tui.Detail.{status_style, body_state_response}
use gatelet.Tui.Detail.Redacted.{Agrees, write_headers-Agrees}
use gatelet.Tui.Inspector.{
  Printer, heading, is_newline, write_preview, request_meta, response_meta,
  format_request_inspector, format_response_inspector, format_inspector,
}

-- Two requests that differ only in their headers, and in these only in the values under Authorization
-- and Proxy-Authorization in any case, look the same in both tabs of the inspector.
pub format_inspector-Agrees :
    (printer : Printer) (item : RequestItem) (requests responses : Header) (now : ℕ) (plain : Bool)
    (tab : InspectorTab)
    → Agrees (printer.sorted_keys item.request_header) (printer.sorted_keys requests)
    → Agrees (printer.sorted_keys item.response_header) (printer.sorted_keys responses)
    → format_inspector printer item now plain tab
      ≡ format_inspector printer
          (record item { request_header = requests; response_header = responses })
          now
          plain
          tab
unfolding format_inspector format_request_inspector format_response_inspector request_meta
    response_meta status_style
format_inspector-Agrees printer item requests responses now plain tab_request a b =
    ap
      (λ headers. trim_right is_newline (
        heading printer (codes "REQUEST")
        ++ (request_meta printer item now
            ++ (b'\n'
                ∷ (heading printer (codes "REQUEST HEADERS")
                    ++ (headers
                        ++ write_preview printer (codes "BODY") item.request_preview plain []
                            500))))))
      (write_headers-Agrees printer.styles _ _ 20 a)
format_inspector-Agrees printer item requests responses now plain tab_response a b =
    ap
      (λ headers. trim_right is_newline (
        heading printer (codes "RESPONSE")
        ++ (response_meta printer item
            ++ (b'\n'
                ∷ (heading printer (codes "RESPONSE HEADERS")
                    ++ (headers
                        ++ write_preview printer (codes "BODY") item.response_preview plain
                            (body_state_response item.state) 500))))))
      (write_headers-Agrees printer.styles _ _ 20 b)
