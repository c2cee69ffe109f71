-- ===== src/Tui/Handlers.antt =====
-- internal/tui/model.go: the cases of `updateKey` that fall to the clamps after the switch.
pub mod Kept
use gatelet.Prelude.{
  true, not, Option, none, some, [], ltb, if◌then◌else◌, length, codes, pos, ltbℤ, plusℤ, minusℤ,
}
use gatelet.Client.Pause.{PauseController, toggle}
use gatelet.Tui.Model.{view_list, view_inspector, view_body, tab_request, Model}
use gatelet.Tui.Selection.{visible_requests, max, detail_height, body_height}

unfoldable pub on_esc : Model → Model
on_esc m = elim m.mode [
  | view_body ↦ record m { mode = view_inspector; body_scroll = pos 0; message = [] }
  | view_inspector ↦ record m { mode = view_list; detail_scroll = pos 0; message = [] }
  | view_list ↦ m
]

abbrev pub toggled : Model → PauseController → Model
unfolding toggle
toggled m p =
    let (next, paused) = toggle p in
    record m {
      pause = some next;
      paused = paused;
      message =
          if paused
          then codes "paused: new requests will wait"
          else codes "resumed: queued requests are forwarding";
    }

-- `Toggle` on a nil controller panics.
unfoldable pub on_pause : Model → Option Model
unfolding toggle
on_pause m = elim m.pause [ none ↦ none | some p ↦ some (toggled m p) ]

abbrev opened : Model → Model
opened m = record m {
  mode = view_inspector;
  inspector_tab = tab_request;
  detail_scroll = pos 0;
  message = [];
}

unfoldable pub on_enter : Model → Model
unfolding visible_requests
on_enter m = elim m.mode [
  | view_list ↦ if ltb 0 (length (visible_requests m)) then opened m else m
  | _ ↦ m
]

unfoldable pub on_body : Model → Model
on_body m = elim m.mode [
  | view_inspector ↦ record m { mode = view_body; body_scroll = pos 0; message = [] }
  | view_body ↦ record m { mode = view_inspector; body_scroll = pos 0; message = [] }
  | view_list ↦ m
]

unfoldable pub on_slash : Model → Model
on_slash m = elim m.mode [ view_list ↦ record m { filtering = true; message = [] } | _ ↦ m ]

unfoldable pub on_clear : Model → Model
on_clear m = elim m.mode [
  | view_list ↦ record m {
    requests = [];
    index = [];
    selected = pos 0;
    message = codes "history cleared";
  }
  | _ ↦ m
]

unfoldable pub on_up : Model → Model
on_up m = elim m.mode [
  | view_body ↦ record m { body_scroll = minusℤ m.body_scroll 1 }
  | view_inspector ↦ record m { detail_scroll = minusℤ m.detail_scroll 1 }
  | view_list ↦ if ltbℤ (pos 0) m.selected then record m { selected = minusℤ m.selected 1 } else m
]

unfoldable pub on_down : Model → Model
unfolding visible_requests
on_down m = elim m.mode [
  | view_body ↦ record m { body_scroll = plusℤ m.body_scroll 1 }
  | view_inspector ↦ record m { detail_scroll = plusℤ m.detail_scroll 1 }
  | view_list ↦
      if ltbℤ m.selected (minusℤ (pos (length (visible_requests m))) 1)
      then record m { selected = plusℤ m.selected 1 }
      else m
]

unfoldable pub on_page_up : Model → Model
unfolding detail_height body_height
on_page_up m = elim m.mode [
  | view_body ↦ record m { body_scroll = minusℤ m.body_scroll (max 1 (body_height m)) }
  | view_inspector ↦ record m { detail_scroll = minusℤ m.detail_scroll (max 1 (detail_height m)) }
  | view_list ↦ m
]

unfoldable pub on_page_down : Model → Model
unfolding detail_height body_height
on_page_down m = elim m.mode [
  | view_body ↦ record m { body_scroll = plusℤ m.body_scroll (max 1 (body_height m)) }
  | view_inspector ↦ record m { detail_scroll = plusℤ m.detail_scroll (max 1 (detail_height m)) }
  | view_list ↦ m
]

unfoldable pub on_format : Model → Model
on_format m = elim m.mode [
  | view_body ↦ record m { plain_body = not m.plain_body; body_scroll = pos 0 }
  | view_inspector ↦ record m { plain_body = not m.plain_body; detail_scroll = pos 0 }
  | view_list ↦ m
]

unfoldable pub on_home : Model → Model
on_home m = elim m.mode [
  | view_body ↦ record m { body_scroll = pos 0 }
  | view_inspector ↦ record m { detail_scroll = pos 0 }
  | view_list ↦ record m { selected = pos 0 }
]

unfoldable pub on_end : Model → Model
unfolding visible_requests
on_end m = elim m.mode [
  | view_list ↦ record m { selected = minusℤ (pos (length (visible_requests m))) 1 }
  | _ ↦ m
]
