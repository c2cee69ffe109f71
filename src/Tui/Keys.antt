-- ===== src/Tui/Keys.antt =====
-- internal/tui/model.go: `updateKey`. A handler of a key ends the call or falls to the three clamps
-- after the switch.
pub mod Sound
use gatelet.Prelude.{
  Bool, true, false, Option, none, some, List, [], ◌∷◌, ◌++◌, if◌then◌else◌, nat_eq, lookup, Bytes,
  codes, bytes_eq, or_else, pos,
}
use gatelet.Tui.Model.{
  view_list, view_inspector, InspectorTab, tab_request, tab_response, Model, World, Cmd, no_cmd,
  quit_cmd, clear_screen_cmd,
}
use gatelet.Tui.Selection.{clamp_selection, clamp_detail_scroll, clamp_body_scroll}
use gatelet.Tui.Handlers.{
  on_esc, on_pause, on_enter, on_body, on_slash, on_clear, on_up, on_down, on_page_up, on_page_down,
  on_format, on_home, on_end,
}
use gatelet.Tui.Actions.{copy_selected_curl, export_selected_curl, replay_selected_request}

-- The cases of the switch in `updateKey`.
pub data Key : Type 0 where
  quit_key esc_key pause_key enter_key body_key tab_key right_key left_key slash_key copy_key : Key
  curl_key export_key replay_key clear_key up_key down_key page_up_key page_down_key : Key
  format_key home_key end_key unbound_key : Key

abbrev bindings : List (Bytes × Key)
bindings =
    (codes "ctrl+c", quit_key)
    ∷ (codes "q", quit_key)
    ∷ (codes "esc", esc_key)
    ∷ (codes "p", pause_key)
    ∷ (codes "P", pause_key)
    ∷ (codes "enter", enter_key)
    ∷ (codes "b", body_key)
    ∷ (codes "tab", tab_key)
    ∷ (codes "l", right_key)
    ∷ (codes "right", right_key)
    ∷ (codes "h", left_key)
    ∷ (codes "left", left_key)
    ∷ (codes "/", slash_key)
    ∷ (codes "c", copy_key)
    ∷ (codes "y", curl_key)
    ∷ (codes "e", export_key)
    ∷ (codes "r", replay_key)
    ∷ (codes "x", clear_key)
    ∷ (codes "up", up_key)
    ∷ (codes "k", up_key)
    ∷ (codes "down", down_key)
    ∷ (codes "j", down_key)
    ∷ (codes "pgup", page_up_key)
    ∷ (codes "u", page_up_key)
    ∷ (codes "pgdown", page_down_key)
    ∷ (codes "d", page_down_key)
    ∷ (codes " ", page_down_key)
    ∷ (codes "f", format_key)
    ∷ (codes "F", format_key)
    ∷ (codes "home", home_key)
    ∷ (codes "g", home_key)
    ∷ (codes "end", end_key)
    ∷ (codes "G", end_key)
    ∷ []

unfoldable pub key_of : Bytes → Key
key_of name = or_else (lookup name bindings) unbound_key

pub data Handled : Type 0 where
  returned : Model → Cmd → Handled
  falls : Model → Handled

module _ (world : World) where
  abbrev pub clamp_all : Model → Model
  clamp_all m = clamp_body_scroll world (clamp_detail_scroll world (clamp_selection m))

  abbrev pub show_tab : Model → InspectorTab → Handled
  show_tab m tab =
      returned
        (clamp_all (record m { inspector_tab = tab; detail_scroll = pos 0; body_scroll = pos 0 }))
        clear_screen_cmd

  unfoldable pub on_right : Model → Bool → Handled
  unfolding clamp_selection clamp_detail_scroll clamp_body_scroll
  on_right m cycles = elim m.mode [
    | view_list ↦ falls m
    | _ ↦ elim m.inspector_tab [
      | tab_request ↦ show_tab m tab_response
      | tab_response ↦ if cycles then show_tab m tab_request else falls m
    ]
  ]

  unfoldable pub on_left : Model → Handled
  unfolding clamp_selection clamp_detail_scroll clamp_body_scroll
  on_left m = elim m.mode [
    | view_list ↦ falls m
    | _ ↦ elim m.inspector_tab [ tab_request ↦ falls m | tab_response ↦ show_tab m tab_request ]
  ]

  unfoldable pub on_copy : Model → Model
  on_copy m = elim (world.copy_text m.url) [
    | some e ↦ record m { message = codes "copy failed: " ++ e }
    | none ↦ record m { message = codes "copied " ++ m.url }
  ]

  unfoldable pub on_curl : Model → Model
  unfolding copy_selected_curl
  on_curl m = elim m.mode [ view_inspector ↦ copy_selected_curl world m | _ ↦ m ]

  unfoldable pub on_export : Model → Model
  unfolding export_selected_curl
  on_export m = elim m.mode [ view_inspector ↦ export_selected_curl world m | _ ↦ m ]

  unfoldable pub on_replay : Model → Handled
  unfolding replay_selected_request
  on_replay m = elim m.mode [
    | view_inspector ↦
        let (replaying, cmd) = replay_selected_request world m in returned replaying cmd
    | _ ↦ falls m
  ]

  unfoldable pub handle_key : Model → Key → Option Handled
  unfolding on_esc on_pause on_enter on_body on_slash on_clear on_up on_down on_page_up on_page_down
      on_format on_home on_end on_right on_left on_copy on_curl on_export on_replay
  handle_key m quit_key = some (returned (record m { cancelled = true }) quit_cmd)
  handle_key m esc_key = some (falls (on_esc m))
  handle_key m pause_key = elim (on_pause m) [ none ↦ none | some toggled ↦ some (falls toggled) ]
  handle_key m enter_key = some (falls (on_enter m))
  handle_key m body_key = some (falls (on_body m))
  handle_key m tab_key = some (on_right m true)
  handle_key m right_key = some (on_right m false)
  handle_key m left_key = some (on_left m)
  handle_key m slash_key = some (falls (on_slash m))
  handle_key m copy_key = some (falls (on_copy m))
  handle_key m curl_key = some (falls (on_curl m))
  handle_key m export_key = some (falls (on_export m))
  handle_key m replay_key = some (on_replay m)
  handle_key m clear_key = some (falls (on_clear m))
  handle_key m up_key = some (falls (on_up m))
  handle_key m down_key = some (falls (on_down m))
  handle_key m page_up_key = some (falls (on_page_up m))
  handle_key m page_down_key = some (falls (on_page_down m))
  handle_key m format_key = some (falls (on_format m))
  handle_key m home_key = some (falls (on_home m))
  handle_key m end_key = some (falls (on_end m))
  handle_key m unbound_key = some (falls m)

  abbrev pub after_key : Handled → Model × Cmd
  after_key (returned m cmd) = (m, cmd)
  after_key (falls m) = (clamp_all m, no_cmd)

  unfoldable pub update_key : Model → Bytes → Option (Model × Cmd)
  unfolding clamp_selection clamp_detail_scroll clamp_body_scroll key_of handle_key
  update_key m name = elim (handle_key m (key_of name)) [
    | none ↦ none
    | some handled ↦ some (after_key handled)
  ]
