-- ===== src/Tui/Keys/Sound.antt =====
-- A key never panics, and leaves a sound model.
use gatelet.Prelude.{
  ◌≡◌, refl, inl, inr, Bool, true, false, some, arith, Option-cases, Bytes, pos, Result-cases,
}
use gatelet.Client.Events.{RequestEvent}
use gatelet.Client.Replay.{curl_command}
use gatelet.Tui.Model.{InspectorTab, tab_request, tab_response, Model, World, Cmd}
use gatelet.Tui.Selection.Clamped.{IsSound, IsUnclamped, IsNonneg-IsLoose, clamp_all-IsSound}
use gatelet.Tui.Actions.{
  copy_selected_curl, export_selected_curl, replay_selected_request, save_curl, selected_event,
  captured,
}
use gatelet.Tui.Handlers.Kept.{
  IsSound-IsUnclamped, on_esc-IsUnclamped, on_enter-IsUnclamped, on_clear-IsUnclamped,
  on_up-IsUnclamped, on_body-IsUnclamped, on_slash-IsUnclamped, on_down-IsUnclamped,
  on_page_up-IsUnclamped, on_page_down-IsUnclamped, on_format-IsUnclamped, on_home-IsUnclamped,
  on_end-IsUnclamped, on_pause-IsUnclamped,
}
use gatelet.Tui.Keys.{
  Key, quit_key, esc_key, pause_key, enter_key, body_key, tab_key, right_key, left_key, slash_key,
  copy_key, curl_key, export_key, replay_key, clear_key, up_key, down_key, page_up_key,
  page_down_key, format_key, home_key, end_key, unbound_key, key_of, Handled, returned, falls,
  show_tab, on_right, on_left, on_copy, on_curl, on_export, on_replay, handle_key, after_key,
  update_key,
}

abbrev IsHandled : Handled → Type 0
IsHandled (returned m cmd) = IsSound m
IsHandled (falls m) = IsUnclamped m

module _ (world : World) where
  show_tab-IsHandled :
      (m : Model) (tab : InspectorTab) → IsUnclamped m → IsHandled (show_tab world m tab)
  show_tab-IsHandled m tab (h, b, p) =
      clamp_all-IsSound world
        (record m { inspector_tab = tab; detail_scroll = pos 0; body_scroll = pos 0 })
        (h, IsNonneg-IsLoose m.mode (pos 0) tt, p)

  on_right-IsHandled :
      (m : Model) (cycles : Bool) → IsUnclamped m → IsHandled (on_right world m cycles)
  unfolding on_right
  on_right-IsHandled m cycles u =
      ground (arith, show_tab-IsHandled m tab_request u, show_tab-IsHandled m tab_response u)

  on_left-IsHandled : (m : Model) → IsUnclamped m → IsHandled (on_left world m)
  unfolding on_left
  on_left-IsHandled m u = ground (arith, show_tab-IsHandled m tab_request u)

  on_copy-IsUnclamped : (m : Model) → IsUnclamped m → IsUnclamped (on_copy world m)
  unfolding on_copy
  on_copy-IsUnclamped m u = ground arith

  copy_selected_curl-IsUnclamped :
      (m : Model) → IsUnclamped m → IsUnclamped (copy_selected_curl world m)
  unfolding copy_selected_curl
  copy_selected_curl-IsUnclamped m u = ground arith

  save_curl-IsUnclamped :
      (m : Model) (event : RequestEvent) (command : Bytes)
      → IsUnclamped m
      → IsUnclamped (save_curl world m event command)
  unfolding save_curl
  save_curl-IsUnclamped m event command u = ground arith

  export_selected_curl-IsUnclamped :
      (m : Model) → IsUnclamped m → IsUnclamped (export_selected_curl world m)
  unfolding export_selected_curl
  export_selected_curl-IsUnclamped m u = elim (Option-cases (selected_event m)) [
    | inl e ↦ rw (e, export_selected_curl) u
    | inr (s, e) ↦ elim (Result-cases (curl_command (captured world s.event) m.url)) [
      | inl (c, f) ↦ rw (e, f, export_selected_curl) (save_curl-IsUnclamped m s.event c u)
      | inr (r, f) ↦ rw (e, f, export_selected_curl) u
    ]
  ]

  -- A replay changes the message only.
  replay_selected_request-IsSound :
      (m : Model) → IsSound m → IsSound (replay_selected_request world m).0
  unfolding replay_selected_request
  replay_selected_request-IsSound m u = ground arith

  on_curl-IsUnclamped : (m : Model) → IsUnclamped m → IsUnclamped (on_curl world m)
  unfolding on_curl
  on_curl-IsUnclamped m u = ground (arith, copy_selected_curl-IsUnclamped m u)

  on_export-IsUnclamped : (m : Model) → IsUnclamped m → IsUnclamped (on_export world m)
  unfolding on_export
  on_export-IsUnclamped m u = ground (arith, export_selected_curl-IsUnclamped m u)

  on_replay-IsHandled : (m : Model) → IsSound m → IsHandled (on_replay world m)
  unfolding on_replay
  on_replay-IsHandled m s =
      ground (arith, replay_selected_request-IsSound m s, IsSound-IsUnclamped m s)

  after_key-IsSound : (h : Handled) → IsHandled h → IsSound (after_key world h).0
  after_key-IsSound (returned m cmd) s = s
  after_key-IsSound (falls m) u = clamp_all-IsSound world m u

  handle_key-IsHandled :
      (m : Model) (key : Key)
      → IsSound m
      → (h : Handled) × (handle_key world m key ≡ some h) × IsHandled h
  unfolding handle_key on_curl on_export on_replay
  handle_key-IsHandled m quit_key s = (_, refl, s)
  handle_key-IsHandled m esc_key s = (_, refl, on_esc-IsUnclamped m (IsSound-IsUnclamped m s))
  handle_key-IsHandled m pause_key s =
      let (n, run, ok_n) = on_pause-IsUnclamped m (IsSound-IsUnclamped m s) in
      (falls n, (rw (run, handle_key) refl), ok_n)
  handle_key-IsHandled m enter_key s = (_, refl, on_enter-IsUnclamped m (IsSound-IsUnclamped m s))
  handle_key-IsHandled m body_key s = (_, refl, on_body-IsUnclamped m (IsSound-IsUnclamped m s))
  handle_key-IsHandled m tab_key s = (_, refl, on_right-IsHandled m true (IsSound-IsUnclamped m s))
  handle_key-IsHandled m right_key s =
      (_, refl, on_right-IsHandled m false (IsSound-IsUnclamped m s))
  handle_key-IsHandled m left_key s = (_, refl, on_left-IsHandled m (IsSound-IsUnclamped m s))
  handle_key-IsHandled m slash_key s = (_, refl, on_slash-IsUnclamped m (IsSound-IsUnclamped m s))
  handle_key-IsHandled m copy_key s = (_, refl, on_copy-IsUnclamped m (IsSound-IsUnclamped m s))
  handle_key-IsHandled m curl_key s = (_, refl, on_curl-IsUnclamped m (IsSound-IsUnclamped m s))
  handle_key-IsHandled m export_key s = (_, refl, on_export-IsUnclamped m (IsSound-IsUnclamped m s))
  handle_key-IsHandled m replay_key s = (_, refl, on_replay-IsHandled m s)
  handle_key-IsHandled m clear_key s = (_, refl, on_clear-IsUnclamped m (IsSound-IsUnclamped m s))
  handle_key-IsHandled m up_key s = (_, refl, on_up-IsUnclamped m (IsSound-IsUnclamped m s))
  handle_key-IsHandled m down_key s = (_, refl, on_down-IsUnclamped m (IsSound-IsUnclamped m s))
  handle_key-IsHandled m page_up_key s =
      (_, refl, on_page_up-IsUnclamped m (IsSound-IsUnclamped m s))
  handle_key-IsHandled m page_down_key s =
      (_, refl, on_page_down-IsUnclamped m (IsSound-IsUnclamped m s))
  handle_key-IsHandled m format_key s = (_, refl, on_format-IsUnclamped m (IsSound-IsUnclamped m s))
  handle_key-IsHandled m home_key s = (_, refl, on_home-IsUnclamped m (IsSound-IsUnclamped m s))
  handle_key-IsHandled m end_key s = (_, refl, on_end-IsUnclamped m (IsSound-IsUnclamped m s))
  handle_key-IsHandled m unbound_key s = (_, refl, IsSound-IsUnclamped m s)

  -- After a key.
  pub update_key-IsSound :
      (m : Model) (name : Bytes)
      → IsSound m
      → (r : Model × Cmd) × (update_key world m name ≡ some r) × IsSound r.0
  unfolding update_key
  update_key-IsSound m name s =
      let (h, run, ok_h) = handle_key-IsHandled m (key_of name) s in
      (after_key world h, (rw (run, update_key) refl), after_key-IsSound h ok_h)
