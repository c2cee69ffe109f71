-- ===== src/Tui/Update.antt =====
-- internal/tui/model.go: `Update`.
pub mod Safety
pub mod Readers
pub mod Loop
use gatelet.Prelude.{
  ℕ, Option, none, some, ◌∷◌, ◌++◌, if◌then◌else◌, ◌==◌, nat_eq, Bytes, codes, bytes_eq, is_empty,
  starts_with, pos, ltbℤ, decimal,
}
use gatelet.Client.Events.{RequestEvent, EventType, tunnel_connected, tunnel_reconnecting}
use gatelet.Tui.Model.{
  Stamped, TargetHealth, Model, World, Msg, window_size_msg, tick_msg, event_msg, target_probe_msg,
  client_done_msg, replay_done_msg, key_msg, other_msg, Cmd, no_cmd, tick_cmd, wait_event_cmd,
  wait_and_probe_cmd,
}
use gatelet.Tui.Requests.{apply_event}
use gatelet.Tui.Selection.{clamp_selection, select_request_id}
use gatelet.Tui.Keys.{update_key}
use gatelet.Tui.Filter.{update_filter}

unfoldable pub on_connected : Model → RequestEvent → Model
on_connected m event = record m {
  status = codes "online";
  url = if is_empty event.public_url then m.url else event.public_url;
  message =
      if starts_with (codes "reconnecting:") m.message then codes "reconnected" else m.message;
}

-- Any other event.
abbrev pub on_request : Model → Stamped → Option (Model × Cmd)
on_request m stamped = elim (apply_event m stamped) [
  | none ↦ none
  | some applied ↦ some (clamp_selection applied, wait_event_cmd)
]

abbrev pub reselect : Model → ℕ → Model
reselect m source_id =
    if source_id == 0
    then clamp_selection m
    else elim (select_request_id m source_id) [ none ↦ clamp_selection m | some found ↦ found ]

abbrev pub replayed : Model → ℕ → Stamped → Option Model
replayed m source_id stamped =
    if stamped.event.id == 0 then some m else elim (apply_event m stamped) [
      | none ↦ none
      | some applied ↦ some (reselect applied source_id)
    ]

abbrev replay_message : RequestEvent → Option Bytes → Bytes
replay_message event (some e) = codes "replay failed: " ++ e
replay_message event none =
    codes "replay " ++ (decimal event.status_code ++ (b' ' ∷ event.request_uri))

unfoldable pub on_replay_done : Model → ℕ → Stamped → Option Bytes → Option (Model × Cmd)
unfolding apply_event clamp_selection select_request_id decimal
on_replay_done m source_id stamped error = elim (replayed m source_id stamped) [
  | none ↦ none
  | some done ↦ some (record done { message = replay_message stamped.event error }, no_cmd)
]

unfoldable pub on_client_done : Model → Option Bytes → Model
on_client_done m none = record m { status = codes "stopped" }
on_client_done m (some e) =
    if m.cancelled
    then record m { status = codes "stopped" }
    else record m { status = codes "disconnected"; message = e }

unfoldable pub on_probe : Model → TargetHealth → Model
on_probe m health = if m.target_live then m else record m { target_health = health }

module _ (world : World) where
  unfoldable pub on_reconnecting : Model → Stamped → Model
  on_reconnecting m stamped = record m {
    status = codes "reconnecting";
    message =
        codes "reconnecting: "
        ++ (if ltbℤ (pos 0) stamped.duration
            then stamped.event.error
              ++ (codes "; retry in " ++ world.show_duration stamped.duration)
            else stamped.event.error);
  }

  unfoldable pub on_event_of : Model → Stamped → EventType → Option (Model × Cmd)
  unfolding on_connected on_reconnecting apply_event clamp_selection
  on_event_of m stamped tunnel_connected = some (on_connected m stamped.event, wait_and_probe_cmd)
  on_event_of m stamped tunnel_reconnecting = some (on_reconnecting m stamped, wait_event_cmd)
  on_event_of m stamped _ = on_request m stamped

  unfoldable pub on_event : Model → Stamped → Option (Model × Cmd)
  unfolding on_event_of
  on_event m stamped = on_event_of m stamped stamped.event.type

  unfoldable pub dispatch : Model → Msg → Option (Model × Cmd)
  unfolding on_event on_probe on_client_done on_replay_done update_key
  dispatch m (window_size_msg width height) =
      some (record m { width = width; height = height }, no_cmd)
  dispatch m (tick_msg now) = some (record m { now = now }, tick_cmd)
  dispatch m (event_msg stamped) = on_event m stamped
  dispatch m (target_probe_msg health) = some (on_probe m health, no_cmd)
  dispatch m (client_done_msg error) = some (on_client_done m error, no_cmd)
  dispatch m (replay_done_msg source_id stamped error) = on_replay_done m source_id stamped error
  dispatch m (key_msg name) = update_key world m name
  dispatch m other_msg = some (m, no_cmd)

  unfoldable pub update : Model → Msg → Option (Model × Cmd)
  unfolding update_filter dispatch
  update m msg = if m.filtering then some (update_filter m msg) else dispatch m msg
