-- ===== src/Tui/Update/Readers.antt =====
-- How many receptions of an event the command of a message asks for.
use gatelet.Prelude.{
  ℕ, ◌≡◌, refl, subst, inl, inr, Bool, true, false, not, ◌&&◌, Option, none, some, arith,
  if◌then◌else◌, Option-cases, Bytes,
}
use gatelet.Client.Events.{EventType, tunnel_connected, tunnel_reconnecting}
use gatelet.Tui.Model.{
  Stamped, Model, World, Msg, window_size_msg, tick_msg, event_msg, target_probe_msg,
  client_done_msg, replay_done_msg, key_msg, other_msg, Cmd, wait_event_cmd, wait_and_probe_cmd,
}
use gatelet.Tui.Requests.{apply_event}
use gatelet.Tui.Actions.{replay_selected_request}
use gatelet.Tui.Keys.{
  Key, quit_key, pause_key, tab_key, right_key, left_key, replay_key, key_of, Handled, returned,
  falls, on_right, on_left, on_replay, handle_key, after_key, update_key,
}
use gatelet.Tui.Filter.{update_filter_key, update_filter}
use gatelet.Tui.Update.{
  on_request, replayed, on_replay_done, on_event_of, on_event, dispatch, update,
}

-- 1 for a command that receives from the channel of events.
abbrev pub readers : Cmd → ℕ
readers wait_event_cmd = 1
readers wait_and_probe_cmd = 1
readers _ = 0

abbrev pub is_event : Msg → Bool
is_event (event_msg stamped) = true
is_event _ = false

replay_selected_request-readers :
    (world : World) (m : Model) → readers (replay_selected_request world m).1 ≡ 0
unfolding replay_selected_request
replay_selected_request-readers world m = ground arith

abbrev Silent : Handled → Type 0
Silent (returned m cmd) = readers cmd ≡ 0
Silent (falls m) = Unit

on_right-Silent : (world : World) (m : Model) (cycles : Bool) → Silent (on_right world m cycles)
unfolding on_right
on_right-Silent world m cycles = ground arith

on_left-Silent : (world : World) (m : Model) → Silent (on_left world m)
unfolding on_left
on_left-Silent world m = ground arith

on_replay-Silent : (world : World) (m : Model) → Silent (on_replay world m)
unfolding on_replay
on_replay-Silent world m = ground (arith, replay_selected_request-readers world m)

abbrev AllSilent : Option Handled → Type 0
AllSilent none = Unit
AllSilent (some h) = Silent h

on_pause-AllSilent : (world : World) (m : Model) → AllSilent (handle_key world m pause_key)
unfolding handle_key
on_pause-AllSilent world m = ground arith

handle_key-AllSilent : (world : World) (m : Model) (key : Key) → AllSilent (handle_key world m key)
unfolding handle_key
handle_key-AllSilent world m quit_key = refl
handle_key-AllSilent world m pause_key = on_pause-AllSilent world m
handle_key-AllSilent world m tab_key = on_right-Silent world m true
handle_key-AllSilent world m right_key = on_right-Silent world m false
handle_key-AllSilent world m left_key = on_left-Silent world m
handle_key-AllSilent world m replay_key = on_replay-Silent world m
handle_key-AllSilent world m _ = tt

-- The result of a message, if there is one, asks for `n` receptions.
abbrev pub Asks : ℕ → Option (Model × Cmd) → Type 0
Asks n none = Unit
Asks n (some r) = readers r.1 ≡ n

after_key-readers : (world : World) (h : Handled) → Silent h → readers (after_key world h).1 ≡ 0
after_key-readers world (returned m cmd) e = e
after_key-readers world (falls m) e = refl

update_key-Asks : (world : World) (m : Model) (name : Bytes) → Asks 0 (update_key world m name)
unfolding update_key
update_key-Asks world m name = elim (Option-cases (handle_key world m (key_of name))) [
  | inl e ↦ rw (e, update_key) tt
  | inr (h, e) ↦
      rw (e, update_key)
        (after_key-readers world h (subst AllSilent e (handle_key-AllSilent world m (key_of name))))
]

on_replay_done-Asks :
    (m : Model) (id : ℕ) (s : Stamped) (error : Option Bytes) → Asks 0 (on_replay_done m id s error)
unfolding on_replay_done
on_replay_done-Asks m id s error = elim (Option-cases (replayed m id s)) [
  | inl e ↦ rw (e, on_replay_done) tt
  | inr (n, e) ↦ rw (e, on_replay_done) refl
]

on_request-Asks : (m : Model) (s : Stamped) → Asks 1 (on_request m s)
on_request-Asks m s = elim (Option-cases (apply_event m s)) [
  | inl e ↦ rw (e, Asks) tt
  | inr (n, e) ↦ rw (e, Asks) refl
]

on_event_of-Asks :
    (world : World) (m : Model) (s : Stamped) (type : EventType)
    → Asks 1 (on_event_of world m s type)
unfolding on_event_of
on_event_of-Asks world m s tunnel_connected = refl
on_event_of-Asks world m s tunnel_reconnecting = refl
on_event_of-Asks world m s _ = on_request-Asks m s

dispatch-Asks :
    (world : World) (m : Model) (msg : Msg)
    → Asks (if is_event msg then 1 else 0) (dispatch world m msg)
unfolding dispatch on_event
dispatch-Asks world m (window_size_msg width height) = refl
dispatch-Asks world m (tick_msg now) = refl
dispatch-Asks world m (event_msg s) = on_event_of-Asks world m s s.event.type
dispatch-Asks world m (target_probe_msg probed) = refl
dispatch-Asks world m (client_done_msg error) = refl
dispatch-Asks world m (replay_done_msg id s error) = on_replay_done-Asks m id s error
dispatch-Asks world m (key_msg name) = update_key-Asks world m name
dispatch-Asks world m other_msg = refl

update_filter-readers : (m : Model) (msg : Msg) → readers (update_filter m msg).1 ≡ 0
unfolding update_filter update_filter_key
update_filter-readers m (key_msg name) = ground arith
update_filter-readers m _ = refl

update_by-Asks :
    (world : World) (m : Model) (msg : Msg) (filtering : Bool)
    → Asks
        (if not filtering && is_event msg then 1 else 0)
        (if filtering then some (update_filter m msg) else dispatch world m msg)
update_by-Asks world m msg true = update_filter-readers m msg
update_by-Asks world m msg false = dispatch-Asks world m msg

-- Only an event outside of the filter asks for the next one.
pub update-readers :
    (world : World) (m n : Model) (msg : Msg) (cmd : Cmd)
    → update world m msg ≡ some (n, cmd)
    → readers cmd ≡ (if not m.filtering && is_event msg then 1 else 0)
unfolding update
update-readers world m n msg cmd e =
    subst (Asks (if not m.filtering && is_event msg then 1 else 0)) e
      (update_by-Asks world m msg m.filtering)
