-- ===== src/Tui/Update/Safety.antt =====
-- Every message, in every sound state, is handled without a panic and leaves a sound state.
use gatelet.Prelude.{
  ℕ, ◌≡◌, refl, sym, ap, ◌∙◌, subst, inl, inr, Bool, Option, none, some, arith, if◌then◌else◌, ◌==◌,
  nat_eq, Bool-cases, Option-cases, Bytes, bytes_eq, pos,
}
use gatelet.Client.Events.{EventType, tunnel_connected, tunnel_reconnecting}
use gatelet.Tui.Model.{
  Stamped, TargetHealth, Model, World, Msg, window_size_msg, tick_msg, event_msg, target_probe_msg,
  client_done_msg, replay_done_msg, key_msg, other_msg, Cmd, no_cmd, wait_event_cmd, start_model,
}
use gatelet.Tui.Requests.{apply_event, position_from}
use gatelet.Tui.Requests.History.{HasHistory}
use gatelet.Tui.Requests.Applied.{apply_event-Applied}
use gatelet.Tui.Selection.{clamp_selection, select_request_id, visible_requests}
use gatelet.Tui.Selection.Clamped.{IsNonneg, HasPause, IsSound, clamp_selection-IsSound}
use gatelet.Tui.Filter.{update_filter}
use gatelet.Tui.Keys.Sound.{update_key-IsSound}
use gatelet.Tui.Filter.Sound.{update_filter-IsSound}
use gatelet.Tui.Update.{
  on_connected, on_request, reselect, replayed, replay_message, on_replay_done, on_client_done,
  on_probe, on_reconnecting, on_event_of, on_event, dispatch, update,
}

-- What `applyEvent` leaves to the clamp that follows it.
abbrev IsApplied : Model → Type 0
IsApplied n = HasHistory n × IsNonneg n.body_scroll × HasPause n.pause

apply_event-IsApplied :
    (m : Model) (s : Stamped) → IsSound m → (n : Model) × (apply_event m s ≡ some n) × IsApplied n
apply_event-IsApplied m s (h, c, p) =
    let (n, run, applied, (fi, se, de, bo, pa)) = apply_event-Applied m s h in
    (n, run, (applied.0, subst IsNonneg (sym bo) c.2, subst HasPause (sym pa) p))

on_request-IsSound :
    (m : Model) (s : Stamped)
    → IsSound m
    → (r : Model × Cmd) × (on_request m s ≡ some r) × IsSound r.0
on_request-IsSound m s sound =
    let (n, run, (h, b, p)) = apply_event-IsApplied m s sound in
    (
      (clamp_selection n, wait_event_cmd),
      (rw (run, on_request) refl),
      clamp_selection-IsSound n h b p,
    )

on_event_of-IsSound :
    (world : World) (m : Model) (s : Stamped) (type : EventType)
    → IsSound m
    → (r : Model × Cmd) × (on_event_of world m s type ≡ some r) × IsSound r.0
unfolding on_event_of on_connected on_reconnecting
on_event_of-IsSound world m s tunnel_connected sound = (_, refl, sound)
on_event_of-IsSound world m s tunnel_reconnecting sound = (_, refl, sound)
on_event_of-IsSound world m s _ sound = on_request-IsSound m s sound

moved-IsSound :
    (m : Model) (id i : ℕ) → IsApplied m → IsSound (clamp_selection (record m { selected = pos i }))
moved-IsSound m id i (h, b, p) = clamp_selection-IsSound (record m { selected = pos i }) h b p

reselect-IsSound : (m : Model) (id : ℕ) → IsApplied m → IsSound (reselect m id)
unfolding select_request_id
reselect-IsSound m id a =
    let stay : IsSound (clamp_selection m) = clamp_selection-IsSound m a.0 a.1 a.2 in
    elim (Bool-cases (id == 0)) [
      | inl e ↦ rw e stay
      | inr e ↦ elim (Option-cases (position_from 0 id (visible_requests m))) [
        | inl f ↦ rw (e, f, select_request_id) stay
        | inr (i, f) ↦ rw (e, f, select_request_id) (moved-IsSound m id i a)
      ]
    ]

replayed-IsSound :
    (m : Model) (source_id : ℕ) (s : Stamped)
    → IsSound m
    → (n : Model) × (replayed m source_id s ≡ some n) × IsSound n
replayed-IsSound m source_id s sound = elim (Bool-cases (s.event.id == 0)) [
  | inl e ↦ (m, (rw e refl), sound)
  | inr e ↦
      let (n, run, applied) = apply_event-IsApplied m s sound in
      (reselect n source_id, (rw (e, run) refl), reselect-IsSound n source_id applied)
]

on_replay_done-IsSound :
    (m : Model) (source_id : ℕ) (s : Stamped) (error : Option Bytes)
    → IsSound m
    → (r : Model × Cmd) × (on_replay_done m source_id s error ≡ some r) × IsSound r.0
unfolding on_replay_done visible_requests
on_replay_done-IsSound m source_id s error sound =
    let (n, run, ok_n) = replayed-IsSound m source_id s sound in
    (
      (record n { message = replay_message s.event error }, no_cmd),
      (rw (run, on_replay_done) refl),
      ok_n,
    )

on_client_done-IsSound :
    (m : Model) (error : Option Bytes) → IsSound m → IsSound (on_client_done m error)
unfolding on_client_done visible_requests
on_client_done-IsSound m none s = s
on_client_done-IsSound m (some e) s = ground arith

on_probe-IsSound : (m : Model) (probed : TargetHealth) → IsSound m → IsSound (on_probe m probed)
unfolding on_probe visible_requests
on_probe-IsSound m probed s = ground arith

dispatch-IsSound :
    (world : World) (m : Model) (msg : Msg)
    → IsSound m
    → (r : Model × Cmd) × (dispatch world m msg ≡ some r) × IsSound r.0
unfolding dispatch on_event visible_requests
dispatch-IsSound world m (window_size_msg width height) s = (_, refl, s)
dispatch-IsSound world m (tick_msg now) s = (_, refl, s)
dispatch-IsSound world m (event_msg stamped) s =
    on_event_of-IsSound world m stamped stamped.event.type s
dispatch-IsSound world m (target_probe_msg probed) s = (_, refl, on_probe-IsSound m probed s)
dispatch-IsSound world m (client_done_msg error) s = (_, refl, on_client_done-IsSound m error s)
dispatch-IsSound world m (replay_done_msg id stamped error) s =
    on_replay_done-IsSound m id stamped error s
dispatch-IsSound world m (key_msg name) s = update_key-IsSound world m name s
dispatch-IsSound world m other_msg s = (_, refl, s)

-- In a state that is sound (the index gives the place of each request, each id stands once, at most 500
-- requests are kept, the selection is within the visible ones, no scroll position is negative and the
-- pause controller is there) no message panics, and every message leaves such a state.
pub update-IsSound :
    (world : World) (m : Model) (msg : Msg)
    → IsSound m
    → (r : Model × Cmd) × (update world m msg ≡ some r) × IsSound r.0
unfolding update
update-IsSound world m msg s =
    let by : Bool → Option (Model × Cmd) =
      λ filtering. if filtering then some (update_filter m msg) else dispatch world m msg in
    elim (Bool-cases m.filtering) [
      | inl e ↦ (update_filter m msg, ap by e, update_filter-IsSound m msg s)
      | inr e ↦ let (r, run, ok_r) = dispatch-IsSound world m msg s in (r, ap by e ∙ run, ok_r)
    ]

pub start_model-IsSound :
    (url target capture_dir : Bytes) (auth : Bool) (now : ℕ)
    → IsSound (start_model url target auth capture_dir now)
unfolding start_model visible_requests
start_model-IsSound url target capture_dir auth now =
    ((tt, refl, omega arith), (omega arith, tt, tt), tt)
