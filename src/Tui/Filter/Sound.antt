-- ===== src/Tui/Filter/Sound.antt =====
-- A message while a filter is typed leaves a sound model.
use gatelet.Prelude.{arith, Bytes}
use gatelet.Tui.Model.{Model, Msg, key_msg}
use gatelet.Tui.Selection.{clamp_selection}
use gatelet.Tui.Selection.Clamped.{IsSound, clamp_selection-IsSound}
use gatelet.Tui.Filter.{
  FilterKey, quit_filter, filter_key_of, edit_filter, update_filter_key, update_filter,
}

-- An edit touches the filter and what is shown of it.
edited-IsSound :
    (m : Model) (name : Bytes) (key : FilterKey)
    → IsSound m
    → IsSound (clamp_selection (edit_filter m name key))
unfolding edit_filter
edited-IsSound m name quit_filter (h, c, p) = clamp_selection-IsSound m h c.2 p
edited-IsSound m name key (h, c, p) = clamp_selection-IsSound (edit_filter m name key) h c.2 p

update_filter_key-IsSound :
    (m : Model) (name : Bytes) → IsSound m → IsSound (update_filter_key m name).0
unfolding update_filter_key
update_filter_key-IsSound m name s = ground (arith, edited-IsSound m name (filter_key_of name) s)

pub update_filter-IsSound : (m : Model) (msg : Msg) → IsSound m → IsSound (update_filter m msg).0
unfolding update_filter
update_filter-IsSound m (key_msg name) s = update_filter_key-IsSound m name s
update_filter-IsSound m _ s = s
