-- ===== src/Tui/Filter.antt =====
-- internal/tui/model.go: `updateFilter`, which takes every message while a filter is typed.
pub mod Sound
use gatelet.Prelude.{
  true, false, List, [], ◌∷◌, ◌++◌, if◌then◌else◌, ◌==◌, nat_eq, length, lookup, Bytes, codes,
  bytes_eq, is_empty, or_else,
}
use gatelet.Tui.Model.{Model, Msg, key_msg, Cmd, no_cmd, quit_cmd}
use gatelet.Tui.Selection.{clamp_selection}

-- The cases of the switch in `updateFilter`.
pub data FilterKey : Type 0 where
  quit_filter esc_filter enter_filter reset_filter erase_filter type_filter : FilterKey

abbrev filter_bindings : List (Bytes × FilterKey)
filter_bindings =
    (codes "ctrl+c", quit_filter)
    ∷ (codes "esc", esc_filter)
    ∷ (codes "enter", enter_filter)
    ∷ (codes "ctrl+u", reset_filter)
    ∷ (codes "backspace", erase_filter)
    ∷ []

unfoldable pub filter_key_of : Bytes → FilterKey
filter_key_of name = or_else (lookup name filter_bindings) type_filter

-- Only names of one byte are typed into the filter, so its last rune is its last byte.
abbrev pub drop_last : Bytes → Bytes
drop_last [] = []
drop_last (c ∷ []) = []
drop_last (c ∷ d ∷ cs) = c ∷ drop_last (d ∷ cs)

abbrev typed : Bytes → Bytes → Bytes
typed filter name = if length name == 1 then filter ++ name else filter

unfoldable pub edit_filter : Model → Bytes → FilterKey → Model
edit_filter m name quit_filter = m
edit_filter m name esc_filter = record m {
  filtering = false;
  filter = [];
  message = codes "filter cleared";
}
edit_filter m name enter_filter = record m {
  filtering = false;
  message = if is_empty m.filter then codes "filter cleared" else codes "filter: " ++ m.filter;
}
edit_filter m name reset_filter = record m { filter = [] }
edit_filter m name erase_filter = record m { filter = drop_last m.filter }
edit_filter m name type_filter = record m { filter = typed m.filter name }

unfoldable pub update_filter_key : Model → Bytes → Model × Cmd
unfolding filter_key_of edit_filter clamp_selection
update_filter_key m name = elim (filter_key_of name) [
  | quit_filter ↦ (record m { cancelled = true }, quit_cmd)
  | key ↦ (clamp_selection (edit_filter m name key), no_cmd)
]

unfoldable pub update_filter : Model → Msg → Model × Cmd
unfolding update_filter_key
update_filter m (key_msg name) = update_filter_key m name
update_filter m _ = (m, no_cmd)
