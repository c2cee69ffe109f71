-- ===== src/Tui/Handlers/Kept.antt =====
-- The handlers keep the history, and leave to the clamps what may be out of range.
use gatelet.Prelude.{◌≡◌, refl, subst, inl, inr, some, arith, Option-cases}
use gatelet.Tui.Model.{Model}
use gatelet.Tui.Selection.Clamped.{HasPause, IsSound, IsUnclamped, IsNonneg-IsLoose}
use gatelet.Tui.Handlers.{
  on_esc, on_pause, on_enter, on_body, on_slash, on_clear, on_up, on_down, on_page_up, on_page_down,
  on_format, on_home, on_end, toggled,
}

pub IsSound-IsUnclamped : (m : Model) → IsSound m → IsUnclamped m
IsSound-IsUnclamped m (h, c, p) = (h, IsNonneg-IsLoose m.mode m.body_scroll c.2, p)

pub on_esc-IsUnclamped : (m : Model) → IsUnclamped m → IsUnclamped (on_esc m)
unfolding on_esc
on_esc-IsUnclamped m u = ground arith

pub on_enter-IsUnclamped : (m : Model) → IsUnclamped m → IsUnclamped (on_enter m)
unfolding on_enter
on_enter-IsUnclamped m u = ground arith

pub on_clear-IsUnclamped : (m : Model) → IsUnclamped m → IsUnclamped (on_clear m)
unfolding on_clear
on_clear-IsUnclamped m u = ground arith

pub on_up-IsUnclamped : (m : Model) → IsUnclamped m → IsUnclamped (on_up m)
unfolding on_up
on_up-IsUnclamped m u = ground arith

pub on_body-IsUnclamped : (m : Model) → IsUnclamped m → IsUnclamped (on_body m)
unfolding on_body
on_body-IsUnclamped m u = ground arith

pub on_slash-IsUnclamped : (m : Model) → IsUnclamped m → IsUnclamped (on_slash m)
unfolding on_slash
on_slash-IsUnclamped m u = ground arith

pub on_down-IsUnclamped : (m : Model) → IsUnclamped m → IsUnclamped (on_down m)
unfolding on_down
on_down-IsUnclamped m u = ground arith

pub on_page_up-IsUnclamped : (m : Model) → IsUnclamped m → IsUnclamped (on_page_up m)
unfolding on_page_up
on_page_up-IsUnclamped m u = ground arith

pub on_page_down-IsUnclamped : (m : Model) → IsUnclamped m → IsUnclamped (on_page_down m)
unfolding on_page_down
on_page_down-IsUnclamped m u = ground arith

pub on_format-IsUnclamped : (m : Model) → IsUnclamped m → IsUnclamped (on_format m)
unfolding on_format
on_format-IsUnclamped m u = ground arith

pub on_home-IsUnclamped : (m : Model) → IsUnclamped m → IsUnclamped (on_home m)
unfolding on_home
on_home-IsUnclamped m u = ground arith

pub on_end-IsUnclamped : (m : Model) → IsUnclamped m → IsUnclamped (on_end m)
unfolding on_end
on_end-IsUnclamped m u = ground arith

-- `Toggle` is only called on a controller.
pub on_pause-IsUnclamped :
    (m : Model) → IsUnclamped m → (n : Model) × (on_pause m ≡ some n) × IsUnclamped n
unfolding on_pause
on_pause-IsUnclamped m u = elim (Option-cases m.pause) [
  | inl e ↦ absurd (subst HasPause e u.2)
  | inr (p, e) ↦ (toggled m p, (rw (e, on_pause) refl), (u.0, u.1, tt))
]
