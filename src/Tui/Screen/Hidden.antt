-- ===== src/Tui/Screen/Hidden.antt =====
-- What the inspector cannot show: the line that says which lines are shown, and the last line.
use gatelet.Prelude.{
  split-All, ℕ, suc, ◌+◌, ◌-◌, ◌≤◌, ◌<◌, ◌≡◌, refl, sym, ap, subst, ◌∙◌, some, map, arith, length,
  take, drop, Bytes, ℤ, pos, negsuc, clamp,
}
use gatelet.Tui.Model.{RequestItem, view_inspector, Model, World}
use gatelet.Tui.Selection.{max, selected_request, clamp_detail_scroll, detail_height}
use gatelet.Tui.View.{scroll_start}
use gatelet.Tui.Screen.{
  fit_line, window, Layout, scrolled_text, fit, inspector_text, inspector_lines_of,
  render_inspector, render_header, render_status_bar, height_of, view_width, view_body_height,
  framed, view,
}
use gatelet.Tui.Screen.Cut.{OneLine, shown_lines, fit-scrolled}

-- The scroll position that the clamp leaves does not reach the last line.
clamped_short :
    (scroll : ℤ) (total height : ℕ)
    → height < total
    → scroll_start (clamp (total - suc height) scroll) total height + height < total
clamped_short (pos n) total height h = ground arith
clamped_short (negsuc n) total height h = ground arith

clamp_detail_scroll-inspector :
    (world : World) (m : Model) (item : RequestItem)
    → m.mode ≡ view_inspector
    → selected_request m ≡ some item
    → clamp_detail_scroll world m ≡ record m {
      detail_scroll =
          clamp
            (world.inspector_lines item (max 20 m.width) m.now m.plain_body m.inspector_tab
              - detail_height m)
            m.detail_scroll;
    }
unfolding clamp_detail_scroll
clamp_detail_scroll-inspector world m item mode found =
    let hi : ℕ =
      world.inspector_lines item (max 20 m.width) m.now m.plain_body m.inspector_tab
      - detail_height m in
    rw (mode, found, clamp_detail_scroll)
      (ap (λ v. record m { mode = v; detail_scroll = clamp hi m.detail_scroll }) mode)

selected_request-scrolled :
    (m : Model) (z : ℤ) → selected_request (record m { detail_scroll = z }) ≡ selected_request m
unfolding selected_request
selected_request-scrolled m z = refl

inspector_text-scrolled :
    (l : Layout) (m : Model) (item : RequestItem) (z : ℤ) (width height : ℕ)
    → selected_request m ≡ some item
    → inspector_text l (record m { detail_scroll = z }) width height
      ≡ scrolled_text l (window l width) (inspector_lines_of l m item width) z height
inspector_text-scrolled l m item z width height found =
    rw (inspector_text, selected_request-scrolled m z, found) refl

render_inspector-scrolled :
    (l : Layout) (m : Model) (item : RequestItem) (z : ℤ) (width height : ℕ)
    → selected_request m ≡ some item
    → render_inspector l (record m { detail_scroll = z }) width height
      ≡ fit l width
          (scrolled_text l (window l width) (inspector_lines_of l m item width) z height)
          height
unfolding render_inspector
render_inspector-scrolled l m item z width height found =
    ap (λ t. fit l width t height) (inspector_text-scrolled l m item z width height found)

-- A state of the inspector on a terminal of at least nine lines whose header and footer are a line each.
pub record InInspector (world : World) (l : Layout) (m : Model) (item : RequestItem) : Type 0 where
  pub mode : m.mode ≡ view_inspector
  pub found : selected_request m ≡ some item
  pub tall : 9 ≤ m.height
  pub wide : 20 ≤ m.width
  pub header : height_of (render_header l (clamp_detail_scroll world m) m.width) ≡ 1
  pub footer : height_of (render_status_bar l (clamp_detail_scroll world m) m.width) ≡ 1
  -- The clamp counts the lines that are drawn.
  pub count_agrees :
      world.inspector_lines item m.width m.now m.plain_body m.inspector_tab
      ≡ length (inspector_lines_of l m item m.width)

clamp_limit :
    (world : World) (l : Layout) (m : Model) (item : RequestItem)
    → InInspector world l m item
    → world.inspector_lines item (max 20 m.width) m.now m.plain_body m.inspector_tab
        - detail_height m
      ≡ length (inspector_lines_of l m item m.width) - suc (m.height - 3)
unfolding detail_height
clamp_limit world l m item i =
    let width : max 20 m.width ≡ m.width = ground (arith, i.wide) in
    let height : detail_height m ≡ suc (m.height - 3) = ground (arith, i.tall) in
    ap (λ w. world.inspector_lines item w m.now m.plain_body m.inspector_tab - detail_height m)
      width
    ∙ ap (λ k. k - detail_height m) i.count_agrees
    ∙ ap (λ k. length (inspector_lines_of l m item m.width) - k) height

view-inspector :
    (l : Layout) (m : Model)
    → m.mode ≡ view_inspector
    → 20 ≤ m.width
    → view l m
      ≡ some (
          framed (render_header l m m.width) (render_status_bar l m m.width) (
            render_inspector l m m.width
              (view_body_height m (render_header l m m.width) (render_status_bar l m m.width))))
unfolding view
view-inspector l m mode wide =
    let width : view_width m ≡ m.width = ground (arith, wide) in rw (mode, width) refl

body_height-line :
    (m : Model) (header footer : Bytes)
    → height_of header ≡ 1
    → height_of footer ≡ 1
    → 9 ≤ m.height
    → view_body_height m header footer ≡ m.height - 3
body_height-line m header footer one_header one_footer tall =
    ground (arith, one_header, one_footer, tall)

view-scrolled :
    (l : Layout) (m : Model) (item : RequestItem) (z : ℤ)
    → m.mode ≡ view_inspector
    → selected_request m ≡ some item
    → 9 ≤ m.height
    → 20 ≤ m.width
    → OneLine l (window l m.width)
    → height_of (render_header l (record m { detail_scroll = z }) m.width) ≡ 1
    → height_of (render_status_bar l (record m { detail_scroll = z }) m.width) ≡ 1
    → m.height - 3 < length (inspector_lines_of l m item m.width)
    → view l (record m { detail_scroll = z })
      ≡ some (
          framed
            (render_header l (record m { detail_scroll = z }) m.width)
            (render_status_bar l (record m { detail_scroll = z }) m.width)
            (map (fit_line l m.width) (
              shown_lines
                (window l m.width)
                (inspector_lines_of l m item m.width)
                z
                (m.height - 3))))
view-scrolled l m item z mode found tall wide one header footer more =
    let n : Model = record m { detail_scroll = z } in
    let room =
      body_height-line n (render_header l n m.width) (render_status_bar l n m.width) header footer
        tall in
    view-inspector l n mode wide
    ∙ ap (λ body. some (framed (render_header l n m.width) (render_status_bar l n m.width) body))
        (ap (render_inspector l n m.width) room
          ∙ render_inspector-scrolled l m item z m.width (m.height - 3) found
          ∙ fit-scrolled l (window l m.width) m.width (inspector_lines_of l m item m.width) z
              (m.height - 3) one (split-All b'\n' _) (ground (arith, tall)) more)

-- On a terminal of at least nine lines and 20 columns, with a header and a footer of a line each,
-- where the clamp counts the lines that are drawn, a line stays one when it is cut and the line that
-- says which ones are shown is not empty and does not end in a newline: if the selected request has
-- more lines than the inspector has room for, the screen that is drawn behind the clamp is the
-- header, an empty line, a part of the lines that ends before the last one, and the footer. Neither
-- that last line nor the line that says which ones are shown is drawn, whatever the scroll position
-- was.
pub view-hides :
    (world : World) (l : Layout) (m : Model) (item : RequestItem)
    → InInspector world l m item
    → OneLine l (window l m.width)
    → m.height - 3 < length (inspector_lines_of l m item m.width)
    → (start : ℕ) × (view l (clamp_detail_scroll world m)
        ≡ some (
            framed
              (render_header l (clamp_detail_scroll world m) m.width)
              (render_status_bar l (clamp_detail_scroll world m) m.width)
              (map (fit_line l m.width) (
                map
                  (window l m.width)
                  (take (m.height - 3) (drop start (inspector_lines_of l m item m.width)))))))
      × (start + (m.height - 3) < length (inspector_lines_of l m item m.width))
view-hides world l m item i one more =
    let lines = inspector_lines_of l m item m.width in
    let z : ℤ = clamp (length lines - suc (m.height - 3)) m.detail_scroll in
    let clamped : clamp_detail_scroll world m ≡ record m { detail_scroll = z } =
      clamp_detail_scroll-inspector world m item i.mode i.found
      ∙ ap (λ k. record m { detail_scroll = clamp k m.detail_scroll })
          (clamp_limit world l m item i) in
    let header = subst (λ v. height_of (render_header l v m.width) ≡ 1) clamped i.header in
    let footer = subst (λ v. height_of (render_status_bar l v m.width) ≡ 1) clamped i.footer in
    let shown = map (fit_line l m.width) (shown_lines (window l m.width) lines z (m.height - 3)) in
    (
      scroll_start z (length lines) (m.height - 3),
      subst
          (λ v.
            view l v
            ≡ some (framed (render_header l v m.width) (render_status_bar l v m.width) shown))
          (sym clamped)
          (view-scrolled l m item z i.mode i.found i.tall i.wide one header footer more),
      clamped_short m.detail_scroll (length lines) (m.height - 3) more,
    )
