-- ===== src/Tui/Selection/Clamped.antt =====
-- The clamps put the cursor and the scroll positions in range.
use gatelet.Prelude.{
  ℕ, zero, suc, ◌-◌, ◌≤◌, ◌≡◌, refl, sym, ap, subst, ◌≢◌, ◌⊎◌, inl, inr, false, Option, none, some,
  arith, Bool-cases, Option-cases, length, ℤ, pos, negsuc, ltbℤ, clamp,
}
use gatelet.Client.Pause.{PauseController}
use gatelet.Tui.Model.{ViewMode, view_list, view_inspector, view_body, Model, World}
use gatelet.Tui.Requests.History.{HasHistory}
use gatelet.Tui.Selection.{
  visible_requests, selected_request, clamp_selection, clamp_detail, clamp_detail_scroll,
  clamp_body_scroll, max, detail_height, body_height,
}

abbrev pub IsNonneg : ℤ → Type 0
IsNonneg (pos n) = Unit
IsNonneg (negsuc n) = ⊥

-- Below the length, or 0 where there is nothing.
abbrev pub IsWithin : ℕ → ℤ → Type 0
IsWithin len (pos n) = n ≤ len - 1
IsWithin len (negsuc n) = ⊥

abbrev pub HasCursor : Model → Type 0
HasCursor m =
    IsWithin (length (visible_requests m)) m.selected
    × IsNonneg m.detail_scroll
    × IsNonneg m.body_scroll

-- A model before the clamps: only in its own view may the body's scroll be out of range.
abbrev pub IsLoose : ViewMode → ℤ → Type 0
IsLoose view_body scroll = Unit
IsLoose _ scroll = IsNonneg scroll

abbrev pub HasPause : Option PauseController → Type 0
HasPause none = ⊥
HasPause (some p) = Unit

-- What holds between two messages.
abbrev pub IsSound : Model → Type 0
IsSound m = HasHistory m × HasCursor m × HasPause m.pause

abbrev pub IsUnclamped : Model → Type 0
IsUnclamped m = HasHistory m × IsLoose m.mode m.body_scroll × HasPause m.pause

pub IsNonneg-IsLoose : (v : ViewMode) (z : ℤ) → IsNonneg z → IsLoose v z
IsNonneg-IsLoose view_list z h = h
IsNonneg-IsLoose view_inspector z h = h
IsNonneg-IsLoose view_body z h = tt

pub clamp-IsNonneg : (hi : ℕ) (z : ℤ) → IsNonneg (clamp hi z)
clamp-IsNonneg hi (pos n) = ground arith
clamp-IsNonneg hi (negsuc n) = tt

clamp-IsWithin : (last : ℕ) (z : ℤ) → IsWithin (suc last) (clamp last z)
clamp-IsWithin last (pos n) = ground arith
clamp-IsWithin last (negsuc n) = omega arith

zero-or-suc : (n : ℕ) → (n ≡ 0) ⊎ ((k : ℕ) × (n ≡ suc k))
zero-or-suc zero = inl refl
zero-or-suc (suc k) = inr (k, refl)

-- What the first clamp makes of the parts that it reads, and the rest as before.
Selected : Model → Model → Type 0
Selected m n =
    HasHistory n
    × IsWithin (length (visible_requests m)) n.selected
    × IsNonneg n.detail_scroll
    × (n.filter ≡ m.filter)
    × (n.requests ≡ m.requests)
    × (n.body_scroll ≡ m.body_scroll)
    × (n.mode ≡ m.mode)
    × (n.pause ≡ m.pause)

not_below-IsNonneg : (z : ℤ) → ltbℤ z (pos 0) ≡ false → IsNonneg z
not_below-IsNonneg (pos n) h = tt
not_below-IsNonneg (negsuc n) h = ground arith

clamp_detail-Selected :
    (m : Model)
    → HasHistory m
    → IsWithin (length (visible_requests m)) m.selected
    → Selected m (clamp_detail m)
unfolding Selected
clamp_detail-Selected m h w = elim (Bool-cases (ltbℤ m.detail_scroll (pos 0))) [
  | inl e ↦ rw e (h, w, tt, refl, refl, refl, refl, refl)
  | inr e ↦ rw e (h, w, not_below-IsNonneg m.detail_scroll e, refl, refl, refl, refl, refl)
]

clamp_selection-Selected : (m : Model) → HasHistory m → Selected m (clamp_selection m)
unfolding clamp_selection Selected visible_requests
clamp_selection-Selected m h = elim (zero-or-suc (length (visible_requests m))) [
  | inl e ↦ rw (e, clamp_selection) (h, omega arith, tt, refl, refl, refl, refl, refl)
  | inr (last, e) ↦
      let near : Model = record m { selected = clamp last m.selected } in
      let within : IsWithin (length (visible_requests m)) near.selected =
        subst (λ k. IsWithin k near.selected) (sym e) (clamp-IsWithin last m.selected) in
      let (hist, inside, de, fi, rs, bo, mo, pa) = clamp_detail-Selected near h within in
      rw (e, clamp_selection)
        (
          hist,
          subst (λ k. IsWithin k (clamp_detail near).selected) e inside,
          de,
          fi,
          rs,
          bo,
          mo,
          pa,
        )
]

visible_requests-same :
    (m n : Model)
    → n.filter ≡ m.filter
    → n.requests ≡ m.requests
    → visible_requests n ≡ visible_requests m
unfolding visible_requests
visible_requests-same m n e f = rw (e, f) refl

-- The first clamp on a model whose body's scroll is in range.
pub clamp_selection-IsSound :
    (m : Model)
    → HasHistory m
    → IsNonneg m.body_scroll
    → HasPause m.pause
    → IsSound (clamp_selection m)
unfolding Selected
clamp_selection-IsSound m h b p =
    let n : Model = clamp_selection m in
    let (hist, inside, de, fi, rs, bo, mo, pa) = clamp_selection-Selected m h in
    let same = visible_requests-same m n fi rs in
    (
      hist,
      (
        subst (λ l. IsWithin (length l) n.selected) (sym same) inside,
        de,
        subst IsNonneg (sym bo) b,
      ),
      subst HasPause (sym pa) p,
    )

pub ViewMode-cases : (v : ViewMode) → (v ≡ view_list) ⊎ ((v ≡ view_inspector) ⊎ (v ≡ view_body))
ViewMode-cases view_list = inl refl
ViewMode-cases view_inspector = inr (inl refl)
ViewMode-cases view_body = inr (inr refl)

IsLoose-IsNonneg : (v : ViewMode) (z : ℤ) → v ≢ view_body → IsLoose v z → IsNonneg z
IsLoose-IsNonneg view_list z ne h = h
IsLoose-IsNonneg view_inspector z ne h = h
IsLoose-IsNonneg view_body z ne h = absurd (ne refl)

module _ (world : World) where
  -- The two other clamps set one scroll position, to one that is in range.
  clamp_detail_scroll_lem :
      (m : Model)
      → IsNonneg m.detail_scroll
      → (z : ℤ) × (clamp_detail_scroll world m ≡ record m { detail_scroll = z }) × IsNonneg z
  unfolding clamp_detail_scroll
  clamp_detail_scroll_lem m d = elim (ViewMode-cases m.mode) [
    | inl e ↦ (m.detail_scroll, ground (arith, e), d)
    | inr (inr e) ↦ (m.detail_scroll, ground (arith, e), d)
    | inr (inl e) ↦ elim (Option-cases (selected_request m)) [
      | inl f ↦ (
        pos 0,
        (rw (e, f, clamp_detail_scroll) (ap (λ v. record m { mode = v; detail_scroll = pos 0 }) e)),
        tt,
      )
      | inr (item, f) ↦
          let hi : ℕ =
            world.inspector_lines item (max 20 m.width) m.now m.plain_body m.inspector_tab
            - detail_height m in
          (
            clamp hi m.detail_scroll,
            (rw (e, f, clamp_detail_scroll)
                (ap (λ v. record m { mode = v; detail_scroll = clamp hi m.detail_scroll }) e)),
            clamp-IsNonneg hi m.detail_scroll,
          )
    ]
  ]

  clamp_body_scroll_lem :
      (m : Model)
      → IsLoose m.mode m.body_scroll
      → (z : ℤ) × (clamp_body_scroll world m ≡ record m { body_scroll = z }) × IsNonneg z
  unfolding clamp_body_scroll
  clamp_body_scroll_lem m d = elim (ViewMode-cases m.mode) [
    | inl e ↦ (
      m.body_scroll,
      ground (arith, e),
      IsLoose-IsNonneg m.mode m.body_scroll (λ f. absurd (cc)) d,
    )
    | inr (inl e) ↦ (
      m.body_scroll,
      ground (arith, e),
      IsLoose-IsNonneg m.mode m.body_scroll (λ f. absurd (cc)) d,
    )
    | inr (inr e) ↦ elim (Option-cases (selected_request m)) [
      | inl f ↦ (
        pos 0,
        (rw (e, f, clamp_body_scroll) (ap (λ v. record m { mode = v; body_scroll = pos 0 }) e)),
        tt,
      )
      | inr (item, f) ↦
          let hi : ℕ =
            world.body_lines item (max 20 m.width) m.plain_body m.inspector_tab - body_height m in
          (
            clamp hi m.body_scroll,
            (rw (e, f, clamp_body_scroll)
                (ap (λ v. record m { mode = v; body_scroll = clamp hi m.body_scroll }) e)),
            clamp-IsNonneg hi m.body_scroll,
          )
    ]
  ]

  -- The three clamps after a key make a model sound.
  pub clamp_all-IsSound :
      (m : Model)
      → IsUnclamped m
      → IsSound (clamp_body_scroll world (clamp_detail_scroll world (clamp_selection m)))
  unfolding Selected visible_requests
  clamp_all-IsSound m (h, b, p) =
      let n : Model = clamp_selection m in
      let (hist, inside, de, fi, rs, bo, mo, pa) = clamp_selection-Selected m h in
      let (z, e, z_ok) = clamp_detail_scroll_lem n de in
      let n2 : Model = record n { detail_scroll = z } in
      let loose : IsLoose n.mode n.body_scroll = rw (mo, bo) b in
      let (y, f, y_ok) = clamp_body_scroll_lem n2 loose in
      let same = visible_requests-same m n fi rs in
      let within : IsWithin (length (visible_requests n)) n.selected =
        subst (λ l. IsWithin (length l) n.selected) (sym same) inside in
      let sound : IsSound (record n2 { body_scroll = y }) =
        (hist, (within, z_ok, y_ok), subst HasPause (sym pa) p) in
      subst (λ x. IsSound (clamp_body_scroll world x)) (sym e) (subst IsSound (sym f) sound)
