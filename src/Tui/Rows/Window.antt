-- ===== src/Tui/Rows/Window.antt =====
-- The window of the list lies within it and holds the selected row.
use gatelet.Prelude.{
  ℕ, zero, suc, ◌+◌, ◌≤◌, ◌<◌, ◌≡◌, refl, sym, ap, ◌∙◌, ◌⊎◌, inl, inr, Bool, true, Option, some,
  List, [], ◌∷◌, arith, ◌==◌, nat_eq, ==_iff, Bool-cases, length, bytes_eq, or_else, ℤ, pos, negsuc,
}
use gatelet.Tui.Model.{RequestItem, Model}
use gatelet.Tui.Requests.{get_elem?}
use gatelet.Tui.Selection.{visible_requests, selected_request, elem_at}
use gatelet.Tui.Rows.{request_window_start, draw_rows, row_limit, list_rows}

pub request_window_start_lem :
    (total selected limit : ℕ)
    → limit ≤ total
    → selected < total
    → 0 < limit
    → (request_window_start total (pos selected) limit + limit ≤ total)
      × (request_window_start total (pos selected) limit ≤ selected)
      × (selected < request_window_start total (pos selected) limit + limit)
unfolding request_window_start
request_window_start_lem total selected limit h s p = ground arith

pub get_elem?-lt :
    (xs : List RequestItem) (n : ℕ) → n < length xs → (x : RequestItem) × (get_elem? xs n ≡ some x)
get_elem?-lt [] n h = absurd (omega (arith, h))
get_elem?-lt (x ∷ xs) zero h = (x, refl)
get_elem?-lt (x ∷ xs) (suc n) h = get_elem?-lt xs n (omega (arith, h))

abbrev pub HasRow : RequestItem → List (RequestItem × Bool) → Type 0
HasRow item [] = ⊥
HasRow item ((x, marked) ∷ rows) = ((x ≡ item) × (marked ≡ true)) ⊎ HasRow item rows

-- No other row is marked.
abbrev pub OnlyMarks : RequestItem → List (RequestItem × Bool) → Type 0
OnlyMarks item [] = Unit
OnlyMarks item ((x, marked) ∷ rows) = (marked ≡ true → x ≡ item) × OnlyMarks item rows

abbrev Drawn : RequestItem → Option (List (RequestItem × Bool)) → ℕ → ℕ → ℕ → Type 0
Drawn item drawn rows i s =
    (shown : List (RequestItem × Bool)) × (drawn ≡ some shown)
    × (length shown ≡ rows)
    × OnlyMarks item shown
    × (i ≤ s → s < i + rows → HasRow item shown)

some_inj : (a b : RequestItem) → some a ≡ some b → a ≡ b
some_inj a b e = ap (λ o. or_else o a) e

draw_rows-Drawn :
    (rows i s : ℕ) (xs : List RequestItem) (item : RequestItem)
    → i + rows ≤ length xs
    → get_elem? xs s ≡ some item
    → Drawn item (draw_rows rows i xs (pos s)) rows i s
draw_rows-Drawn zero i s xs item h e =
    ([], refl, refl, tt, (λ lo hi. absurd (omega (arith, lo, hi))))
draw_rows-Drawn (suc rows) i s xs item h e =
    let (x, at) = get_elem?-lt xs i (omega (arith, h)) in
    let (rest, run, len, only, has) = draw_rows-Drawn rows (suc i) s xs item (omega (arith, h)) e in
    let same : (i == s) ≡ true → x ≡ item =
      λ t. some_inj x item (sym at ∙ (ap (get_elem? xs) ((==_iff i s).0 t) ∙ e)) in
    (
      (x, i == s) ∷ rest,
      (rw (at, run, draw_rows) refl),
      ap suc len,
      (same, only),
      λ lo hi. elim (Bool-cases (i == s)) [
        | inl t ↦ inl (same t, t)
        | inr f ↦ inr (has (ground (arith, lo, f)) (omega (arith, hi)))
      ],
    )

get_elem?-bound :
    (xs : List RequestItem) (n : ℕ) (x : RequestItem) → get_elem? xs n ≡ some x → n < length xs
get_elem?-bound [] n x e = cc
get_elem?-bound (y ∷ xs) zero x e = omega arith
get_elem?-bound (y ∷ xs) (suc n) x e = omega (arith, get_elem?-bound xs n x e)

abbrev pub Shows : RequestItem → Option (List (RequestItem × Bool)) → ℕ → Type 0
Shows item drawn rows =
    (shown : List (RequestItem × Bool)) × (drawn ≡ some shown)
    × (length shown ≡ rows)
    × HasRow item shown
    × OnlyMarks item shown

window-Shows :
    (xs : List RequestItem) (selected : ℤ) (limit : ℕ) (item : RequestItem)
    → elem_at xs selected ≡ some item
    → limit ≤ length xs
    → 0 < limit
    → Shows item
        (draw_rows limit (request_window_start (length xs) selected limit) xs selected)
        limit
window-Shows xs (negsuc n) limit item e fits some_rows = cc
window-Shows xs (pos s) limit item e fits some_rows =
    let start = request_window_start (length xs) (pos s) limit in
    let (inside, lo, hi) =
      request_window_start_lem (length xs) s limit fits (get_elem?-bound xs s item e) some_rows in
    let (shown, run, len, only, has) = draw_rows-Drawn limit start s xs item inside e in
    (shown, run, len, has lo hi, only)

elem_at-bound :
    (xs : List RequestItem) (selected : ℤ) (item : RequestItem)
    → elem_at xs selected ≡ some item
    → 0 < length xs
elem_at-bound xs (pos n) item e = omega (arith, get_elem?-bound xs n item e)
elem_at-bound xs (negsuc n) item e = cc

-- Whatever the height, the rows of the list are drawn without a panic and in the number that fits, one
-- of them is marked and shows the selected request, and every marked row shows it.
pub list_rows-Shows :
    (m : Model) (height : ℕ) (item : RequestItem)
    → selected_request m ≡ some item
    → Shows item (list_rows m height) (row_limit m height)
unfolding list_rows selected_request
list_rows-Shows m height item e =
    let xs = visible_requests m in
    window-Shows xs m.selected (row_limit m height) item e (ground arith)
      (ground (arith, elem_at-bound xs m.selected item e))
