-- ===== src/Tui/Selection.antt =====
-- internal/tui/model.go: the requests that the filter shows, the selected one of them, and the two
-- scroll positions. Lengths are compared as ℕ, and `clamp` is the pair of tests at the bounds.
pub mod Filtered
pub mod Clamped
use gatelet.Prelude.{
  ℕ, zero, suc, ◌-◌, Bool, true, ◌&&◌, Option, none, some, List, [], ◌∷◌, ◌++◌, ltb, if◌then◌else◌,
  ◌==◌, nat_eq, length, Bytes, bytes_eq, is_empty, to_lower, is_space, has_substring, ℤ, pos,
  negsuc, ltbℤ, clamp, decimal,
}
use gatelet.Client.Events.{remote_ip}
use gatelet.Tui.Model.{view_inspector, view_body, RequestItem, Model, World}
use gatelet.Tui.Requests.{get_elem?, position_from}

-- `strings.Fields`, the spaces those of ASCII; `cur` is what the field has so far.
abbrev add_field : Bytes → List Bytes → List Bytes
add_field cur fields = if is_empty cur then fields else cur ∷ fields

fields_from : Bytes → Bytes → List Bytes
fields_from cur [] = add_field cur []
fields_from cur (c ∷ cs) =
    let ended = add_field cur (fields_from [] cs) in
    let longer = fields_from (cur ++ c ∷ []) cs in if is_space c then ended else longer

unfoldable pub fields : Bytes → List Bytes
unfolding fields_from
fields s = fields_from [] s

abbrev spaced : Bytes → Bytes → Bytes
spaced s rest = s ++ (b' ' ∷ rest)

-- `strings.ToLower` on the bytes of ASCII.
unfoldable pub haystack : RequestItem → Bytes
unfolding remote_ip decimal
haystack item = to_lower (
    spaced item.method (
      spaced item.request_uri (
        spaced item.target_url (
          spaced item.host
            (spaced (remote_ip item.remote_addr) (spaced (decimal item.status_code) item.error))))))

abbrev all_terms : List Bytes → Bytes → Bool
all_terms [] text = true
all_terms (t ∷ ts) text = has_substring t text && all_terms ts text

unfoldable pub matches : List Bytes → RequestItem → Bool
unfolding haystack has_substring
matches terms item = all_terms terms (haystack item)

abbrev pub keep {ℓ} : {A : Type ℓ} → (A → Bool) → List A → List A
keep p [] = []
keep p (x ∷ xs) = if p x then x ∷ keep p xs else keep p xs

abbrev pub visible_of : Bytes → List RequestItem → List RequestItem
visible_of filter requests =
    if is_empty filter then requests else keep (matches (fields (to_lower filter))) requests

unfoldable pub visible_requests : Model → List RequestItem
unfolding fields matches
visible_requests m = visible_of m.filter m.requests

abbrev pub elem_at {ℓ} : {A : Type ℓ} → List A → ℤ → Option A
elem_at xs (pos n) = get_elem? xs n
elem_at xs (negsuc n) = none

unfoldable pub selected_request : Model → Option RequestItem
unfolding visible_requests
selected_request m = elem_at (visible_requests m) m.selected

abbrev clamp_detail : Model → Model
clamp_detail m = if ltbℤ m.detail_scroll (pos 0) then record m { detail_scroll = pos 0 } else m

unfoldable pub clamp_selection : Model → Model
unfolding visible_requests
clamp_selection m = elim (length (visible_requests m)) [
  | zero ↦ record m { selected = pos 0; detail_scroll = pos 0 }
  | suc last ↦ clamp_detail (record m { selected = clamp last m.selected })
]

-- The model where the id is found.
unfoldable pub select_request_id : Model → ℕ → Option Model
unfolding visible_requests clamp_selection
select_request_id m id = elim (position_from 0 id (visible_requests m)) [
  | none ↦ none
  | some i ↦ some (clamp_selection (record m { selected = pos i }))
]

-- `max(a, b)` of the package.
abbrev pub max : ℕ → ℕ → ℕ
max a b = if ltb b a then a else b

-- A height is not negative, and `height - 2` stops at 0 before the maximum with 1.
unfoldable pub detail_height : Model → ℕ
detail_height m = if m.height == 0 then 24 else max 1 (m.height - 2)

unfoldable pub body_height : Model → ℕ
body_height m = if m.height == 0 then 24 else max 1 (m.height - 2)

module _ (world : World) where
  unfoldable pub clamp_detail_scroll : Model → Model
  unfolding selected_request detail_height
  clamp_detail_scroll m = elim m.mode [
    | view_inspector ↦ elim (selected_request m) [
      | none ↦ record m { detail_scroll = pos 0 }
      | some item ↦
          let lines =
            world.inspector_lines item (max 20 m.width) m.now m.plain_body m.inspector_tab in
          record m { detail_scroll = clamp (lines - detail_height m) m.detail_scroll }
    ]
    | _ ↦ m
  ]

  unfoldable pub clamp_body_scroll : Model → Model
  unfolding selected_request body_height
  clamp_body_scroll m = elim m.mode [
    | view_body ↦ elim (selected_request m) [
      | none ↦ record m { body_scroll = pos 0 }
      | some item ↦
          let lines = world.body_lines item (max 20 m.width) m.plain_body m.inspector_tab in
          record m { body_scroll = clamp (lines - body_height m) m.body_scroll }
    ]
    | _ ↦ m
  ]
