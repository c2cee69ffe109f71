-- ===== src/Tui/Requests/Applied.antt =====
-- `applyEvent` keeps the history and never panics.
use gatelet.Prelude.{
  ℕ, zero, suc, ◌≤◌, ◌<◌, ◌≡◌, refl, sym, ap, ◌∙◌, subst, inl, inr, true, false, Option, none, some,
  List, [], ◌∷◌, arith, ltb, if◌then◌else◌, ◌==◌, nat_eq, ==_self, Bool-cases, Option-cases, length,
  take, length-take, contains, GoMap, codes, bytes_eq,
}
use gatelet.Client.Events.{RequestEvent}
use gatelet.Tui.Model.{RequestItem, Stamped, Model, max_requests}
use gatelet.Tui.Requests.{
  item_of, merge_request_item, update_target_health, index_from, rebuild_index,
  clear_resume_message_if_queue_drained, set_elem, position_from, update_request, truncate_requests,
  add_request, apply_event,
}
use gatelet.Tui.Requests.History.{
  ids, IsDistinct, IsHistory, HasHistory, find, IsPlace, lookup-position_from,
  position_from-IsPlace, get_elem?-find, set_elem-ids, find-set_elem, index_from-ids, length-ids,
  take-IsDistinct, contains-ids,
}

-- The steps after the requests are changed do not touch them, nor what selects among them.
abbrev pub SameRequests : Model → Model → Type 0
SameRequests m n =
    (n.requests ≡ m.requests)
    × (n.index ≡ m.index)
    × (n.filter ≡ m.filter)
    × (n.selected ≡ m.selected)
    × (n.detail_scroll ≡ m.detail_scroll)
    × (n.body_scroll ≡ m.body_scroll)
    × (n.pause ≡ m.pause)

update_target_health-SameRequests :
    (m : Model) (item : RequestItem) → SameRequests m (update_target_health m item)
unfolding update_target_health
update_target_health-SameRequests m item = ground arith

clear_resume-SameRequests :
    (m : Model) (event : RequestEvent)
    → SameRequests m (clear_resume_message_if_queue_drained m event)
unfolding clear_resume_message_if_queue_drained
clear_resume-SameRequests m event = ground arith

SameRequests-trans : (m n k : Model) → SameRequests m n → SameRequests n k → SameRequests m k
SameRequests-trans m n k (a, b, c, d, e, f, g) (a', b', c', d', e', f', g') =
    (a' ∙ a, b' ∙ b, c' ∙ c, d' ∙ d, e' ∙ e, f' ∙ f, g' ∙ g)

-- What is known of a request before and after an event.
abbrev pub merged : Option RequestItem → RequestItem → RequestItem
merged none item = item
merged (some old) item = merge_request_item old item

merge-id : (old new : RequestItem) → (merge_request_item old new).id ≡ old.id
unfolding merge_request_item
merge-id old new = refl

-- The ids after an event.
abbrev pub seen : List ℕ → ℕ → List ℕ
seen known id = if contains id known then known else take max_requests (id ∷ known)

abbrev pub Applied : Model → RequestItem → Model → Type 0
Applied m item n =
    HasHistory n
    × (ids n.requests ≡ seen (ids m.requests) item.id)
    × (find item.id n.requests ≡ some (merged (find item.id m.requests) item))
    × ((other : ℕ)
        → (item.id == other) ≡ false
        → length m.requests < max_requests
        → find other n.requests ≡ find other m.requests)

IsHistory-by :
    {rs qs : List RequestItem} {index other : GoMap ℕ ℕ}
    → qs ≡ rs
    → other ≡ index
    → IsHistory rs index
    → IsHistory qs other
IsHistory-by e f h = rw (e, f) h

set_elem-IsHistory :
    (rs : List RequestItem) (index : GoMap ℕ ℕ) (n id : ℕ) (new : RequestItem)
    → IsHistory rs index
    → IsPlace id rs n
    → new.id ≡ id
    → IsHistory (set_elem rs n new) index
set_elem-IsHistory rs index n id new (d, e, bound) place same =
    let kept = set_elem-ids rs n id new place same in
    (
      subst IsDistinct (sym kept) d,
      e ∙ index_from-ids 0 [] rs (set_elem rs n new) (sym kept),
      omega (arith, bound, length-ids rs, length-ids (set_elem rs n new), ap length kept),
    )

-- What selects among the requests stays.
abbrev pub KeepsCursor : Model → Model → Type 0
KeepsCursor m n =
    (n.filter ≡ m.filter)
    × (n.selected ≡ m.selected)
    × (n.detail_scroll ≡ m.detail_scroll)
    × (n.body_scroll ≡ m.body_scroll)
    × (n.pause ≡ m.pause)

abbrev online : Model → Model
online m = record m { status = codes "online" }

find-contains :
    (id : ℕ) (rs : List RequestItem) (r : RequestItem)
    → find id rs ≡ some r
    → contains id (ids rs) ≡ true
find-contains id [] r h = cc
find-contains id (x ∷ rs) r h = ground (arith, find-contains id rs r)

find-none : (id : ℕ) (rs : List RequestItem) → contains id (ids rs) ≡ false → find id rs ≡ none
find-none id [] h = refl
find-none id (x ∷ rs) h = ground (arith, find-none id rs)

update_request-Applied :
    (m : Model) (event : RequestEvent) (item : RequestItem) (idx : ℕ)
    → HasHistory m
    → IsPlace item.id m.requests idx
    → (n : Model) × (update_request (online m) idx item event ≡ some n)
      × Applied m item n
      × KeepsCursor m n
unfolding update_request
update_request-Applied m event item idx h place =
    let (r, here, found, same) = get_elem?-find m.requests idx item.id place in
    let new : RequestItem = merge_request_item r item in
    let new_id : new.id ≡ item.id = merge-id r item ∙ same in
    let stored : Model = record (online m) { requests = set_elem m.requests idx new } in
    let healthy : Model = update_target_health stored new in
    let n : Model = clear_resume_message_if_queue_drained healthy event in
    let (rs, ix, fi, se, de, bo, pa) =
      SameRequests-trans stored healthy n (update_target_health-SameRequests stored new)
        (clear_resume-SameRequests healthy event) in
    let known = find-contains item.id m.requests r found in
    (
      n,
      (rw (here, update_request) refl),
      (
        IsHistory-by rs ix (set_elem-IsHistory m.requests m.index idx item.id new h place new_id),
        ap ids rs ∙ (set_elem-ids m.requests idx item.id new place new_id ∙ (rw known refl)),
        ap (find item.id) rs
            ∙ (find-set_elem m.requests idx item.id item.id new place new_id
                ∙ (rw (==_self item.id, found) refl)),
        λ other ne short.
            ap (find other) rs
            ∙ (find-set_elem m.requests idx item.id other new place new_id ∙ (rw ne refl)),
      ),
      (fi, se, de, bo, pa),
    )

take-all {ℓ} : {A : Type ℓ} (n : ℕ) (xs : List A) → length xs ≤ n → take n xs ≡ xs
take-all zero [] h = refl
take-all zero (x ∷ xs) h = absurd (omega (arith, h))
take-all (suc n) [] h = refl
take-all (suc n) (x ∷ xs) h = ap (λ l. x ∷ l) (take-all n xs (omega (arith, h)))

ids-take : (n : ℕ) (rs : List RequestItem) → ids (take n rs) ≡ take n (ids rs)
ids-take zero rs = refl
ids-take (suc n) [] = refl
ids-take (suc n) (r ∷ rs) = ap (λ l. r.id ∷ l) (ids-take n rs)

-- The requests are cut to the bound, and the index is that of the rest.
Cut : List RequestItem → Model → Model → Type 0
Cut rs m n =
    (n.requests ≡ take max_requests rs)
    × (n.index ≡ index_from 0 [] (take max_requests rs))
    × KeepsCursor m n

truncate_requests-Cut :
    (m : Model) → m.index ≡ index_from 0 [] m.requests → Cut m.requests m (truncate_requests m)
unfolding Cut truncate_requests rebuild_index
truncate_requests-Cut m e = elim (Bool-cases (ltb max_requests (length m.requests))) [
  | inl long ↦ rw long (refl, refl, (refl, refl, refl, refl, refl))
  | inr short ↦
      let whole : m.requests ≡ take max_requests m.requests =
        sym (take-all max_requests m.requests (ground arith)) in
      rw short (whole, e ∙ ap (index_from 0 []) whole, (refl, refl, refl, refl, refl))
]

add_request-Cut :
    (m : Model) (item : RequestItem) (event : RequestEvent)
    → Cut (item ∷ m.requests) m (add_request m item event)
unfolding Cut add_request rebuild_index
add_request-Cut m item event =
    let grown : Model = record m { requests = item ∷ m.requests } in
    let healthy : Model = update_target_health grown item in
    let (rs, ix, fi, se, de, bo, pa) = update_target_health-SameRequests grown item in
    let rebuilt : Model = rebuild_index healthy in
    let (rs', ix', (fi', se', de', bo', pa')) = truncate_requests-Cut rebuilt refl in
    let (rs″, ix″, fi″, se″, de″, bo″, pa″) =
      clear_resume-SameRequests (truncate_requests rebuilt) event in
    (
      rs″ ∙ (rs' ∙ ap (take max_requests) rs),
      ix″ ∙ (ix' ∙ ap (λ l. index_from 0 [] (take max_requests l)) rs),
      (fi″ ∙ (fi' ∙ fi), se″ ∙ (se' ∙ se), de″ ∙ (de' ∙ de), bo″ ∙ (bo' ∙ bo), pa″ ∙ (pa' ∙ pa)),
    )

add_request-Applied :
    (m : Model) (item : RequestItem) (event : RequestEvent)
    → HasHistory m
    → contains item.id (ids m.requests) ≡ false
    → Applied m item (add_request (online m) item event)
      × KeepsCursor m (add_request (online m) item event)
unfolding Cut
add_request-Applied m item event (d, e, bound) new =
    let (rs, ix, cursor) = add_request-Cut (online m) item event in
    let full : List RequestItem = item ∷ m.requests in
    (
      (
        IsHistory-by rs ix (
          take-IsDistinct max_requests full (new, d),
          refl,
          omega (arith, length-take max_requests full),
        ),
        ap ids rs ∙ (ids-take max_requests full ∙ (rw new refl)),
        ap (find item.id) rs ∙ (rw (==_self item.id, find-none item.id m.requests new) refl),
        λ other ne short.
            ap (find other) (rs ∙ take-all max_requests full (omega (arith, short))) ∙ (rw ne refl),
      ),
      cursor,
    )

item_of-id : (m : Model) (s : Stamped) → (item_of m s).id ≡ s.event.id
unfolding item_of
item_of-id m s = refl

-- From a state with a history an event never panics and leaves one: its id stays in its place or comes
-- first, the list being cut to 500; its request is what was known with the event merged in; another
-- request stays as it is, if fewer than 500 are kept; and the cursor, the scroll positions and the pause
-- controller stay.
pub apply_event-Applied :
    (m : Model) (s : Stamped)
    → HasHistory m
    → (n : Model) × (apply_event m s ≡ some n) × Applied m (item_of m s) n × KeepsCursor m n
unfolding apply_event
apply_event-Applied m s h =
    let item : RequestItem = item_of m s in
    let at = lookup-position_from s.event.id m.requests m.index h in
    elim (Option-cases (position_from 0 s.event.id m.requests)) [
      | inl none_yet ↦
          let new = contains-ids 0 s.event.id m.requests none_yet in
          let (applied, cursor) = add_request-Applied m item s.event h new in
          (
            add_request (online m) item s.event,
            (rw (at ∙ none_yet, apply_event) refl),
            applied,
            cursor,
          )
      | inr (idx, found) ↦
          let (k, eq, place) = position_from-IsPlace 0 s.event.id idx m.requests found in
          let same : k ≡ idx = omega (arith, eq) in
          let (n, run, applied, cursor) =
            update_request-Applied m s.event item idx h
              (subst (IsPlace s.event.id m.requests) same place) in
          (n, (rw (at ∙ found, apply_event) run), applied, cursor)
    ]
