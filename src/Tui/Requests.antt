-- ===== src/Tui/Requests.antt =====
-- internal/tui/model.go: the request history, and what an event of the client does to it. An index
-- out of range panics, which is `none` here. A `for` over the requests is a recursion on the list.
pub mod History
pub mod Applied
use gatelet.Prelude.{
  ℕ, zero, suc, Bool, true, false, not, ◌&&◌, ◌||◌, Option, none, some, List, [], ◌∷◌, ltb, leb,
  if◌then◌else◌, ◌==◌, nat_eq, length, take, GoMap, lookup, insert, Bytes, codes, bytes_eq,
  is_empty, ℤ, pos, negsuc, ltbℤ,
}
use gatelet.Client.Preview.{BodyPreview}
use gatelet.Client.Pause.{queue_depth}
use gatelet.Client.Events.{
  Header, EventType, request_forwarding, response_started, request_completed, request_failed,
  ErrorKind, no_kind, local_target, tunnel, RequestEvent,
}
use gatelet.Tui.Model.{
  RequestItem, Stamped, Model, health_ok, health_down, health_degraded, max_requests,
}

unfoldable pub item_of : Model → Stamped → RequestItem
item_of m stamped =
    let event = stamped.event in
    let at = if stamped.time == 0 then m.now else stamped.time in
    record {
      id = event.id;
      method = event.method;
      request_uri = event.request_uri;
      target_url = event.target_url;
      host = event.host;
      remote_addr = event.remote_addr;
      request_header = event.request_header;
      response_header = event.response_header;
      request_preview = event.request_preview;
      response_preview = event.response_preview;
      http_basic_auth = event.http_basic_auth;
      status_code = event.status_code;
      request_size = event.request_size;
      response_size = event.response_size;
      duration = stamped.duration;
      state = event.type;
      error = event.error;
      error_kind = event.error_kind;
      started_at = at;
      last_update = at;
    }

-- The tests of `mergeRequestItem`: the new value where it says something, else the old one.
abbrev pub newer_nat : ℕ → ℕ → ℕ
newer_nat old new = if new == 0 then old else new

abbrev pub newer_duration : ℤ → ℤ → ℤ
newer_duration old (pos zero) = old
newer_duration old (pos (suc n)) = pos (suc n)
newer_duration old (negsuc n) = negsuc n

abbrev pub newer_text : Bytes → Bytes → Bytes
newer_text old new = if is_empty new then old else new

abbrev pub newer_kind : ErrorKind → ErrorKind → ErrorKind
newer_kind old no_kind = old
newer_kind old local_target = local_target
newer_kind old tunnel = tunnel

abbrev pub newer_header : Header → Header → Header
newer_header old [] = old
newer_header old (h ∷ hs) = h ∷ hs

abbrev pub newer_preview : BodyPreview → BodyPreview → BodyPreview
newer_preview old new = if ltb 0 new.size || new.omitted then new else old

abbrev pub newer_size : ℤ → ℤ → ℤ
newer_size old new = if ltbℤ (pos 0) new then new else old

unfoldable pub merge_request_item : RequestItem → RequestItem → RequestItem
merge_request_item dst src = record dst {
  state = src.state;
  last_update = src.last_update;
  status_code = newer_nat dst.status_code src.status_code;
  duration = newer_duration dst.duration src.duration;
  error = newer_text dst.error src.error;
  error_kind = newer_kind dst.error_kind src.error_kind;
  host = newer_text dst.host src.host;
  target_url = newer_text dst.target_url src.target_url;
  remote_addr = newer_text dst.remote_addr src.remote_addr;
  request_header = newer_header dst.request_header src.request_header;
  response_header = newer_header dst.response_header src.response_header;
  request_preview = newer_preview dst.request_preview src.request_preview;
  response_preview = newer_preview dst.response_preview src.response_preview;
  http_basic_auth = src.http_basic_auth || dst.http_basic_auth;
  request_size = newer_size dst.request_size src.request_size;
  response_size = newer_size dst.response_size src.response_size;
}

abbrev is_local_target : ErrorKind → Bool
is_local_target local_target = true
is_local_target _ = false

-- The states that carry a status.
abbrev has_answer : EventType → Bool
has_answer response_started = true
has_answer request_completed = true
has_answer _ = false

unfoldable pub update_target_health : Model → RequestItem → Model
update_target_health m item =
    if is_local_target item.error_kind
    then record m { target_health = health_down; target_live = true }
    else if has_answer item.state && leb 500 item.status_code
    then record m { target_health = health_degraded; target_live = true }
    else if has_answer item.state && ltb 0 item.status_code
    then record m { target_health = health_ok; target_live = true }
    else m

-- From the number `i` on.
abbrev pub index_from : ℕ → GoMap ℕ ℕ → List RequestItem → GoMap ℕ ℕ
index_from i index [] = index
index_from i index (r ∷ rs) = index_from (suc i) (insert r.id i index) rs

unfoldable pub rebuild_index : Model → Model
rebuild_index m = record m { index = index_from 0 [] m.requests }

abbrev pub resumed_message : Bytes
resumed_message = codes "resumed: queued requests are forwarding"

-- The events that leave the queue.
abbrev leaves_queue : EventType → Bool
leaves_queue request_forwarding = true
leaves_queue response_started = true
leaves_queue request_completed = true
leaves_queue request_failed = true
leaves_queue _ = false

abbrev queue_drained : Model → Bool
unfolding queue_depth
queue_drained m = elim m.pause [ none ↦ true | some p ↦ queue_depth p == 0 ]

unfoldable pub clear_resume_message_if_queue_drained : Model → RequestEvent → Model
unfolding queue_depth
clear_resume_message_if_queue_drained m event =
    if m.paused || not (m.message == resumed_message)
    then m
    else if leaves_queue event.type && queue_drained m
    then record m { message = [] }
    else m

abbrev pub get_elem? {ℓ} : {A : Type ℓ} → List A → ℕ → Option A
get_elem? [] n = none
get_elem? (x ∷ xs) zero = some x
get_elem? (x ∷ xs) (suc n) = get_elem? xs n

abbrev pub set_elem {ℓ} : {A : Type ℓ} → List A → ℕ → A → List A
set_elem [] n a = []
set_elem (x ∷ xs) zero a = a ∷ xs
set_elem (x ∷ xs) (suc n) a = x ∷ set_elem xs n a

-- From the number `i` on.
abbrev pub position_from : ℕ → ℕ → List RequestItem → Option ℕ
position_from i id [] = none
position_from i id (r ∷ rs) =
    let rest = position_from (suc i) id rs in if r.id == id then some i else rest

-- The two ways that `applyEvent` goes on, after the status is set.
unfoldable pub update_request : Model → ℕ → RequestItem → RequestEvent → Option Model
unfolding merge_request_item update_target_health clear_resume_message_if_queue_drained
update_request m idx item event = elim (get_elem? m.requests idx) [
  | none ↦ none
  | some current ↦
      let merged = merge_request_item current item in
      let stored = record m { requests = set_elem m.requests idx merged } in
      some (clear_resume_message_if_queue_drained (update_target_health stored merged) event)
]

abbrev truncate_requests : Model → Model
unfolding rebuild_index
truncate_requests m =
    if ltb max_requests (length m.requests)
    then rebuild_index (record m { requests = take max_requests m.requests })
    else m

unfoldable pub add_request : Model → RequestItem → RequestEvent → Model
unfolding update_target_health rebuild_index clear_resume_message_if_queue_drained
add_request m item event =
    let grown = record m { requests = item ∷ m.requests } in
    clear_resume_message_if_queue_drained
      (truncate_requests (rebuild_index (update_target_health grown item))) event

unfoldable pub apply_event : Model → Stamped → Option Model
unfolding item_of update_request add_request
apply_event m stamped =
    let online = record m { status = codes "online" } in
    elim (lookup stamped.event.id m.index) [
      | some idx ↦ update_request online idx (item_of m stamped) stamped.event
      | none ↦ some (add_request online (item_of m stamped) stamped.event)
    ]
