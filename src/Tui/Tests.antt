-- ===== src/Tui/Tests.antt =====
-- The terminal interface on concrete states.
use gatelet.Prelude.{
  ℕ, ◌≡◌, refl, ◌↔◌, inl, true, false, none, some, List, [], ◌∷◌, ◌++◌, arith, nat_eq, All, length,
  take, lookup, insert, Bytes, codes, bytes_eq, to_lower, trim, pos, decimal,
}
use gatelet.Client.Events.{blank_event, request_received, request_completed}
use gatelet.Tui.Model.{
  RequestItem, Stamped, Model, World, event_msg, Cmd, no_cmd, start_model, tab_request,
}
use gatelet.Tui.Requests.{item_of, apply_event}
use gatelet.Tui.Requests.Applied.{Applied, KeepsCursor, apply_event-Applied}
use gatelet.Tui.Selection.{fields, haystack, visible_requests, selected_request}
use gatelet.Tui.Selection.Filtered.{
  Occurs, HasWords, IsWord, concat, no_spaces, visible_requests_iff,
}
use gatelet.Tui.Selection.Clamped.{IsSound}
use gatelet.Tui.Rows.{list_rows, row_limit}
use gatelet.Tui.Rows.Window.{Shows, list_rows-Shows}
use gatelet.Tui.Actions.{curl_filename}
use gatelet.Tui.Detail.{Styles}
use gatelet.Tui.Colours.{colorize_json}
use gatelet.Tui.Inspector.{Printer, format_inspector}
use gatelet.Tui.Inspector.Redacted.{format_inspector-Agrees}
use gatelet.Tui.Keys.{key_of, unbound_key}
use gatelet.Tui.Filter.{update_filter}
use gatelet.Tui.Update.{update}
use gatelet.Tui.Update.Safety.{update-IsSound}
use gatelet.Tui.Update.Loop.{Loop, here, event-deafens}

abbrev world : World
world = record {
  inspector_lines = λ item width now plain tab. 30;
  body_lines = λ item width plain tab. 3;
  show_duration = λ d. codes "1s";
  url_path = λ uri. some uri;
  sorted_keys = λ h. h;
  cache_dir = none;
  path_join = λ a b. a ++ (b'/' ∷ b);
  replay_error = λ e. codes "no body";
  copy_text = λ text. none;
  make_dir = λ dir. none;
  write_file = λ path text. none;
}

abbrev received : ℕ → Stamped
received n = record {
  event = record (blank_event request_received) {
    id = n;
    method = codes "GET";
    request_uri = codes "/a b";
    request_header = (codes "Authorization", codes "Basic c2VjcmV0" ∷ []) ∷ [];
  };
  time = 5;
  duration = pos 0;
}

abbrev completed : ℕ → Stamped
completed n = record {
  event = record (blank_event request_completed) { id = n; status_code = 503 };
  time = 7;
  duration = pos 2;
}

abbrev empty_model : Model
unfolding start_model
empty_model = start_model (codes "https://a.b.c") (codes "http://127.0.0.1:80") false [] 1

abbrev item : ℕ → RequestItem
unfolding item_of
item n = item_of empty_model (received n)

-- Two requests, the older one selected.
abbrev model : Model
unfolding start_model item_of
model = record empty_model {
  requests = item 2 ∷ item 1 ∷ [];
  index = (2, 0) ∷ (1, 1) ∷ [];
  selected = pos 1;
}

model-IsSound : IsSound model
unfolding start_model item_of visible_requests lookup insert model item empty_model
model-IsSound = (((refl, (refl, tt)), refl, omega arith), (omega arith, tt, tt), tt)

update-IsSound_example :
    (r : Model × Cmd) × (update world model (event_msg (completed 1)) ≡ some r) × IsSound r.0
update-IsSound_example = update-IsSound world model (event_msg (completed 1)) model-IsSound

apply_event-Applied_example :
    (n : Model) × (apply_event model (completed 1) ≡ some n)
    × Applied model (item_of model (completed 1)) n
    × KeepsCursor model n
apply_event-Applied_example = apply_event-Applied model (completed 1) model-IsSound.0

abbrev typing : Model
unfolding model
typing = record model { filtering = true }

abbrev deaf : Loop
unfolding typing
deaf = record { model = typing; waiting = 0 }

typing_drops : update world typing (event_msg (completed 1)) ≡ some (typing, no_cmd)
unfolding update update_filter typing
typing_drops = refl

event-deafens_example : (typing ≡ typing) × (deaf.waiting ≡ 0)
unfolding typing
event-deafens_example =
    event-deafens world (record { model = typing; waiting = 1 }) deaf (completed 1) typing no_cmd
      refl refl typing_drops here

selected_older : selected_request model ≡ some (item 1)
unfolding selected_request visible_requests model item empty_model
selected_older = refl

list_rows-Shows_example : Shows (item 1) (list_rows model 1) (row_limit model 1)
list_rows-Shows_example = list_rows-Shows model 1 (item 1) selected_older

abbrev filtered : Model
unfolding model
filtered = record model { filter = codes "GET  /A" }

visible_requests_iff_example :
    (Occurs (item 1) (visible_requests filtered) ↔ (
      Occurs (item 1) filtered.requests
      × HasWords (fields (to_lower filtered.filter)) (haystack (item 1))))
    × All IsWord (fields (to_lower filtered.filter))
    × (concat (fields (to_lower filtered.filter)) ≡ no_spaces (to_lower filtered.filter))
visible_requests_iff_example = visible_requests_iff filtered (item 1)

two_words : fields (to_lower (codes "GET  /A")) ≡ codes "get" ∷ codes "/a" ∷ []
unfolding fields
two_words = refl

filename : curl_filename world (received 1).event ≡ codes "000001-get-a-b.curl"
unfolding curl_filename trim
filename = refl

abbrev mark : ℕ → Bytes → Bytes
mark c text = c ∷ (text ++ b'~' ∷ [])

abbrev styles : Styles
styles = record {
  key = mark b'K';
  val = mark b'V';
  muted = mark b'M';
  heading = mark b'H';
  status_2xx = mark b'2';
  status_3xx = mark b'3';
  status_4xx = mark b'4';
  status_5xx = mark b'5';
  queued = mark b'Q';
}

coloured : colorize_json styles (codes "{\"a\": true}") ≡ codes "{K\"a\"~: 3true~}"
unfolding colorize_json
coloured = refl

abbrev printer : Printer
printer = record {
  styles = styles;
  indent_json = λ text. none;
  text_width = λ text. length text;
  shorten = λ text n. take n text;
  clock = 9;
  show_time = λ t. decimal t;
  show_duration = λ d. codes "1s";
  row = λ text. text;
  sorted_keys = λ h. h;
}

abbrev other_secret : List (Bytes × List Bytes)
other_secret = (codes "Authorization", codes "Basic b3RoZXI=" ∷ []) ∷ []

format_inspector-Agrees_example :
    format_inspector printer (item 1) 3 false tab_request
    ≡ format_inspector printer
        (record (item 1) { request_header = other_secret; response_header = [] })
        3
        false
        tab_request
unfolding item
format_inspector-Agrees_example =
    format_inspector-Agrees printer (item 1) other_secret [] 3 false tab_request
      (refl, inl (inl refl), tt) tt

-- The key that the help of the response tab names for saving does nothing.
save_unbound : key_of (codes "s") ≡ unbound_key
unfolding key_of lookup
save_unbound = refl
