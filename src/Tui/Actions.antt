-- ===== src/Tui/Actions.antt =====
-- internal/tui/actions.go: what the interface does with the selected request. A path is of ASCII
-- bytes. The clipboard and the file system are functions of `world`.
pub mod Filename
use gatelet.Prelude.{
  ℕ, Bool, true, false, not, ◌&&◌, ◌||◌, Option, none, some, [], ◌∷◌, ◌++◌, leb, if◌then◌else◌,
  ◌==◌, nat_eq, ok, err, Bytes, codes, bytes_eq, is_empty, to_lower, trim, padded,
}
use gatelet.Client.Events.{RequestEvent, request_line}
use gatelet.Client.Replay.{Captured, curl_command}
use gatelet.Tui.Model.{RequestItem, Stamped, Model, World, Cmd, no_cmd, replay_cmd}
use gatelet.Tui.Selection.{selected_request}

abbrev pub event_of : RequestItem → Stamped
event_of item = record {
  event = record {
    id = item.id;
    type = item.state;
    method = item.method;
    request_uri = item.request_uri;
    public_url = [];
    target_url = item.target_url;
    host = item.host;
    remote_addr = item.remote_addr;
    request_header = item.request_header;
    response_header = item.response_header;
    request_preview = item.request_preview;
    response_preview = item.response_preview;
    http_basic_auth = item.http_basic_auth;
    status_code = item.status_code;
    request_size = item.request_size;
    response_size = item.response_size;
    queue_depth = 0;
    error = item.error;
    error_kind = item.error_kind;
  };
  time = item.started_at;
  duration = item.duration;
}

unfoldable pub selected_event : Model → Option Stamped
unfolding selected_request
selected_event m = elim (selected_request m) [ none ↦ none | some item ↦ some (event_of item) ]

is_slug_byte : ℕ → Bool
is_slug_byte c = (leb b'a' c && leb c b'z') || (leb b'0' c && leb c b'9')

-- The loop of `slugify`; `b` is the buffer.
slug_from : Bool → Bytes → Bytes → Bytes
slug_from last_dash b [] = b
slug_from last_dash b (c ∷ cs) =
    let kept = slug_from false (b ++ c ∷ []) cs in
    let dashed = slug_from true (b ++ b'-' ∷ []) cs in
    let skipped = slug_from last_dash b cs in
    if is_slug_byte c then kept else if not last_dash && not (is_empty b) then dashed else skipped

is_dash : ℕ → Bool
is_dash c = c == b'-'

unfoldable pub slugify : Bytes → Bytes
unfolding is_slug_byte slug_from is_dash
slugify value = trim is_dash (slug_from false [] (to_lower value))

abbrev pub non_empty : Bytes → Bytes → Bytes
non_empty value fallback = if is_empty value then fallback else value

module _ (world : World) where
  -- The path of the URI where it parses to one.
  abbrev pub request_path : RequestEvent → Bytes
  request_path event = elim (world.url_path event.request_uri) [
    | none ↦ event.request_uri
    | some path ↦ non_empty path event.request_uri
  ]

  unfoldable pub curl_filename : RequestEvent → Bytes
  unfolding slugify padded
  curl_filename event =
      padded 6 event.id
      ++ (b'-'
          ∷ (non_empty (to_lower event.method) (codes "request")
              ++ (b'-'
                  ∷ (non_empty (slugify (request_path event)) (codes "root") ++ codes ".curl"))))

  abbrev pub captured : RequestEvent → Captured
  captured event = record {
    method = event.method;
    request_uri = event.request_uri;
    headers = world.sorted_keys event.request_header;
    request_preview = event.request_preview;
  }

  abbrev saying : Model → Bytes → Model
  saying m text = record m { message = text }

  unfoldable pub copy_selected_curl : Model → Model
  unfolding selected_event curl_command
  copy_selected_curl m = elim (selected_event m) [
    | none ↦ saying m (codes "no request selected")
    | some stamped ↦ elim (curl_command (captured stamped.event) m.url) [
      | err e ↦ saying m (codes "curl failed: " ++ world.replay_error e)
      | ok command ↦ elim (world.copy_text command) [
        | some e ↦ saying m (codes "copy failed: " ++ e)
        | none ↦ saying m (codes "copied curl")
      ]
    ]
  ]

  unfoldable pub default_capture_dir : Bytes
  default_capture_dir = elim world.cache_dir [
    | none ↦ codes "gatelet-captures"
    | some dir ↦
        if is_empty dir
        then codes "gatelet-captures"
        else world.path_join dir (codes "gatelet/captures")
  ]

  abbrev pub capture_path : Model → RequestEvent → Bytes
  unfolding default_capture_dir curl_filename
  capture_path m event =
      world.path_join (non_empty m.capture_dir default_capture_dir) (curl_filename event)

  unfoldable pub save_curl : Model → RequestEvent → Bytes → Model
  unfolding default_capture_dir curl_filename
  save_curl m event command = elim (world.make_dir (non_empty m.capture_dir default_capture_dir)) [
    | some e ↦ saying m (codes "save failed: " ++ e)
    | none ↦ elim (world.write_file (capture_path m event) (command ++ b'\n' ∷ [])) [
      | some e ↦ saying m (codes "save failed: " ++ e)
      | none ↦ saying m (codes "saved curl " ++ capture_path m event)
    ]
  ]

  unfoldable pub export_selected_curl : Model → Model
  unfolding selected_event curl_command save_curl
  export_selected_curl m = elim (selected_event m) [
    | none ↦ saying m (codes "no request selected")
    | some stamped ↦ elim (curl_command (captured stamped.event) m.url) [
      | err e ↦ saying m (codes "curl failed: " ++ world.replay_error e)
      | ok command ↦ save_curl m stamped.event command
    ]
  ]

  unfoldable pub replay_selected_request : Model → Model × Cmd
  unfolding selected_event request_line
  replay_selected_request m = elim (selected_event m) [
    | none ↦ (saying m (codes "no request selected"), no_cmd)
    | some stamped ↦
        if is_empty m.target
        then (saying m (codes "replay failed: local target unavailable"), no_cmd)
        else (
          saying m
              (codes "replaying " ++ request_line stamped.event.method stamped.event.request_uri),
          replay_cmd m.target stamped,
        )
  ]
