-- ===== src/Tui/Model.antt =====
-- internal/tui/model.go and run.go: the state of the terminal interface. A time is its nanoseconds
-- since the zero Time, a duration its nanoseconds. `world` stands for what the interface asks of
-- others: the terminal libraries, the clipboard and the file system.
use gatelet.Prelude.{ℕ, Bool, false, Option, some, List, [], GoMap, Bytes, codes, ℤ, pos}
use gatelet.Client.Preview.{BodyPreview}
use gatelet.Client.Pause.{PauseController, new_pause_controller}
use gatelet.Client.Events.{Header, EventType, ErrorKind, RequestEvent}
use gatelet.Client.Replay.{ReplayError}

pub data ViewMode : Type 0 where
  view_list view_inspector view_body : ViewMode

pub data InspectorTab : Type 0 where
  tab_request tab_response : InspectorTab

pub data TargetHealth : Type 0 where
  health_unknown health_ok health_down health_degraded : TargetHealth

pub record RequestItem : Type 0 where
  pub id : ℕ
  pub method : Bytes
  pub request_uri : Bytes
  pub target_url : Bytes
  pub host : Bytes
  pub remote_addr : Bytes
  pub request_header : Header
  pub response_header : Header
  pub request_preview : BodyPreview
  pub response_preview : BodyPreview
  pub http_basic_auth : Bool
  pub status_code : ℕ
  pub request_size : ℤ
  pub response_size : ℤ
  pub duration : ℤ
  pub state : EventType
  pub error : Bytes
  pub error_kind : ErrorKind
  pub started_at : ℕ
  pub last_update : ℕ

-- An event of the client with its fields Time and Duration.
pub record Stamped : Type 0 where
  pub event : RequestEvent
  pub time : ℕ
  pub duration : ℤ

abbrev pub max_requests : ℕ
max_requests = 500

-- `pause` is the controller that the client waits on too; `cancelled` says that the context is done.
pub record Model : Type 0 where
  pub cancelled : Bool
  pub pause : Option PauseController
  pub url : Bytes
  pub target : Bytes
  pub http_basic_auth : Bool
  pub capture_dir : Bytes
  pub status : Bytes
  pub target_health : TargetHealth
  pub target_live : Bool
  pub message : Bytes
  pub paused : Bool
  pub mode : ViewMode
  pub inspector_tab : InspectorTab
  pub filtering : Bool
  pub filter : Bytes
  pub plain_body : Bool
  pub selected : ℤ
  pub detail_scroll : ℤ
  pub body_scroll : ℤ
  pub width : ℕ
  pub height : ℕ
  pub now : ℕ
  pub requests : List RequestItem
  pub index : GoMap ℕ ℕ

-- `inspector_lines` and `body_lines` count the lines that `formatInspector` and `bodyViewLines` lay
-- out with lipgloss and ansi at a width; `show_duration` rounds to milliseconds and prints;
-- `url_path` is the path of `url.Parse`, or `none`; the last four return an error's text.
pub record World : Type 0 where
  pub inspector_lines : RequestItem → ℕ → ℕ → Bool → InspectorTab → ℕ
  pub body_lines : RequestItem → ℕ → Bool → InspectorTab → ℕ
  pub show_duration : ℤ → Bytes
  pub url_path : Bytes → Option Bytes
  pub sorted_keys : Header → List (Bytes × List Bytes)
  pub cache_dir : Option Bytes
  pub path_join : Bytes → Bytes → Bytes
  pub replay_error : ReplayError → Bytes
  pub copy_text : Bytes → Option Bytes
  pub make_dir : Bytes → Option Bytes
  pub write_file : Bytes → Bytes → Option Bytes

-- The events of the program's loop; `other_msg` is a message that no case of `Update` names.
pub data Msg : Type 0 where
  window_size_msg : ℕ → ℕ → Msg
  tick_msg : ℕ → Msg
  event_msg : Stamped → Msg
  target_probe_msg : TargetHealth → Msg
  client_done_msg : Option Bytes → Msg
  replay_done_msg : ℕ → Stamped → Option Bytes → Msg
  key_msg : Bytes → Msg
  other_msg : Msg

-- What the loop is asked to run next.
pub data Cmd : Type 0 where
  no_cmd quit_cmd clear_screen_cmd tick_cmd wait_event_cmd wait_and_probe_cmd : Cmd
  replay_cmd : Bytes → Stamped → Cmd

-- The model that `Run` starts with.
unfoldable pub start_model : Bytes → Bytes → Bool → Bytes → ℕ → Model
unfolding new_pause_controller
start_model url target http_basic_auth capture_dir now = record {
  cancelled = false;
  pause = some new_pause_controller;
  url = url;
  target = target;
  http_basic_auth = http_basic_auth;
  capture_dir = capture_dir;
  status = codes "connecting";
  target_health = health_unknown;
  target_live = false;
  message = [];
  paused = false;
  mode = view_list;
  inspector_tab = tab_request;
  filtering = false;
  filter = [];
  plain_body = false;
  selected = pos 0;
  detail_scroll = pos 0;
  body_scroll = pos 0;
  width = 0;
  height = 0;
  now = now;
  requests = [];
  index = [];
}
