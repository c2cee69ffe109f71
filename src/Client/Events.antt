-- ===== src/Client/Events.antt =====
-- internal/client/events.go: the events of the client. The fields Time and Duration, readings of the
-- clock, are left out.
pub mod Routed
use gatelet.Prelude.{
  ℕ, Bool, false, ◌||◌, Option, none, some, List, [], ◌∷◌, ◌++◌, if◌then◌else◌, ◌==◌, nat_eq, GoMap,
  Bytes, codes, bytes_eq, is_empty, strip_prefix, trim, cut, ℤ, pos,
}
use gatelet.Client.Preview.{BodyPreview}

abbrev pub Header : Type 0
Header = GoMap Bytes (List Bytes)

pub data EventType : Type 0 where
  tunnel_connected tunnel_reconnecting request_received request_queued request_forwarding :
      EventType
  response_started request_completed request_failed : EventType

-- `no_kind` is the empty string.
pub data ErrorKind : Type 0 where
  no_kind local_target tunnel : ErrorKind

pub record RequestEvent : Type 0 where
  pub id : ℕ
  pub type : EventType
  pub method : Bytes
  pub request_uri : Bytes
  pub public_url : Bytes
  pub target_url : Bytes
  pub host : Bytes
  pub remote_addr : Bytes
  pub request_header : Header
  pub response_header : Header
  pub request_preview : BodyPreview
  pub response_preview : BodyPreview
  pub http_basic_auth : Bool
  pub status_code : ℕ
  pub request_size : ℤ
  pub response_size : ℤ
  pub queue_depth : ℕ
  pub error : Bytes
  pub error_kind : ErrorKind

abbrev pub no_preview : BodyPreview
no_preview = record {
  text = [];
  content_type = [];
  size = 0;
  captured = 0;
  omitted = false;
  reason = [];
}

-- The zero value, but for its type.
abbrev pub blank_event : EventType → RequestEvent
blank_event type = record {
  id = 0;
  type = type;
  method = [];
  request_uri = [];
  public_url = [];
  target_url = [];
  host = [];
  remote_addr = [];
  request_header = [];
  response_header = [];
  request_preview = no_preview;
  response_preview = no_preview;
  http_basic_auth = false;
  status_code = 0;
  request_size = pos 0;
  response_size = pos 0;
  queue_depth = 0;
  error = [];
  error_kind = no_kind;
}

abbrev pub empty_default : Bytes → Bytes → Bytes
empty_default value fallback = if is_empty value then fallback else value

unfoldable pub request_line : Bytes → Bytes → Bytes
request_line method request_uri = method ++ (b' ' ∷ empty_default request_uri (codes "/"))

pub data LogFormat : Type 0 where
  text json jsonl : LogFormat

unfoldable pub parse_log_format : Bytes → Option LogFormat
parse_log_format value =
    if value == [] || value == codes "text"
    then some text
    else if value == codes "json"
    then some json
    else if value == codes "jsonl"
    then some jsonl
    else none

abbrev pub is_dot : ℕ → Bool
is_dot c = c == b'.'

abbrev pub trim_dots : Bytes → Bytes
trim_dots s = trim is_dot s

abbrev bracketed_host : Bytes → Option Bytes
bracketed_host addr = elim (strip_prefix (codes "[") addr) [
  | none ↦ none
  | some inner ↦ elim (cut b']' inner) [ none ↦ none | some (host, rest) ↦ some (trim_dots host) ]
]

abbrev host_of_addr : Bytes → Bytes
host_of_addr addr = elim (bracketed_host addr) [
  | some host ↦ host
  | none ↦ elim (cut b':' addr) [
    | none ↦ trim_dots addr
    | some (host, port) ↦ if is_empty port then trim_dots addr else trim_dots host
  ]
]

-- `parse_host` is the Host of `url.Parse`, or "" where it fails.
unfoldable pub host_without_port : (Bytes → Bytes) → Bytes → Bytes
host_without_port parse_host addr =
    host_of_addr (if is_empty (parse_host addr) then addr else parse_host addr)

unfoldable pub public_url : (Bytes → Bytes) → Bytes → Bytes → Bytes → Bytes
public_url parse_host name domain server_addr =
    let d =
      trim_dots (if is_empty domain then host_without_port parse_host server_addr else domain) in
    if is_empty d then name else codes "https://" ++ (name ++ (b'.' ∷ d))

is_bracket : ℕ → Bool
is_bracket c = c == b'[' || c == b']'

unfoldable pub remote_ip : Bytes → Bytes
unfolding is_bracket
remote_ip remote_addr = elim (cut b':' remote_addr) [
  | none ↦ trim is_bracket remote_addr
  | some (host, rest) ↦ if is_empty host then trim is_bracket remote_addr else trim is_bracket host
]
