-- ===== src/Client/Stream.antt =====
-- internal/client/client.go: `handleStream`, one request through the tunnel, as the list of what it
-- does in order. What its calls return is a record. Deadlines, the clock and the closing of bodies are
-- left out.
pub mod Outcomes
pub mod Answers
use gatelet.Prelude.{
  ℕ, ◌+◌, Bool, ◌&&◌, Option, none, some, List, [], ◌∷◌, ◌++◌, if◌then◌else◌, ◌==◌, nat_eq, lookup,
  Result, ok, err, Bytes, codes, bytes_eq, is_empty, trim_space, cut, ℤ, pos, ltbℤ,
}
use gatelet.Client.Preview.{BodyPreview, Capture, new_capture, write, preview}
use gatelet.Client.Events.{
  Header, EventType, request_received, request_queued, request_forwarding, response_started,
  request_completed, request_failed, ErrorKind, local_target, tunnel, RequestEvent, blank_event,
}

-- The request as it comes out of the stream, with the reads of its body up to the last event.
pub record TunnelRequest : Type 0 where
  pub method : Bytes
  pub request_uri : Bytes
  pub host : Bytes
  pub remote_addr : Bytes
  pub header : Header
  pub content_length : ℤ
  pub body_reads : List Bytes

-- What the request sees of the pause controller: `IsPaused` and the depth before it waits, whether
-- it was queued, the depth behind, and the error of a wait that ended before the resumption.
pub record Pausing : Type 0 where
  pub was_paused : Bool
  pub depth_before : ℕ
  pub queued : Bool
  pub depth_behind : ℕ
  pub failed : Option Bytes

pub record TargetResponse : Type 0 where
  pub status : ℕ
  pub header : Header
  pub body_reads : List Bytes
  pub write_error : Option Bytes

pub record Exchange : Type 0 where
  pub id : ℕ
  pub request : Option TunnelRequest
  pub pausing : Option Pausing
  -- The printed URL, or the text of the error, of `targetRequestURL`.
  pub target_url : Result Bytes Bytes
  -- The error of `http.NewRequest`.
  pub bad_request : Option Bytes
  pub reply : Result Bytes TargetResponse

pub record ClientSettings : Type 0 where
  pub preview_limit : ℤ
  pub http_basic_auth : Bool

pub data Effect : Type 0 where
  emits logs : RequestEvent → Effect
  -- The request that is sent to the target: its method, URL, Host and header.
  asks : Bytes → Bytes → Bytes → Header → Effect
  -- `writeError`, and the response of the target.
  writes_error : ℕ → Bytes → Effect
  writes_response : TargetResponse → Effect

abbrev pub first_value : Option (List Bytes) → Bytes
first_value none = []
first_value (some []) = []
first_value (some (v ∷ vs)) = v

abbrev pub header_get : Bytes → Header → Bytes
header_get key h = first_value (lookup key h)

abbrev before_comma : Bytes → Bytes
before_comma s = elim (cut b',' s) [ none ↦ s | some (first, rest) ↦ first ]

unfoldable pub request_remote_addr : TunnelRequest → Bytes
request_remote_addr r =
    let forwarded_for = header_get (codes "X-Forwarded-For") r.header in
    if is_empty forwarded_for then r.remote_addr else trim_space (before_comma forwarded_for)

abbrev pub capture_reads : Capture → List Bytes → Capture
capture_reads c [] = c
capture_reads c (p ∷ ps) = capture_reads (write c p) ps

abbrev size_or_length : BodyPreview → ℤ → ℤ
size_or_length p content_length =
    if p.size == 0 && ltbℤ (pos 0) content_length then content_length else pos p.size

module _ (parse_media_type : Bytes → Option Bytes) (utf8_valid : Bytes → Bool) (s : ClientSettings)
    (id : ℕ) (r : TunnelRequest) where
  preview_of : Header → List Bytes → BodyPreview
  preview_of h reads =
      preview parse_media_type utf8_valid
        (capture_reads (new_capture (header_get (codes "Content-Type") h) s.preview_limit) reads)

  -- The fields that every event of the request has.
  about_request : EventType → RequestEvent
  about_request type = record (blank_event type) {
    id = id;
    method = r.method;
    request_uri = r.request_uri;
    host = r.host;
    remote_addr = request_remote_addr r;
    http_basic_auth = s.http_basic_auth;
  }

  timed_out_event : Bytes → RequestEvent
  timed_out_event error = record (about_request request_failed) {
    request_preview = preview_of r.header r.body_reads;
    request_size = size_or_length (preview_of r.header r.body_reads) r.content_length;
    error = error;
    error_kind = tunnel;
  }

  with_response : Option TargetResponse → RequestEvent → RequestEvent
  with_response none e = e
  with_response (some response) e =
      let p = preview_of response.header response.body_reads in
      record e { response_preview = p; response_size = pos p.size }

  -- `failedEvent`, and the target that its callers set.
  failed_event : Bytes → Option TargetResponse → Bytes → ErrorKind → RequestEvent
  failed_event target_url response error kind =
      with_response response (record (timed_out_event error) {
        request_header = r.header;
        target_url = target_url;
        error_kind = kind;
      })

  completed_event : Bytes → TargetResponse → RequestEvent
  completed_event target_url response =
      let p = preview_of r.header r.body_reads in
      let q = preview_of response.header response.body_reads in
      record (about_request request_completed) {
        target_url = target_url;
        request_header = r.header;
        response_header = response.header;
        request_preview = p;
        response_preview = q;
        status_code = response.status;
        request_size = pos p.size;
        response_size = pos q.size;
      }

  ends_with : RequestEvent → List Effect
  ends_with e = logs e ∷ emits e ∷ []

  -- From `resp.Write` on.
  relay : Bytes → TargetResponse → List Effect
  relay target_url response =
      emits (record (about_request response_started) {
        target_url = target_url;
        request_header = r.header;
        response_header = response.header;
        status_code = response.status;
      })
      ∷ writes_response response
      ∷ elim response.write_error [
        | some error ↦ ends_with (failed_event target_url (some response) error tunnel)
        | none ↦ ends_with (completed_event target_url response)
      ]

  -- From `http.NewRequest` on.
  ask : Bytes → Option Bytes → Result Bytes TargetResponse → List Effect
  ask target_url (some error) reply =
      writes_error 502 (codes "bad local request")
      ∷ ends_with (failed_event target_url none error local_target)
  ask target_url none (err error) =
      asks r.method target_url r.host r.header
      ∷ writes_error 502 (codes "local target unavailable")
      ∷ ends_with (failed_event target_url none error local_target)
  ask target_url none (ok response) =
      asks r.method target_url r.host r.header ∷ relay target_url response

  -- From `targetRequestURL` on.
  to_target : Exchange → List Effect
  to_target x = elim x.target_url [
    | err error ↦
        writes_error 502 (codes "bad local target")
        ∷ ends_with (failed_event [] none error local_target)
    | ok target_url ↦
        emits (record (about_request request_forwarding) { target_url = target_url })
        ∷ ask target_url x.bad_request x.reply
  ]

  queued_event : ℕ → RequestEvent
  queued_event depth = record (about_request request_queued) { queue_depth = depth }

  queue_events : Pausing → List Effect
  queue_events p =
      if p.was_paused
      then emits (queued_event (p.depth_before + 1)) ∷ []
      else if p.queued
      then emits (queued_event p.depth_behind) ∷ []
      else []

  -- The part on the pause controller, and what follows.
  behind_pause : Exchange → Option Pausing → List Effect
  behind_pause x none = to_target x
  behind_pause x (some p) = queue_events p ++ elim p.failed [
    | some error ↦
        writes_error 504 (codes "request paused too long") ∷ ends_with (timed_out_event error)
    | none ↦ to_target x
  ]

unfoldable pub handle_stream :
    (Bytes → Option Bytes) → (Bytes → Bool) → ClientSettings → Exchange → List Effect
unfolding behind_pause to_target ask relay about_request ends_with failed_event completed_event
    queue_events timed_out_event with_response queued_event preview_of
handle_stream parse_media_type utf8_valid s x = elim x.request [
  | none ↦ writes_error 502 (codes "bad tunneled request") ∷ []
  | some r ↦
      emits (record (about_request parse_media_type utf8_valid s x.id r request_received) {
        request_header = r.header;
      })
      ∷ behind_pause parse_media_type utf8_valid s x.id r x x.pausing
]
