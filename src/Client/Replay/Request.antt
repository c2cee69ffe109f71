-- ===== src/Client/Replay/Request.antt =====
-- internal/client/replay.go: `ReplayRequest`, a captured request sent again to the local target. What its
-- calls return is a record; the clock is left out.
use gatelet.Prelude.{
  ℕ, ◌≡◌, refl, sym, ap, ◌∙◌, subst, ◌⊎◌, inl, inr, Bool, false, Option, none, some, List, [], ◌++◌,
  arith, nat_beq_iff, Option-cases, length, Result, ok, err, Bytes, codes, pos, Result-cases,
}
use gatelet.Client.Preview.{default_preview_limit, BodyPreview, new_capture, preview}
use gatelet.Client.Stream.{header_get, capture_reads}
use gatelet.Client.Events.{
  Header, request_failed, request_completed, RequestEvent, no_preview, blank_event,
}
use gatelet.Client.Target.{Url, TargetError, target_request_url}
use gatelet.Client.Replay.{
  ReplayError, body_unavailable, body_incomplete, replay_body, method_or_get,
}

pub record ReplayedResponse : Type 0 where
  pub status : ℕ
  pub header : Header
  pub body_reads : List Bytes
  -- The error of reading the body, if it cannot be read to its end.
  pub read_error : Option Bytes

pub record Replaying : Type 0 where
  pub id : ℕ
  pub target : Bytes
  -- How a URL is parsed and printed, and the text of an error of `targetRequestURL`.
  pub parse_url : Bytes → Option Url
  pub print_url : Url → Bytes
  pub target_error_text : TargetError → Bytes
  -- The error of `http.NewRequestWithContext`.
  pub bad_request : Option Bytes
  pub reply : Result Bytes ReplayedResponse

-- `targetRequestURL` of the target and the request's URI.
unfoldable pub replayed_url : Replaying → RequestEvent → Result Bytes Bytes
unfolding target_request_url
replayed_url x e = elim (target_request_url x.parse_url x.target e.request_uri) [
  | err error ↦ err (x.target_error_text error)
  | ok url ↦ ok (x.print_url url)
]

pub record Sent : Type 0 where
  pub method : Bytes
  pub url : Bytes
  pub host : Bytes
  pub header : Header
  pub body : Bytes

-- The result, the error, and the request that the target receives, if any.
pub record Replayed : Type 0 where
  pub event : RequestEvent
  pub error : Option Bytes
  pub sent : Option Sent

abbrev error_text : ReplayError → Bytes
error_text (body_unavailable reason) = codes "request body is unavailable: " ++ reason
error_text body_incomplete = codes "request body preview is incomplete"

abbrev body_or_nothing : Option Bytes → Bytes
body_or_nothing none = []
body_or_nothing (some body) = body

abbrev gives_up : RequestEvent → Bytes → Option Sent → Replayed
gives_up event text sent = record {
  event = record event { error = text };
  error = some text;
  sent = sent;
}

abbrev started : ℕ → RequestEvent → RequestEvent
started id e = record (blank_event request_failed) {
  id = id;
  method = e.method;
  request_uri = e.request_uri;
  host = e.host;
  remote_addr = codes "local replay";
  request_header = e.request_header;
  request_size = pos e.request_preview.size;
}

abbrev with_body : RequestEvent → BodyPreview → Bytes → RequestEvent
with_body event p body = record event {
  request_preview = record no_preview { text = body; content_type = p.content_type; size = p.size };
}

abbrev sent_of : RequestEvent → Bytes → Bytes → Sent
sent_of e url body = record {
  method = method_or_get e.method;
  url = url;
  host = e.host;
  header = e.request_header;
  body = body;
}

module _ (parse_media_type : Bytes → Option Bytes) (utf8_valid : Bytes → Bool) where
  response_preview : ReplayedResponse → BodyPreview
  response_preview response = preview parse_media_type utf8_valid (
      capture_reads
        (new_capture (header_get (codes "Content-Type") response.header)
          (pos default_preview_limit))
        response.body_reads)

  completes : RequestEvent → Sent → ReplayedResponse → Replayed
  completes event sent response = elim response.read_error [
    | some text ↦ gives_up event text (some sent)
    | none ↦ record {
      event = record event {
        type = request_completed;
        response_header = response.header;
        response_preview = response_preview response;
        status_code = response.status;
        response_size = pos (response_preview response).size;
      };
      error = none;
      sent = some sent;
    }
  ]

  -- From `targetRequestURL` on.
  sends : RequestEvent → RequestEvent → Bytes → Replaying → Replayed
  sends e event body x = elim (replayed_url x e) [
    | err text ↦ gives_up event text none
    | ok url ↦ elim x.bad_request [
      | some text ↦ gives_up event text none
      | none ↦ elim x.reply [
        | err text ↦ gives_up event text (some (sent_of e url body))
        | ok response ↦ completes event (sent_of e url body) response
      ]
    ]
  ]

  unfoldable pub replay_request : RequestEvent → Replaying → Replayed
  unfolding sends completes response_preview
  replay_request e x = elim (replay_body e.request_preview) [
    | err k ↦ gives_up (started x.id e) (error_text k) none
    | ok body ↦
        sends e (with_body (started x.id e) e.request_preview (body_or_nothing body))
          (body_or_nothing body) x
  ]

-- The whole captured body: none was captured, or its text has the size that was counted.
abbrev pub IsWhole : BodyPreview → Bytes → Type 0
IsWhole p body =
    (p.omitted ≡ false)
    × (((p.size ≡ 0) × (body ≡ [])) ⊎ ((body ≡ p.text) × (length body ≡ p.size)))

replay_body-IsWhole :
    (p : BodyPreview) (body : Option Bytes)
    → replay_body p ≡ ok body
    → IsWhole p (body_or_nothing body)
unfolding replay_body
replay_body-IsWhole p none e = ground (arith, nat_beq_iff p.size 0)
replay_body-IsWhole p (some body) e = ground (arith, nat_beq_iff (length p.text) p.size)

abbrev given_or : Sent → Option Sent → Sent
given_or s none = s
given_or s (some t) = t

-- What the target receives of a captured request.
pub record IsReplay (e : RequestEvent) (x : Replaying) (sent : Sent) : Type 0 where
  pub whole : IsWhole e.request_preview sent.body
  pub url : replayed_url x e ≡ ok sent.url
  pub method : sent.method ≡ method_or_get e.method
  pub host : sent.host ≡ e.host
  pub header : sent.header ≡ e.request_header

module _ (parse_media_type : Bytes → Option Bytes) (utf8_valid : Bytes → Bool) (e : RequestEvent)
    (x : Replaying) (sent : Sent) where
  completes_sent :
      (event : RequestEvent) (s : Sent) (response : ReplayedResponse)
      → (completes parse_media_type utf8_valid event s response).sent ≡ some s
  unfolding completes
  completes_sent event s response = elim (Option-cases response.read_error) [
    | inl fine ↦ rw (fine, completes) refl
    | inr (text, f) ↦ rw (f, completes) refl
  ]

  sends_sent :
      (event : RequestEvent) (body : Bytes)
      → (sends parse_media_type utf8_valid e event body x).sent ≡ some sent
      → (url : Bytes) × (replayed_url x e ≡ ok url) × (sent_of e url body ≡ sent)
  unfolding sends
  sends_sent event body h = elim (Result-cases (replayed_url x e)) [
    | inr (text, f) ↦ absurd (ground (arith, f))
    | inl (url, f) ↦ elim (Option-cases x.bad_request) [
      | inr (text, g) ↦ absurd (ground (arith, f, g))
      | inl g ↦ elim (Result-cases x.reply) [
        | inr (text, k) ↦
            let made : (sends parse_media_type utf8_valid e event body x).sent
                ≡ some (sent_of e url body) =
              rw (f, g, k, sends) refl in
            (url, f, ap (given_or sent) (sym made ∙ h))
        | inl (response, k) ↦
            let made : (sends parse_media_type utf8_valid e event body x).sent
                ≡ some (sent_of e url body) =
              rw (f, g, k, sends) (completes_sent event (sent_of e url body) response) in
            (url, f, ap (given_or sent) (sym made ∙ h))
      ]
    ]
  ]

  -- A replay sends the target nothing but the captured request as a whole, at the URL that is made for it:
  -- the method (GET for none), the host and the headers, and the whole captured body.
  pub replay_request-IsReplay :
      (replay_request parse_media_type utf8_valid e x).sent ≡ some sent → IsReplay e x sent
  unfolding replay_request
  replay_request-IsReplay h = elim (Result-cases (replay_body e.request_preview)) [
    | inr (k, f) ↦ absurd (ground (arith, f))
    | inl (body, f) ↦
        let (url, made, same) =
          sends_sent (with_body (started x.id e) e.request_preview (body_or_nothing body))
            (body_or_nothing body) (rw (f, replay_request) at h) in
        subst (IsReplay e x) same (record {
          whole = replay_body-IsWhole e.request_preview body f;
          url = made;
          method = refl;
          host = refl;
          header = refl;
        })
  ]
