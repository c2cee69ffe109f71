-- ===== src/Tunnel.antt =====
-- A visitor's request through both programs: `ServeHTTP` of internal/server/server.go on one end of a
-- stream and `handleStream` of internal/client/client.go on the other. How net/http writes and reads a
-- message on the stream is a parameter.
pub mod Answered
mod Tests
use gatelet.Prelude.{ℕ, Bool, true, false, Option, none, some, List, [], Result, ok, err, Bytes}
use gatelet.Server.Names.{Settings}
use gatelet.Server.Registry.{Registry}
use gatelet.Server.Dispatch.{Request, Reply, Stream, Handled, serve_http}
use gatelet.Client.Events.{Header}
use gatelet.Client.Target.{Url, TargetError, target_request_url}
use gatelet.Client.Stream.{
  TunnelRequest, Pausing, TargetResponse, Exchange, ClientSettings, Effect, handle_stream,
}
use gatelet.Client.Stream.Answers.{first_answer}

-- `http.ReadRequest` of what `Request.Write` wrote, with the number of its bytes, and `http.ReadResponse`
-- of what `Response.Write` wrote.
pub record Transport : Type 0 where
  pub read_request : Request → Option TunnelRequest
  pub request_size : Request → ℕ
  pub read_response : TargetResponse → Option Reply

-- A client behind an open session, for one request.
pub record Client : Type 0 where
  pub parse_media_type : Bytes → Option Bytes
  pub utf8_valid : Bytes → Bool
  pub settings : ClientSettings
  pub id : ℕ
  -- `config.Target`, and how a URL is parsed and printed.
  pub target : Bytes
  pub parse_url : Bytes → Option Url
  pub print_url : Url → Bytes
  pub target_error_text : TargetError → Bytes
  pub pausing : Option Pausing
  pub bad_request : Option Bytes
  -- The local target: what it answers to a method, a URL, a host and a header.
  pub serves : Bytes → Bytes → Bytes → Header → Result Bytes TargetResponse

abbrev pub target_url_of : Client → TunnelRequest → Result Bytes Bytes
target_url_of c r = elim (target_request_url c.parse_url c.target r.request_uri) [
  | err e ↦ err (c.target_error_text e)
  | ok url ↦ ok (c.print_url url)
]

abbrev asked_at : Client → TunnelRequest → Result Bytes Bytes → Result Bytes TargetResponse
asked_at c r (err e) = err e
asked_at c r (ok url) = c.serves r.method url r.host r.header

-- What the calls of `handleStream` return.
abbrev pub exchange_of : Client → TunnelRequest → Exchange
exchange_of c r = record {
  id = c.id;
  request = some r;
  pausing = c.pausing;
  target_url = target_url_of c r;
  bad_request = c.bad_request;
  reply = asked_at c r (target_url_of c r);
}

abbrev pub unreadable : Client → Exchange
unreadable c = record {
  id = c.id;
  request = none;
  pausing = c.pausing;
  target_url = err [];
  bad_request = none;
  reply = err [];
}

-- What the client does about a request that was written.
unfoldable pub client_serves : Transport → Client → Request → List Effect
client_serves t c out =
    handle_stream c.parse_media_type c.utf8_valid c.settings
      (elim (t.read_request out) [ none ↦ unreadable c | some r ↦ exchange_of c r ])

abbrev read_answer : Transport → Option TargetResponse → Option Reply
read_answer t none = none
read_answer t (some response) = t.read_response response

-- The stream with that client at its end.
unfoldable pub stream_to : Transport → Client → Request → Stream
unfolding client_serves
stream_to t c out = record {
  opens = true;
  written = t.request_size out;
  write_fails = false;
  reply = read_answer t (first_answer (client_serves t c out));
}

abbrev silent : Stream
silent = record { opens = true; written = 0; write_fails = false; reply = none }

-- What the relay and the client do about a request: it is written before the response is read.
unfoldable pub visit :
    Transport
    → Settings
    → (ℕ → Bool)
    → Registry
    → (ℕ → Client)
    → Request
    → ℕ
    → ℕ
    → Handled × List Effect
unfolding stream_to client_serves
visit t s closed g clients r duration now =
    let first = serve_http s closed g r (λ session. silent) duration now in
    elim first.sent [
      | none ↦ (first, [])
      | some (session, out) ↦ (
        serve_http s closed g r (λ x. stream_to t (clients x) out) duration now,
        client_serves t (clients session) out,
      )
    ]
