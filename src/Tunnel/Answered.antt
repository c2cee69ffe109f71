-- ===== src/Tunnel/Answered.antt =====
-- What a visitor gets whose request is admitted, and what the local target is asked.
use gatelet.Prelude.{
  sym, subst, ℕ, ◌≡◌, refl, ap, ◌∙◌, Bool, true, false, Option, none, some, List, [], ◌∷◌, ◌==◌,
  nat_eq, lookup, All, contains, ok, Bytes, codes, bytes_eq,
}
use gatelet.Protocol.Hello.{HttpBasicAuthConfig}
use gatelet.Server.Names.{Settings}
use gatelet.Server.Host.{split_host_port, name_from_host}
use gatelet.Server.Registry.{Registry, http_tunnel, record_request}
use gatelet.Server.Dispatch.{
  Request, Reply, Stream, relayed, forwarded_proto, Handled, add_forwarded_headers, asked_page,
  serve_http,
}
use gatelet.Server.Dispatch.Forward.{IsForwarded, Authorized}
use gatelet.Server.Dispatch.Through.{
  Admits, unguarded, unguarded-IsForwarded, serve_http-sends, serve_http-relays,
}
use gatelet.Client.Events.{Header}
use gatelet.Client.Stream.{
  TunnelRequest, TargetResponse, Effect, emits, logs, asks, writes_error, writes_response,
}
use gatelet.Client.Stream.Outcomes.{Settles, succeeds, handle_stream-Settles}
use gatelet.Client.Stream.Answers.{
  first_answer, answer_of, AsksFor, IsAnswer, answer_of-IsAnswer, handle_stream-first_answer,
}
use gatelet.Tunnel.{
  Transport, Client, target_url_of, exchange_of, client_serves, stream_to, silent, visit,
}

-- The header lines that net/http makes itself or changes where a request is written and read.
abbrev pub is_framing : Bytes → Bool
is_framing key = contains key (
    codes "Host"
    ∷ codes "User-Agent"
    ∷ codes "Content-Length"
    ∷ codes "Transfer-Encoding"
    ∷ codes "Trailer"
    ∷ codes "Connection"
    ∷ codes "Accept-Encoding"
    ∷ codes "Pragma"
    ∷ codes "Cache-Control"
    ∷ [])

-- A request that comes out of the stream as it was written.
pub record Carried (out : Request) (r : TunnelRequest) : Type 0 where
  pub method : r.method ≡ out.method
  pub host : r.host ≡ out.host
  pub header : (key : Bytes) → is_framing key ≡ false → lookup key r.header ≡ lookup key out.header

-- The relay's own lines, and no credentials of the tunnel.
abbrev pub Guarded : Option HttpBasicAuthConfig → Header → Type 0
Guarded none header = Unit
Guarded (some auth) header = lookup (codes "Authorization") header ≡ none

abbrev pub AsksForVisitor :
    Client → Request → Option HttpBasicAuthConfig → TunnelRequest → Effect → Type 0
AsksForVisitor c r auth carried (asks method url host header) =
    (method ≡ r.method)
    × (target_url_of c carried ≡ ok url)
    × (host ≡ r.host)
    × (lookup (codes "X-Forwarded-Host") header ≡ some (r.host ∷ []))
    × (lookup (codes "X-Forwarded-Proto") header ≡ some (forwarded_proto r.tls ∷ []))
    × ((peer port : Bytes)
        → split_host_port r.remote_addr ≡ some (peer, port)
        → lookup (codes "X-Forwarded-For") header ≡ some (peer ∷ []))
    × Guarded auth header
AsksForVisitor c r auth carried (emits e) = Unit
AsksForVisitor c r auth carried (logs e) = Unit
AsksForVisitor c r auth carried (writes_error status message) = Unit
AsksForVisitor c r auth carried (writes_response response) = Unit

-- What the relay and the client did about an admitted request.
pub record Visited (g : Registry) (name : Bytes) (r : Request) (auth : Option HttpBasicAuthConfig)
    (size duration now : ℕ) (c : Client) (carried : TunnelRequest) (reply : Reply)
    (done : Handled × List Effect) : Type 0 where
  pub answered : done.0.response ≡ relayed reply
  pub grounds : IsAnswer (exchange_of c carried) reply.status
  pub recorded :
      done.0.registry
      ≡ record_request g name
          (record {
            status = (answer_of (exchange_of c carried)).status;
            bytes_in = size;
            bytes_out = reply.copied;
            duration = duration;
          })
          now
  pub settled : Settles (succeeds (exchange_of c carried)) done.1
  pub asked : All (AsksForVisitor c r auth carried) done.1

Authorized-Guarded :
    (r out : Request) (carried : TunnelRequest) (auth : Option HttpBasicAuthConfig)
    → Carried out carried
    → Authorized r out auth
    → Guarded auth carried.header
Authorized-Guarded r out carried none kept given = tt
Authorized-Guarded r out carried (some auth) kept given =
    kept.header (codes "Authorization") refl ∙ given.1

AsksFor-visitor :
    (c : Client) (r out : Request) (auth : Option HttpBasicAuthConfig) (carried : TunnelRequest)
    (e : Effect)
    → Carried out carried
    → IsForwarded r out
    → Authorized r out auth
    → AsksFor carried (target_url_of c carried) e
    → AsksForVisitor c r auth carried e
AsksFor-visitor c r out auth carried (asks method url host header) kept sent given (m, u, h, same) =
    rw same (
      m ∙ (kept.method ∙ sent.method),
      u,
      h ∙ (kept.host ∙ sent.host),
      kept.header (codes "X-Forwarded-Host") refl ∙ sent.forwarded_host,
      kept.header (codes "X-Forwarded-Proto") refl ∙ sent.forwarded_proto,
      (λ peer port e. kept.header (codes "X-Forwarded-For") refl ∙ sent.forwarded_for peer port e),
      Authorized-Guarded r out carried auth kept given,
    )
AsksFor-visitor c r out auth carried (emits e) kept sent given a = tt
AsksFor-visitor c r out auth carried (logs e) kept sent given a = tt
AsksFor-visitor c r out auth carried (writes_error status message) kept sent given a = tt
AsksFor-visitor c r out auth carried (writes_response response) kept sent given a = tt

All-map :
    (P Q : Effect → Type 0) → ((e : Effect) → P e → Q e) → (es : List Effect) → All P es → All Q es
All-map P Q f [] a = tt
All-map P Q f (e ∷ es) a = (f e a.0, All-map P Q f es a.1)

-- The client's part, for a request that it can read.
client_serves-answer :
    (t : Transport) (c : Client) (out : Request) (carried : TunnelRequest)
    → t.read_request out ≡ some carried
    → (first_answer (client_serves t c out) ≡ some (answer_of (exchange_of c carried)))
      × Settles (succeeds (exchange_of c carried)) (client_serves t c out)
      × All (AsksFor carried (target_url_of c carried)) (client_serves t c out)
unfolding client_serves
client_serves-answer t c out carried read =
    let (first, asked) =
      handle_stream-first_answer c.parse_media_type c.utf8_valid c.settings (exchange_of c carried)
        carried refl in
    let settled =
      handle_stream-Settles c.parse_media_type c.utf8_valid c.settings (exchange_of c carried)
        carried refl in
    rw (read, client_serves) (first, settled, asked)

stream_to-reply :
    (t : Transport) (c : Client) (out : Request) (response : TargetResponse)
    → first_answer (client_serves t c out) ≡ some response
    → (stream_to t c out).reply ≡ t.read_response response
unfolding stream_to
stream_to-reply t c out response first = rw first refl

stream_to-opens :
    (t : Transport) (c : Client) (out : Request)
    → ((stream_to t c out).opens ≡ true)
      × ((stream_to t c out).write_fails ≡ false)
      × ((stream_to t c out).written ≡ t.request_size out)
unfolding stream_to
stream_to-opens t c out = (refl, refl, refl)

visit-sent :
    (t : Transport) (s : Settings) (closed : ℕ → Bool) (g : Registry) (clients : ℕ → Client)
    (r : Request) (duration now session : ℕ) (out : Request)
    → (serve_http s closed g r (λ x. silent) duration now).sent ≡ some (session, out)
    → visit t s closed g clients r duration now ≡ (
      serve_http s closed g r (λ x. stream_to t (clients x) out) duration now,
      client_serves t (clients session) out,
    )
unfolding visit serve_http client_serves
visit-sent t s closed g clients r duration now session out e = rw (e, visit) refl

-- An admitted request, whose bytes come through and whose answer does.
module _ (t : Transport) (s : Settings) (closed : ℕ → Bool) (g : Registry) (clients : ℕ → Client)
    (r : Request) (duration now : ℕ) (name : Bytes) (session : ℕ)
    (auth : Option HttpBasicAuthConfig) (carried : TunnelRequest) (reply : Reply) where
  -- A visitor whose request is for an open tunnel and has its credentials gets the answer of the client
  -- behind it, if the stream carries the request and the answer: 504 if it was held back too long, 502 if no
  -- URL or no request for the target can be made or the target does not answer, and else the status of the
  -- target's response, also where writing that fails. The request is counted once with that status; it is
  -- answered once, with one event for the outcome; and the target is asked at most once, with the visitor's method and host,
  -- with the relay's lines X-Forwarded-Host, X-Forwarded-Proto and, where the peer's address has a port,
  -- X-Forwarded-For, and without the credentials of the tunnel.
  pub visit-Visited :
      (r.path == codes "/__gatelet/control") ≡ false
      → asked_page s r ≡ none
      → name_from_host s.domain r.host ≡ some name
      → http_tunnel closed g name ≡ some (session, auth)
      → Admits r auth
      → t.read_request (add_forwarded_headers (unguarded r auth)) ≡ some carried
      → Carried (add_forwarded_headers (unguarded r auth)) carried
      → t.read_response (answer_of (exchange_of (clients session) carried)) ≡ some reply
      → reply.status ≡ (answer_of (exchange_of (clients session) carried)).status
      → Visited g name r auth
          (t.request_size (add_forwarded_headers (unguarded r auth)))
          duration
          now
          (clients session)
          carried
          reply
          (visit t s closed g clients r duration now)
  visit-Visited no_control no_page named live given read kept answer status =
      let out = add_forwarded_headers (unguarded r auth) in
      let (first, settled, asked) = client_serves-answer t (clients session) out carried read in
      let (sent, authorized) = unguarded-IsForwarded r auth given in
      let streams : ℕ → Stream = λ x. stream_to t (clients x) out in
      let probe =
        serve_http-sends s closed g r name session auth no_control no_page named live given
          (λ x. silent) duration now refl refl in
      let opens = stream_to-opens t (clients session) out in
      let relays =
        serve_http-relays s closed g r name session auth no_control no_page named live given streams
          duration now opens.0 opens.1 reply
          (stream_to-reply t (clients session) out _ first ∙ answer) in
      rw (visit-sent t s closed g clients r duration now session out probe) (record {
        answered = ap (λ (h : Handled). h.response) relays;
        grounds =
            subst (IsAnswer (exchange_of (clients session) carried)) (sym status)
              (answer_of-IsAnswer (exchange_of (clients session) carried));
        recorded =
            ap (λ (h : Handled). h.registry) relays
            ∙ ap
                (λ (p : ℕ × ℕ).
                  record_request g name
                    (record {
                      status = p.0;
                      bytes_in = p.1;
                      bytes_out = reply.copied;
                      duration = duration;
                    })
                    now)
                (λ i. (status i, opens.2 i));
        settled = settled;
        asked =
            All-map (AsksFor carried (target_url_of (clients session) carried))
              (AsksForVisitor (clients session) r auth carried)
              (λ e. AsksFor-visitor (clients session) r out auth carried e kept sent authorized)
              (client_serves t (clients session) out) asked;
      })
