-- ===== src/Server/Dispatch/Through.antt =====
-- A request that a tunnel admits, up to what the stream brings.
use gatelet.Prelude.{
  ℕ, ◌≡◌, refl, ap, ◌∙◌, Bool, true, false, Option, none, some, arith, ◌==◌, nat_eq, erase, Bytes,
  codes, bytes_eq, ==_self, lookup-erase_self,
}
use gatelet.Protocol.Hello.{HttpBasicAuthConfig}
use gatelet.Server.Names.{Settings}
use gatelet.Server.Host.{name_from_host}
use gatelet.Server.Registry.{Registry, http_tunnel, record_request}
use gatelet.Server.Dispatch.{
  Request, Reply, Stream, relayed, Handled, require_tunnel_basic_auth, add_forwarded_headers,
  forward, through_tunnel, to_tunnel, asked_page, serve_http,
}
use gatelet.Server.Dispatch.Forward.{
  IsForwarded, Authorized, add_forwarded_headers-IsForwarded, bare-IsForwarded,
  forwarded_authorization,
}

-- The credentials of the tunnel, if it has some, are in the request.
abbrev pub Admits : Request → Option HttpBasicAuthConfig → Type 0
Admits r none = Unit
Admits r (some auth) = r.basic_auth ≡ some (auth.username, auth.password)

-- The request that goes through the tunnel: without the credentials that the tunnel asked for.
abbrev pub unguarded : Request → Option HttpBasicAuthConfig → Request
unguarded r none = r
unguarded r (some auth) = record r { header = erase (codes "Authorization") r.header }

pub unguarded-IsForwarded :
    (r : Request) (auth : Option HttpBasicAuthConfig)
    → Admits r auth
    → IsForwarded r (add_forwarded_headers (unguarded r auth))
      × Authorized r (add_forwarded_headers (unguarded r auth)) auth
unguarded-IsForwarded r none given = (add_forwarded_headers-IsForwarded r, tt)
unguarded-IsForwarded r (some auth) given = (
  bare-IsForwarded r (erase (codes "Authorization") r.header),
  (
    given,
    forwarded_authorization (unguarded r (some auth))
        ∙ lookup-erase_self (codes "Authorization") r.header,
  ),
)

given-passes :
    (r : Request) (auth : HttpBasicAuthConfig)
    → r.basic_auth ≡ some (auth.username, auth.password)
    → require_tunnel_basic_auth r auth ≡ none
unfolding require_tunnel_basic_auth
given-passes r auth given = simp (given, ==_self)

module _ (s : Settings) (closed : ℕ → Bool) (g : Registry) (r : Request) (name : Bytes)
    (session : ℕ) (auth : Option HttpBasicAuthConfig)
    (no_control : (r.path == codes "/__gatelet/control") ≡ false) (no_page : asked_page s r ≡ none)
    (named : name_from_host s.domain r.host ≡ some name)
    (live : http_tunnel closed g name ≡ some (session, auth)) (given : Admits r auth)
    (streams : ℕ → Stream) (duration now : ℕ) where
  through-forward :
      (auth : Option HttpBasicAuthConfig) (stream : Stream)
      → Admits r auth
      → through_tunnel g name r session auth stream duration now
        ≡ forward g name session (unguarded r auth) stream duration now
  unfolding through_tunnel
  through-forward none stream given = refl
  through-forward (some auth) stream given = rw (given-passes r auth given, through_tunnel) refl

  serve_http-forward :
      serve_http s closed g r streams duration now
      ≡ forward g name session (unguarded r auth) (streams session) duration now
  unfolding serve_http to_tunnel through_tunnel
  serve_http-forward = served ∙ (tunnelled ∙ through-forward auth (streams session) given)
    where
      tunnelled :
          to_tunnel s closed g r streams duration now
          ≡ through_tunnel g name r session auth (streams session) duration now
      tunnelled = rw (named, live, to_tunnel) refl

      served :
          serve_http s closed g r streams duration now ≡ to_tunnel s closed g r streams duration now
      served = rw (no_control, no_page, serve_http) refl

  module _ (opened : (streams session).opens ≡ true)
      (taken : (streams session).write_fails ≡ false) where
    -- The request is written to the session.
    pub serve_http-sends :
        (serve_http s closed g r streams duration now).sent
        ≡ some (session, add_forwarded_headers (unguarded r auth))
    unfolding forward
    serve_http-sends =
        ap (λ (h : Handled). h.sent) serve_http-forward ∙ ground (arith, opened, taken)

    -- The response that is read is the visitor's, and it is counted.
    pub serve_http-relays :
        (reply : Reply)
        → (streams session).reply ≡ some reply
        → serve_http s closed g r streams duration now ≡ record {
          registry =
              record_request g name
                (record {
                  status = reply.status;
                  bytes_in = (streams session).written;
                  bytes_out = reply.copied;
                  duration = duration;
                })
                now;
          response = relayed reply;
          sent = some (session, add_forwarded_headers (unguarded r auth));
          closes = none;
        }
    unfolding forward
    serve_http-relays reply got = serve_http-forward ∙ simp (opened, taken, got)
