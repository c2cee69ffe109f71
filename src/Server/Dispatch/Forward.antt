-- ===== src/Server/Dispatch/Forward.antt =====
-- What is written to a tunnel, and what is counted.
use gatelet.Prelude.{
  ◌≢◌, ℕ, ◌≡◌, refl, sym, ap, ◌∙◌, inl, inr, Bool, false, Option, none, some, [], ◌∷◌, arith, ◌==◌,
  nat_eq, Bool-cases, Option-cases, lookup, erase, lookup-insert_self, Bytes, codes, bytes_eq,
  lookup-insert_ne, lookup-erase_self,
}
use gatelet.Protocol.Hello.{HttpBasicAuthConfig}
use gatelet.Server.Names.{Settings}
use gatelet.Server.Host.{split_host_port, name_from_host}
use gatelet.Server.Admin.{whole_page, dashboard, asset, forbidden, no_page}
use gatelet.Server.Registry.{Registry, Served, http_tunnel, record_request}
use gatelet.Server.Dispatch.{
  Header, Request, Stream, Response, control, not_found, Page, status_page, metrics_page,
  admin_page, status_shown, metrics_shown, admin_shown, serve_page, unauthorized, bad_gateway,
  relayed, forwarded_proto, forwarded_for, require_tunnel_basic_auth, add_forwarded_headers,
  Handled, forward, through_tunnel, to_tunnel, serve_http,
}
use gatelet.Server.Dispatch.Guards.{credentials_match_sound, serve_http_cases}

abbrev pub status_of : Response → ℕ
status_of (unauthorized realm) = 401
status_of (bad_gateway message) = 502
status_of (relayed reply) = reply.status
status_of control = 101
status_of not_found = 404
status_of status_shown = 200
status_of metrics_shown = 200
status_of (admin_shown forbidden) = 403
status_of (admin_shown no_page) = 404
status_of (admin_shown whole_page) = 200
status_of (admin_shown (dashboard notice)) = 200
status_of (admin_shown (asset body is_script)) = 200

-- The request as it is written, against the one that came in.
pub record IsForwarded (r out : Request) : Type 0 where
  pub method : out.method ≡ r.method
  pub path : out.path ≡ r.path
  pub host : out.host ≡ r.host
  pub forwarded_host : lookup (codes "X-Forwarded-Host") out.header ≡ some (r.host ∷ [])
  pub forwarded_proto :
      lookup (codes "X-Forwarded-Proto") out.header ≡ some (forwarded_proto r.tls ∷ [])
  -- The peer's address replaces whatever the visitor wrote there.
  pub forwarded_for :
      (host port : Bytes)
      → split_host_port r.remote_addr ≡ some (host, port)
      → lookup (codes "X-Forwarded-For") out.header ≡ some (host ∷ [])

-- A tunnel with credentials passes only those, and never hands them on.
abbrev pub Authorized : Request → Request → Option HttpBasicAuthConfig → Type 0
Authorized r out none = Unit
Authorized r out (some a) =
    (r.basic_auth ≡ some (a.username, a.password))
    × (lookup (codes "Authorization") out.header ≡ none)

pub record IsSent (s : Settings) (closed : ℕ → Bool) (g : Registry) (r : Request) (now : ℕ)
    (h : Handled) (session : ℕ) (out : Request) : Type 0 where
  pub name : Bytes
  pub auth : Option HttpBasicAuthConfig
  pub served : Served
  pub named : name_from_host s.domain r.host ≡ some name
  pub live : http_tunnel closed g name ≡ some (session, auth)
  pub authorized : Authorized r out auth
  pub forwarded : IsForwarded r out
  pub recorded : h.registry ≡ record_request g name served now
  pub outcome : served.status ≡ status_of h.response

abbrev proto_key : Bytes
proto_key = codes "X-Forwarded-Proto"

abbrev host_key : Bytes
host_key = codes "X-Forwarded-Host"

abbrev for_key : Bytes
for_key = codes "X-Forwarded-For"

abbrev authorization_key : Bytes
authorization_key = codes "Authorization"

-- Under any other key the two outer writes are not seen.
past_writes :
    (r : Request) (key : Bytes)
    → (proto_key == key) ≡ false
    → (host_key == key) ≡ false
    → lookup key (add_forwarded_headers r).header
      ≡ lookup key (forwarded_for (split_host_port r.remote_addr) r.header)
unfolding add_forwarded_headers
past_writes r key p h =
    lookup-insert_ne proto_key key (forwarded_proto r.tls ∷ []) _ p
    ∙ lookup-insert_ne host_key key (r.host ∷ []) _ h

pub add_forwarded_headers-IsForwarded : (r : Request) → IsForwarded r (add_forwarded_headers r)
unfolding add_forwarded_headers
add_forwarded_headers-IsForwarded r = record {
  method = refl;
  path = refl;
  host = refl;
  forwarded_host =
      lookup-insert_ne proto_key host_key (forwarded_proto r.tls ∷ []) _ refl
      ∙ lookup-insert_self host_key (r.host ∷ []) _;
  forwarded_proto = lookup-insert_self proto_key (forwarded_proto r.tls ∷ []) _;
  forwarded_for = λ host port e.
      past_writes r for_key refl refl
      ∙ ap (λ (o : Option (Bytes × Bytes)). lookup for_key (forwarded_for o r.header)) e
      ∙ lookup-insert_self for_key (host ∷ []) r.header;
}

forwarded_for-authorization :
    (o : Option (Bytes × Bytes)) (h : Header)
    → lookup authorization_key (forwarded_for o h) ≡ lookup authorization_key h
forwarded_for-authorization none h = refl
forwarded_for-authorization (some (host, port)) h =
    lookup-insert_ne for_key authorization_key (host ∷ []) h refl

pub forwarded_authorization :
    (r : Request)
    → lookup authorization_key (add_forwarded_headers r).header ≡ lookup authorization_key r.header
forwarded_authorization r =
    past_writes r authorization_key refl refl
    ∙ forwarded_for-authorization (split_host_port r.remote_addr) r.header

-- What `forward` did if it wrote a request.
abbrev Wrote : Registry → Bytes → ℕ → Request → ℕ → Handled → ℕ → Request → Type 0
Wrote g name session r now h x out =
    (q : Served) × (x ≡ session)
    × (out ≡ add_forwarded_headers r)
    × (h.registry ≡ record_request g name q now)
    × (q.status ≡ status_of h.response)

forward_sent :
    (g : Registry) (name : Bytes) (session : ℕ) (r : Request) (stream : Stream) (duration now x : ℕ)
    (out : Request)
    → (forward g name session r stream duration now).sent ≡ some (x, out)
    → Wrote g name session r now (forward g name session r stream duration now) x out
unfolding forward
forward_sent g name session r stream duration now x out e = elim (Bool-cases stream.opens) [
  | inr shut ↦ absurd (ground (arith, shut))
  | inl opened ↦ elim (Bool-cases stream.write_fails) [
    | inl lost ↦ rw (opened, lost) (_, ground arith, ground arith, refl, refl)
    | inr wrote ↦ elim (Option-cases stream.reply) [
      | inl none_read ↦ rw (opened, wrote, none_read) (_, ground arith, ground arith, refl, refl)
      | inr (reply, got) ↦ rw (opened, wrote, got) (_, ground arith, ground arith, refl, refl)
    ]
  ]
]

-- The same through the tunnel's guard.
abbrev Passed :
    Registry → Bytes → ℕ → Option HttpBasicAuthConfig → Request → ℕ → Handled → ℕ → Request → Type 0
Passed g name session auth r now h x out =
    (q : Served) × (x ≡ session)
    × Authorized r out auth
    × IsForwarded r out
    × (h.registry ≡ record_request g name q now)
    × (q.status ≡ status_of h.response)

basic_auth_passed :
    (r : Request) (a : HttpBasicAuthConfig)
    → require_tunnel_basic_auth r a ≡ none
    → r.basic_auth ≡ some (a.username, a.password)
unfolding require_tunnel_basic_auth
basic_auth_passed r a e = ground (arith, credentials_match_sound r.basic_auth a.username a.password)

pub bare-IsForwarded :
    (r : Request) (h : Header) → IsForwarded r (add_forwarded_headers (record r { header = h }))
unfolding add_forwarded_headers
bare-IsForwarded r h =
    let f = add_forwarded_headers-IsForwarded (record r { header = h }) in
    record {
      method = f.method;
      path = f.path;
      host = f.host;
      forwarded_host = f.forwarded_host;
      forwarded_proto = f.forwarded_proto;
      forwarded_for = f.forwarded_for;
    }

through_tunnel_sent :
    (g : Registry) (name : Bytes) (r : Request) (session : ℕ) (auth : Option HttpBasicAuthConfig)
    (stream : Stream) (duration now x : ℕ) (out : Request)
    → (through_tunnel g name r session auth stream duration now).sent ≡ some (x, out)
    → Passed g name session auth r now
        (through_tunnel g name r session auth stream duration now)
        x
        out
unfolding through_tunnel
through_tunnel_sent g name r session none stream duration now x out e =
    let (q, same, o, reg, st) = forward_sent g name session r stream duration now x out e in
    (q, same, tt, rw o (add_forwarded_headers-IsForwarded r), reg, st)
through_tunnel_sent g name r session (some a) stream duration now x out e =
    elim (Option-cases (require_tunnel_basic_auth r a)) [
      | inr (denied, f) ↦ absurd (ground (arith, f))
      | inl f ↦
          let bare : Request = record r { header = erase authorization_key r.header } in
          let (q, same, o, reg, st) =
            forward_sent g name session bare stream duration now x out
              (rw (f, through_tunnel) at e) in
          rw (f, through_tunnel)
            (
              q,
              same,
              (
                basic_auth_passed r a f,
                rw o (forwarded_authorization bare ∙ lookup-erase_self authorization_key r.header),
              ),
              rw o (bare-IsForwarded r (erase authorization_key r.header)),
              reg,
              st,
            )
    ]

to_tunnel_sent :
    (s : Settings) (closed : ℕ → Bool) (g : Registry) (r : Request) (streams : ℕ → Stream)
    (duration now x : ℕ) (out : Request)
    → (to_tunnel s closed g r streams duration now).sent ≡ some (x, out)
    → IsSent s closed g r now (to_tunnel s closed g r streams duration now) x out
unfolding to_tunnel
to_tunnel_sent s closed g r streams duration now x out e =
    elim (Option-cases (name_from_host s.domain r.host)) [
      | inl f ↦ absurd (ground (arith, f))
      | inr (name, f) ↦ elim (Option-cases (http_tunnel closed g name)) [
        | inl h ↦ absurd (ground (arith, f, h))
        | inr ((session, auth), h) ↦
            let (q, same, a, i, reg, st) =
              through_tunnel_sent g name r session auth (streams session) duration now x out
                (rw (f, h, to_tunnel) at e) in
            rw (f, h, to_tunnel)
              (record {
                name = name;
                auth = auth;
                served = q;
                named = f;
                live = h ∙ ap (λ (y : ℕ). some (y, auth)) (sym same);
                authorized = a;
                forwarded = i;
                recorded = reg;
                outcome = st;
              })
      ]
    ]

page_sends_nothing :
    (s : Settings) (closed : ℕ → Bool) (g : Registry) (r : Request) (q : Page) (x : ℕ)
    (out : Request)
    → (serve_page s closed g r q).sent ≢ some (x, out)
unfolding serve_page
page_sends_nothing s closed g r status_page x out e = cc
page_sends_nothing s closed g r metrics_page x out e = cc
page_sends_nothing s closed g r admin_page x out e = cc

-- A request is written only to the open session of the name in its host; if that tunnel has
-- credentials the request carries them and they are not handed on; the forwarding headers are the
-- relay's own; and it is counted once under the name, with the status that the visitor gets.
pub serve_http_sent :
    (s : Settings) (closed : ℕ → Bool) (g : Registry) (r : Request) (streams : ℕ → Stream)
    (duration now x : ℕ) (out : Request)
    → (serve_http s closed g r streams duration now).sent ≡ some (x, out)
    → IsSent s closed g r now (serve_http s closed g r streams duration now) x out
serve_http_sent s closed g r streams duration now x out =
    serve_http_cases (λ h. h.sent ≡ some (x, out) → IsSent s closed g r now h x out) s closed g r
      streams duration now (λ e. absurd (cc)) (λ q denied f h e. absurd (cc))
      (λ q f h e. absurd (page_sends_nothing s closed g r q x out e))
      (λ f e. to_tunnel_sent s closed g r streams duration now x out e)
