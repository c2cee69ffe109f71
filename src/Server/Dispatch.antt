-- ===== src/Server/Dispatch.antt =====
-- `ServeHTTP`: which handler a request reaches, the two kinds of Basic Auth, and the way of a request
-- through a tunnel. The WebSocket upgrade is left as a response. Header keys are in canonical form, and a header map is a Go map of value lists.
pub mod Guards
pub mod Forward
pub mod Through
use gatelet.Prelude.{
  ℕ, Bool, false, not, ◌&&◌, ◌||◌, Option, none, some, List, [], ◌∷◌, if◌then◌else◌, ◌==◌, nat_eq,
  GoMap, insert, erase, lookup, Bytes, codes, bytes_eq, is_empty, starts_with,
}
use gatelet.Protocol.Hello.{HttpBasicAuthConfig}
use gatelet.Server.Names.{Settings}
use gatelet.Server.Host.{split_host_port, name_from_host, is_admin_host}
use gatelet.Server.Admin.{AdminRequest, AdminResponse, serve_admin}
use gatelet.Server.Registry.{Registry, http_tunnel, record_request}

abbrev pub Header : Type 0
Header = GoMap Bytes (List Bytes)

pub record Request : Type 0 where
  pub method : Bytes
  pub path : Bytes
  pub host : Bytes
  pub remote_addr : Bytes
  pub tls : Bool
  -- What `r.BasicAuth()` reads from the Authorization header.
  pub basic_auth : Option (Bytes × Bytes)
  pub header : Header
  -- `csrf` of the form, `none` where `ParseForm` fails.
  pub form_csrf : Option Bytes
  -- What the admin handlers get from `url.PathUnescape` and from the embedded files.
  pub unescape : Bytes → Option Bytes
  pub read_file : Bytes → Option Bytes

-- What `http.ReadResponse` returns, with the bytes of its body that `io.Copy` writes.
pub record Reply : Type 0 where
  pub status : ℕ
  pub header : Header
  pub copied : ℕ

-- The stream of a session: whether it opens, how many bytes of the request it takes and whether it
-- takes them all, and the response that is read from it.
pub record Stream : Type 0 where
  pub opens : Bool
  pub written : ℕ
  pub write_fails : Bool
  pub reply : Option Reply

pub data Page : Type 0 where
  status_page metrics_page admin_page : Page

pub data Response : Type 0 where
  control not_found : Response
  status_shown metrics_shown : Response
  admin_shown : AdminResponse → Response
  -- 401 with this realm.
  unauthorized : Bytes → Response
  -- 502 with this message.
  bad_gateway : Bytes → Response
  relayed : Reply → Response

unfoldable pub admin_enabled : Settings → Bool
admin_enabled s = not (is_empty s.admin_user) && not (is_empty s.admin_password)

-- The comparison of credentials, in constant time in the source.
abbrev pub credentials_match : Option (Bytes × Bytes) → Bytes → Bytes → Bool
credentials_match none user password = false
credentials_match (some (u, p)) user password = u == user && p == password

-- `requireAdmin`: the response that it writes, or `none` where it returns true.
unfoldable pub require_admin : Settings → Request → Option Response
unfolding admin_enabled
require_admin s r =
    if not (admin_enabled s)
    then some not_found
    else if credentials_match r.basic_auth s.admin_user s.admin_password
    then none
    else some (unauthorized (codes "Gatelet Admin"))

unfoldable pub require_tunnel_basic_auth : Request → HttpBasicAuthConfig → Option Response
require_tunnel_basic_auth r auth =
    if credentials_match r.basic_auth auth.username auth.password
    then none
    else some (unauthorized (codes "Gatelet Tunnel"))

-- The page that a path names on the admin host.
unfoldable pub page_of_path : Bytes → Option Page
page_of_path path =
    if path == codes "/__gatelet/status"
    then some status_page
    else if path == codes "/metrics"
    then some metrics_page
    else if path == codes "/admin" || starts_with (codes "/admin/") path
    then some admin_page
    else none

abbrev pub forwarded_proto : Bool → Bytes
forwarded_proto tls = if tls then codes "https" else codes "http"

abbrev pub forwarded_for : Option (Bytes × Bytes) → Header → Header
forwarded_for none h = h
forwarded_for (some (host, port)) h = insert (codes "X-Forwarded-For") (host ∷ []) h

unfoldable pub add_forwarded_headers : Request → Request
add_forwarded_headers r = record r {
  header = insert (codes "X-Forwarded-Proto") (forwarded_proto r.tls ∷ []) (
      insert (codes "X-Forwarded-Host") (r.host ∷ [])
        (forwarded_for (split_host_port r.remote_addr) r.header));
}

-- The server's state behind a request, its response, the request written to a session, if any, and the
-- session that was closed, if any.
pub record Handled : Type 0 where
  pub registry : Registry
  pub response : Response
  pub sent : Option (ℕ × Request)
  pub closes : Option ℕ

abbrev pub answer : Registry → Response → Handled
answer g r = record { registry = g; response = r; sent = none; closes = none }

abbrev counted : Registry → Bytes → Stream → ℕ → ℕ → ℕ → ℕ → Registry
counted g name stream duration now status copied =
    record_request g name
      (record {
        status = status;
        bytes_in = stream.written;
        bytes_out = copied;
        duration = duration;
      })
      now

-- From `OpenStream` to the end. The duration is what `time.Since(started)` gives when it is recorded.
forward : Registry → Bytes → ℕ → Request → Stream → ℕ → ℕ → Handled
forward g name session r stream duration now =
    let out = add_forwarded_headers r in
    if not stream.opens
    then answer g (bad_gateway (codes "tunnel unavailable"))
    else if stream.write_fails
    then record {
      registry = counted g name stream duration now 502 0;
      response = bad_gateway (codes "tunnel write failed");
      sent = some (session, out);
      closes = none;
    }
    else elim stream.reply [
      | none ↦ record {
        registry = counted g name stream duration now 502 0;
        response = bad_gateway (codes "tunnel read failed");
        sent = some (session, out);
        closes = none;
      }
      | some reply ↦ record {
        registry = counted g name stream duration now reply.status reply.copied;
        response = relayed reply;
        sent = some (session, out);
        closes = none;
      }
    ]

-- The credentials of the tunnel, if it has some, and then the forwarding.
through_tunnel :
    Registry → Bytes → Request → ℕ → Option HttpBasicAuthConfig → Stream → ℕ → ℕ → Handled
through_tunnel g name r session none stream duration now =
    forward g name session r stream duration now
through_tunnel g name r session (some auth) stream duration now =
    elim (require_tunnel_basic_auth r auth) [
      | some denied ↦ record {
        registry =
            record_request g name
              (record { status = 401; bytes_in = 0; bytes_out = 0; duration = duration }) now;
        response = denied;
        sent = none;
        closes = none;
      }
      | none ↦
          forward g name session (record r { header = erase (codes "Authorization") r.header })
            stream duration now
    ]

pub to_tunnel : Settings → (ℕ → Bool) → Registry → Request → (ℕ → Stream) → ℕ → ℕ → Handled
to_tunnel s closed g r streams duration now = elim (name_from_host s.domain r.host) [
  | none ↦ answer g not_found
  | some name ↦ elim (http_tunnel closed g name) [
    | none ↦ answer g not_found
    | some (session, auth) ↦ through_tunnel g name r session auth (streams session) duration now
  ]
]

-- The page that the host and the path ask for, if they ask for one.
unfoldable pub asked_page : Settings → Request → Option Page
asked_page s r = if is_admin_host s.domain r.host then page_of_path r.path else none

-- `r.Header.Get`.
abbrev header_value : Option (List Bytes) → Bytes
header_value (some (v ∷ vs)) = v
header_value (some []) = []
header_value none = []

unfoldable pub admin_request : Request → AdminRequest
unfolding lookup
admin_request r = record {
  method = r.method;
  path = r.path;
  token_header = header_value (lookup (codes "X-Gatelet-Admin-Token") r.header);
  form_csrf = r.form_csrf;
}

-- The handler of a page, behind its guard.
unfoldable pub serve_page : Settings → (ℕ → Bool) → Registry → Request → Page → Handled
unfolding serve_admin admin_request
serve_page s closed g r status_page = answer g status_shown
serve_page s closed g r metrics_page = answer g metrics_shown
serve_page s closed g r admin_page =
    let (response, session) = serve_admin r.unescape r.read_file s closed g (admin_request r) in
    record { registry = g; response = admin_shown response; sent = none; closes = session }

unfoldable pub serve_http :
    Settings → (ℕ → Bool) → Registry → Request → (ℕ → Stream) → ℕ → ℕ → Handled
unfolding asked_page to_tunnel through_tunnel forward serve_page
serve_http s closed g r streams duration now =
    if r.path == codes "/__gatelet/control" then answer g control else elim (asked_page s r) [
      | some p ↦ elim (require_admin s r) [
        | some denied ↦ answer g denied
        | none ↦ serve_page s closed g r p
      ]
      | none ↦ to_tunnel s closed g r streams duration now
    ]
