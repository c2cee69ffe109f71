-- ===== src/Server/Dispatch/Guards.antt =====
-- Who reaches the admin pages and the tunnels.
use gatelet.Prelude.{
  refl, ◌⊎◌, false, ℕ, ◌≡◌, ◌≢◌, inl, inr, Bool, true, Option, none, some, [], arith, ◌==◌, nat_eq,
  Bool-cases, Option-cases, Bytes, codes, bytes_beq_iff, bytes_eq,
}
use gatelet.Server.Names.{Settings}
use gatelet.Server.Host.{is_admin_host}
use gatelet.Server.Admin.{AdminResponse}
use gatelet.Server.Admin.Disconnect.{IsDisconnect, serve_admin-IsDisconnect}
use gatelet.Server.Registry.{Registry}
use gatelet.Server.Dispatch.{
  Request, Stream, Page, status_page, metrics_page, admin_page, Response, control, not_found,
  status_shown, metrics_shown, admin_shown, unauthorized, bad_gateway, relayed, admin_request,
  serve_page, credentials_match, require_admin, require_tunnel_basic_auth, Handled, answer, forward,
  through_tunnel, to_tunnel, asked_page, serve_http,
}

pub credentials_match_sound :
    (a : Option (Bytes × Bytes)) (user password : Bytes)
    → credentials_match a user password ≡ true
    → a ≡ some (user, password)
credentials_match_sound none user password e = cc
credentials_match_sound (some (u, p)) user password e =
    ground (arith, bytes_beq_iff u user, bytes_beq_iff p password)

require_admin_sound :
    (s : Settings) (r : Request)
    → require_admin s r ≡ none
    → (s.admin_user ≢ [])
      × (s.admin_password ≢ [])
      × (r.basic_auth ≡ some (s.admin_user, s.admin_password))
unfolding require_admin
require_admin_sound s r e =
    ground (arith, credentials_match_sound r.basic_auth s.admin_user s.admin_password)

-- A page of the relay itself.
abbrev pub is_page : Response → Bool
is_page control = false
is_page not_found = false
is_page status_shown = true
is_page metrics_shown = true
is_page (admin_shown response) = true
is_page (unauthorized realm) = false
is_page (bad_gateway message) = false
is_page (relayed reply) = false

-- A request that was answered with a page of the relay, or closed a session.
abbrev pub IsAdminAct : Handled → Type 0
IsAdminAct h = (is_page h.response ≡ true) ⊎ ((session : ℕ) × (h.closes ≡ some session))

no_act : (h : Handled) → is_page h.response ≡ false → h.closes ≡ none → IsAdminAct h → ⊥
no_act h p c (inl e) = cc
no_act h p c (inr (session, e)) = cc

require_admin_page :
    (s : Settings) (r : Request) (denied : Response)
    → require_admin s r ≡ some denied
    → is_page denied ≡ false
unfolding require_admin
require_admin_page s r denied e = ground arith

tunnel_no_page :
    (s : Settings) (closed : ℕ → Bool) (g : Registry) (r : Request) (streams : ℕ → Stream)
    (duration now : ℕ)
    → (is_page (to_tunnel s closed g r streams duration now).response ≡ false)
      × ((to_tunnel s closed g r streams duration now).closes ≡ none)
unfolding to_tunnel through_tunnel forward require_tunnel_basic_auth
tunnel_no_page s closed g r streams duration now = ground arith

asked_page_host :
    (s : Settings) (r : Request) (q : Page)
    → asked_page s r ≡ some q
    → is_admin_host s.domain r.host ≡ true
unfolding asked_page
asked_page_host s r q e = ground arith

-- The ways of `serve_http`.
pub serve_http_cases {ℓ} :
    (P : Handled → Type ℓ) (s : Settings) (closed : ℕ → Bool) (g : Registry) (r : Request)
    (streams : ℕ → Stream) (duration now : ℕ)
    → P (answer g control)
    → ((q : Page) (denied : Response)
        → asked_page s r ≡ some q
        → require_admin s r ≡ some denied
        → P (answer g denied))
    → ((q : Page)
        → asked_page s r ≡ some q
        → require_admin s r ≡ none
        → P (serve_page s closed g r q))
    → (asked_page s r ≡ none → P (to_tunnel s closed g r streams duration now))
    → P (serve_http s closed g r streams duration now)
unfolding serve_http
serve_http_cases P s closed g r streams duration now upgrade refuse show relay =
    elim (Bool-cases (r.path == codes "/__gatelet/control")) [
      | inl e ↦ rw e upgrade
      | inr e ↦ elim (Option-cases (asked_page s r)) [
        | inl f ↦ rw (e, f) (relay f)
        | inr (q, f) ↦ elim (Option-cases (require_admin s r)) [
          | inl h ↦ rw (e, f, h) (show q f h)
          | inr (denied, h) ↦ rw (e, f, h) (refuse q denied f h)
        ]
      ]
    ]

-- What holds of a page, or of a session that was closed.
pub record IsGuarded (s : Settings) (closed : ℕ → Bool) (g : Registry) (r : Request) (h : Handled)
    : Type 0 where
  pub host : is_admin_host s.domain r.host ≡ true
  pub user : s.admin_user ≢ []
  pub password : s.admin_password ≢ []
  pub given : r.basic_auth ≡ some (s.admin_user, s.admin_password)
  pub same_registry : h.registry ≡ g
  pub not_sent : h.sent ≡ none
  pub disconnects :
      (session : ℕ)
      → h.closes ≡ some session
      → (response : AdminResponse) × (h.response ≡ admin_shown response)
        × (r.method ≡ codes "POST")
        × IsDisconnect r.unescape s closed g (admin_request r) session response

serve_page-effects :
    (s : Settings) (closed : ℕ → Bool) (g : Registry) (r : Request) (p : Page)
    → ((serve_page s closed g r p).registry ≡ g)
      × ((serve_page s closed g r p).sent ≡ none)
      × ((session : ℕ)
          → (serve_page s closed g r p).closes ≡ some session
          → (response : AdminResponse) × ((serve_page s closed g r p).response
              ≡ admin_shown response)
            × (r.method ≡ codes "POST")
            × IsDisconnect r.unescape s closed g (admin_request r) session response)
unfolding serve_page admin_request
serve_page-effects s closed g r status_page = (refl, refl, λ session e. absurd (cc))
serve_page-effects s closed g r metrics_page = (refl, refl, λ session e. absurd (cc))
serve_page-effects s closed g r admin_page = (
  refl,
  refl,
  λ session e.
      let (posted, grounds) =
        serve_admin-IsDisconnect r.unescape s closed g (admin_request r) session r.read_file e in
      (_, refl, posted, grounds),
)

-- A page of the relay is shown, and a session is closed, only on the admin host, with admin credentials
-- configured, to a request that carries them. Nothing is written to a tunnel and no reservation, tunnel or
-- count changes. A session is closed only by the admin interface, for a POST that gives the relay's action
-- token and names, in its path, a valid name whose open session it is, and the answer says so.
pub serve_http-IsGuarded :
    (s : Settings) (closed : ℕ → Bool) (g : Registry) (r : Request) (streams : ℕ → Stream)
    (duration now : ℕ)
    → IsAdminAct (serve_http s closed g r streams duration now)
    → IsGuarded s closed g r (serve_http s closed g r streams duration now)
serve_http-IsGuarded s closed g r streams duration now =
    serve_http_cases (λ h. IsAdminAct h → IsGuarded s closed g r h) s closed g r streams duration
      now (λ act. absurd (no_act (answer g control) refl refl act))
      (λ q denied f h act.
        absurd (no_act (answer g denied) (require_admin_page s r denied h) refl act))
      (λ q f h act.
        let (user, password, given) = require_admin_sound s r h in
        let (same, quiet, disconnects) = serve_page-effects s closed g r q in
        record {
          host = asked_page_host s r q f;
          user = user;
          password = password;
          given = given;
          same_registry = same;
          not_sent = quiet;
          disconnects = disconnects;
        })
      (λ f act.
        let (no_page, no_close) = tunnel_no_page s closed g r streams duration now in
        absurd (no_act (to_tunnel s closed g r streams duration now) no_page no_close act))
