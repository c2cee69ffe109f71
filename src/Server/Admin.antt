-- ===== src/Server/Admin.antt =====
-- internal/server/admin.go and `validAdminActionToken` of server.go: what the admin interface answers
-- behind its credentials. What the pages show is in Dashboard.
pub mod Disconnect
pub mod Dashboard
pub mod Ordered
use gatelet.Prelude.{
  ℕ, Bool, true, false, not, ◌&&◌, ◌||◌, Option, none, some, [], ◌++◌, if◌then◌else◌, ◌==◌, nat_eq,
  ok, err, Bytes, codes, bytes_eq, is_empty, starts_with, strip_suffix, trim_prefix, trim_suffix,
  has_byte,
}
use gatelet.Protocol.Name.{validate_name}
use gatelet.Server.Names.{Settings}
use gatelet.Server.Registry.{Registry, disconnect_tunnel}

-- What the handlers read of a request; `form_csrf` is `none` where `ParseForm` fails.
pub record AdminRequest : Type 0 where
  pub method : Bytes
  pub path : Bytes
  pub token_header : Bytes
  pub form_csrf : Option Bytes

pub data AdminResponse : Type 0 where
  whole_page : AdminResponse
  -- The dashboard with this notice.
  dashboard : Bytes → AdminResponse
  -- The bytes of an asset, and whether they are JavaScript.
  asset : Bytes → Bool → AdminResponse
  forbidden no_page : AdminResponse

unfoldable pub valid_admin_action_token : Settings → AdminRequest → Bool
valid_admin_action_token s r =
    if is_empty r.token_header
    then elim r.form_csrf [
      | none ↦ false
      | some token ↦ not (is_empty token) && token == s.admin_action_token
    ]
    else r.token_header == s.admin_action_token

abbrev tunnels_prefix : Bytes
tunnels_prefix = codes "/admin/tunnels/"

abbrev disconnect_suffix : Bytes
disconnect_suffix = codes "/disconnect"

abbrev has_tail : Bytes → Bytes → Bool
has_tail suffix s = elim (strip_suffix suffix s) [ none ↦ false | some r ↦ true ]

abbrev pub tunnel_segment : Bytes → Bytes
tunnel_segment path = trim_suffix disconnect_suffix (trim_prefix tunnels_prefix path)

abbrev is_valid_name : Bytes → Bool
is_valid_name name = elim (validate_name name) [ ok done ↦ true | err e ↦ false ]

-- The response, and the session that is closed, if any; `unescape` is `url.PathUnescape`.
handle_admin_disconnect :
    (Bytes → Option Bytes)
    → Settings
    → (ℕ → Bool)
    → Registry
    → AdminRequest
    → AdminResponse × Option ℕ
handle_admin_disconnect unescape s closed g r =
    if not (valid_admin_action_token s r)
    then (forbidden, none)
    else elim (unescape (tunnel_segment r.path)) [
      | none ↦ (no_page, none)
      | some name ↦
          if not (is_valid_name name)
          then (no_page, none)
          else elim (disconnect_tunnel closed g name) [
            | none ↦ (dashboard (codes "Tunnel " ++ (name ++ codes " was not active")), none)
            | some session ↦ (dashboard (codes "Disconnected tunnel " ++ name), some session)
          ]
    ]

abbrev assets_prefix : Bytes
assets_prefix = codes "/admin/assets/"

-- `read_file` reads the embedded file of a name.
serve_admin_asset : (Bytes → Option Bytes) → AdminRequest → AdminResponse
serve_admin_asset read_file r =
    let name = trim_prefix assets_prefix r.path in
    if has_byte b'/' name || is_empty name then no_page else elim (read_file name) [
      | none ↦ no_page
      | some body ↦ asset body (has_tail (codes ".js") name)
    ]

unfoldable pub serve_admin :
    (Bytes → Option Bytes)
    → (Bytes → Option Bytes)
    → Settings
    → (ℕ → Bool)
    → Registry
    → AdminRequest
    → AdminResponse × Option ℕ
unfolding handle_admin_disconnect serve_admin_asset
serve_admin unescape read_file s closed g r =
    if r.method == codes "GET" && (r.path == codes "/admin" || r.path == codes "/admin/")
    then (whole_page, none)
    else if r.method == codes "GET" && r.path == codes "/admin/partials/dashboard"
    then (dashboard [], none)
    else if r.method == codes "POST"
        && (starts_with tunnels_prefix r.path && has_tail disconnect_suffix r.path)
    then handle_admin_disconnect unescape s closed g r
    else if r.method == codes "GET" && starts_with assets_prefix r.path
    then (serve_admin_asset read_file r, none)
    else (no_page, none)
