-- ===== src/Server/AdminTests.antt =====
-- The theorems on statistics and on the admin interface at concrete inputs, and tests.
use gatelet.Prelude.{
  ℕ, ◌≡◌, refl, Bool, none, some, [], ◌∷◌, ◌==◌, nat_eq, All, contains, lookup, Bytes, codes,
  bytes_eq, strip_suffix, pos,
}
use gatelet.Protocol.Name.{validate_name}
use gatelet.Protocol.Hello.{ClientHello}
use gatelet.Server.Names.{Settings}
use gatelet.Server.Registry.{Registry, is_open, new_tunnel, disconnect_tunnel}
use gatelet.Server.Stats.{tunnel_stats, all_tunnel_stats, stats}
use gatelet.Server.Stats.Listed.{Ascending, names_in, all_tunnel_stats_listed}
use gatelet.Server.Admin.{AdminRequest, serve_admin, valid_admin_action_token}
use gatelet.Server.Admin.Disconnect.{IsDisconnect, serve_admin-IsDisconnect}

abbrev zoe : ClientHello
zoe = record {
  name = codes "zoe";
  protocol_version = pos 3;
  client_version = codes "v";
  tunnel_type = codes "http";
  http_basic_auth = none;
}

-- The session of `bob` is closed.
abbrev three_tunnels : Registry
three_tunnels = record {
  sessions =
      (codes "zoe", new_tunnel zoe 1 (codes "p") 1)
      ∷ (codes "bob", new_tunnel zoe 2 (codes "q") 2)
      ∷ (codes "amy", record (new_tunnel zoe 3 (codes "r") 3) { requests = 4 })
      ∷ [];
  pending = [];
}

two_closed : ℕ → Bool
two_closed c = c == 2

all_tunnel_stats_listed_example :
    Ascending (names_in (all_tunnel_stats two_closed three_tunnels))
    × ((n : Bytes)
        → contains n (names_in (all_tunnel_stats two_closed three_tunnels))
          ≡ is_open two_closed (lookup n three_tunnels.sessions))
    × All
        (λ t. tunnel_stats three_tunnels t.name ≡ some t)
        (all_tunnel_stats two_closed three_tunnels)
unfolding lookup
all_tunnel_stats_listed_example =
    all_tunnel_stats_listed two_closed three_tunnels (refl, (refl, (refl, tt)))

two_listed : names_in (all_tunnel_stats two_closed three_tunnels) ≡ codes "amy" ∷ codes "zoe" ∷ []
unfolding all_tunnel_stats tunnel_stats stats lookup two_closed
two_listed = refl

abbrev action_token : Settings
action_token = record {
  domain = codes "t.io";
  tokens = [];
  reserved_names = [];
  allow_names = [];
  admin_user = [];
  admin_password = [];
  admin_action_token = codes "f00";
}

abbrev drop_zoe : AdminRequest
drop_zoe = record {
  method = codes "POST";
  path = codes "/admin/tunnels/zoe/disconnect";
  token_header = [];
  form_csrf = some (codes "f00");
}

drops_zoe :
    (serve_admin (λ s. some s) (λ s. none) action_token two_closed three_tunnels drop_zoe).1
    ≡ some 1
unfolding serve_admin valid_admin_action_token disconnect_tunnel lookup validate_name two_closed
    strip_suffix
drops_zoe = refl

serve_admin-IsDisconnect_example :
    (codes "POST" ≡ codes "POST")
    × IsDisconnect
        (λ s. some s)
        action_token
        two_closed
        three_tunnels
        drop_zoe
        1
        (serve_admin (λ s. some s) (λ s. none) action_token two_closed three_tunnels drop_zoe).0
serve_admin-IsDisconnect_example =
    serve_admin-IsDisconnect (λ s. some s) action_token two_closed three_tunnels drop_zoe 1
      (λ s. none) drops_zoe
