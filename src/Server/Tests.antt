-- ===== src/Server/Tests.antt =====
-- The theorems on the server at concrete inputs, and tests.
use gatelet.Prelude.{
  ℕ, ◌≡◌, refl, ◌↔◌, inr, true, false, Option, none, some, List, [], ◌∷◌, nat_eq, lookup, insert,
  erase, Bytes, codes, bytes_eq, strip_suffix, trim_space, cut, cut_last, pos,
}
use gatelet.Protocol.Name.{validate_name}
use gatelet.Protocol.Hello.{HttpBasicAuthConfig, ClientHello}
use gatelet.Server.Names.{
  Config, default_token, new_settings, only_active, token, name_allowed, normalize_dns_name,
}
use gatelet.Server.Names.Laws.{last_usable, token-new_settings}
use gatelet.Server.Host.{canonical_host, name_from_host, split_host_port}
use gatelet.Server.Host.Named.{Names, name_from_host-Names}
use gatelet.Server.Registry.{
  TunnelSession, no_tunnels, new_tunnel, reserve_name, register, http_tunnel,
}
use gatelet.Server.Registry.Counts.{
  CountsOf, Recorded, record_all, history_onto, register-record_all-CountsOf,
}
use gatelet.Server.System.{
  holding, serving, System, update, start, reserves, promotes, Reach, here, next,
}
use gatelet.Server.System.Safety.{Has, name_exclusive, http_tunnel_routed, reserve_name_refused_iff}

abbrev rotated : Config
rotated = record {
  domain = codes "Tun.Example.";
  token = codes "old";
  tokens =
      record { id = codes "ci"; value = codes "a"; active = true }
      ∷ record { id = codes "ci"; value = codes "b"; active = false }
      ∷ [];
  admin_user = codes "root";
  admin_password = codes "pw";
  reserved_names = codes "status" ∷ [];
  allow_names = codes " Alex " ∷ codes "status" ∷ [];
}

token-new_settings_example :
    token (new_settings rotated []) (codes "ci")
    ≡ only_active (last_usable (codes "ci") (default_token (codes "old") ∷ rotated.tokens))
token-new_settings_example = token-new_settings rotated [] (codes "ci")

token_rotated : token (new_settings rotated []) (codes "ci") ≡ none
unfolding token new_settings lookup insert
token_rotated = refl

alex_allowed : name_allowed (new_settings rotated []) (codes "alex") ≡ true
unfolding name_allowed new_settings lookup insert trim_space
alex_allowed = refl

abbrev domain : Bytes
domain = codes "tun.example"

name_from_host-Names_example :
    (name_from_host domain (codes ".Alex.tun.example.:443") ≡ some (codes "alex"))
    ↔ Names domain (codes ".Alex.tun.example.:443") (codes "alex")
name_from_host-Names_example =
    name_from_host-Names domain (codes ".Alex.tun.example.:443") (codes "alex") (λ e. cc) refl

dotted_host : name_from_host domain (codes ".Alex.tun.example.:443") ≡ some (codes "alex")
unfolding name_from_host canonical_host split_host_port normalize_dns_name validate_name
    strip_suffix cut_last
dotted_host = refl

alex_host : name_from_host domain (codes "Alex.tun.example:443") ≡ some (codes "alex")
unfolding name_from_host canonical_host split_host_port normalize_dns_name validate_name
    strip_suffix cut_last
alex_host = refl

no_nested_host : name_from_host domain (codes "a.b.tun.example") ≡ none
unfolding name_from_host canonical_host split_host_port normalize_dns_name validate_name
    strip_suffix cut_last
no_nested_host = refl

ipv6_host : split_host_port (codes "[::1]:80") ≡ some (codes "::1", codes "80")
unfolding split_host_port cut
ipv6_host = refl

abbrev alex : ClientHello
alex = record {
  name = codes "alex";
  protocol_version = pos 3;
  client_version = codes "dev";
  tunnel_type = codes "http";
  http_basic_auth = none;
}

abbrev requests : List Recorded
requests =
    (codes "alex", record { status = 200; bytes_in = 10; bytes_out = 90; duration = 5000000 }, 4)
    ∷ (codes "bob", record { status = 200; bytes_in = 1; bytes_out = 1; duration = 1 }, 5)
    ∷ (codes "alex", record { status = 502; bytes_in = 7; bytes_out = 0; duration = 70000000 }, 6)
    ∷ []

register-record_all-CountsOf_example :
    (u : TunnelSession) × (lookup
        (codes "alex")
        (record_all (register no_tunnels alex 3 (codes "peer") 1) requests).sessions
      ≡ some u)
    × CountsOf (history_onto (codes "alex") [] requests) u
    × (u.session ≡ 3)
register-record_all-CountsOf_example =
    register-record_all-CountsOf no_tunnels alex 3 (codes "peer") 1 requests

-- Every connection comes through one proxy.
abbrev one_address : ℕ → Bytes
one_address c = codes "proxy"

abbrev reserved_once : System
reserved_once = record {
  registry = record { sessions = []; pending = (codes "alex", codes "proxy") ∷ [] };
  phase = update start.phase 0 (holding (codes "alex"));
  closed = start.closed;
}

abbrev served_once : System
served_once = record {
  registry = record {
    sessions = (codes "alex", new_tunnel alex 0 (codes "proxy") 1) ∷ [];
    pending = [];
  };
  phase = update reserved_once.phase 0 (serving (codes "alex"));
  closed = start.closed;
}

reserved_trace : Reach one_address start reserved_once
unfolding reserve_name lookup insert
reserved_trace = next here (reserves start 0 (codes "alex") refl refl)

served_trace : Reach one_address start served_once
unfolding register insert erase
served_trace = next reserved_trace (promotes reserved_once 0 alex 1 refl)

name_exclusive_example : ◌≡◌ {A = ℕ} 0 0
name_exclusive_example =
    name_exclusive one_address served_once (codes "alex") 0 0 served_trace (inr (refl, refl))
      (inr (refl, refl))

http_tunnel_routed_example :
    (auth : Option HttpBasicAuthConfig) × (http_tunnel served_once.closed served_once.registry
        (codes "alex")
      ≡ some (0, auth))
http_tunnel_routed_example =
    http_tunnel_routed one_address served_once (codes "alex") 0 served_trace refl refl

reserve_name_refused_iff_example :
    ((reserve_name served_once.closed served_once.registry (codes "alex") (codes "proxy")).1
      ≡ false)
    ↔ ((c : ℕ) × Has served_once (codes "alex") c)
reserve_name_refused_iff_example =
    reserve_name_refused_iff one_address served_once (codes "alex") (codes "proxy") served_trace
