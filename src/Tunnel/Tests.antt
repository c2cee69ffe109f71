-- ===== src/Tunnel/Tests.antt =====
-- One visit through a tunnel with credentials.
use gatelet.Prelude.{
  ℕ, ◌≡◌, refl, Bool, true, false, none, some, [], ◌∷◌, ◌++◌, nat_eq, lookup, ok, codes, bytes_eq,
  pos, strip_suffix,
}
use gatelet.Protocol.Hello.{ClientHello}
use gatelet.Server.Names.{Settings, normalize_dns_name}
use gatelet.Protocol.Name.{validate_name}
use gatelet.Server.Host.{name_from_host, is_admin_host, canonical_host, split_host_port}
use gatelet.Server.Registry.{Registry, new_tunnel, http_tunnel}
use gatelet.Server.Dispatch.{
  Request, Reply, relayed, asked_page, add_forwarded_headers, require_tunnel_basic_auth, serve_http,
}
use gatelet.Server.Dispatch.Through.{unguarded}
use gatelet.Client.Target.{target_request_url}
use gatelet.Client.Stream.{TunnelRequest, handle_stream}
use gatelet.Client.Stream.Answers.{first_answer}
use gatelet.Tunnel.{Transport, Client, visit}
use gatelet.Tunnel.Answered.{Visited, visit-Visited}

abbrev relay_settings : Settings
relay_settings = record {
  domain = codes "t.io";
  tokens = [];
  reserved_names = [];
  allow_names = [];
  admin_user = [];
  admin_password = [];
  admin_action_token = codes "f00";
}

abbrev zoe : ClientHello
zoe = record {
  name = codes "zoe";
  protocol_version = pos 3;
  client_version = codes "v";
  tunnel_type = codes "http";
  http_basic_auth = some (record { username = codes "u"; password = codes "p" });
}

abbrev tunnels : Registry
tunnels = record { sessions = (codes "zoe", new_tunnel zoe 4 (codes "r") 1) ∷ []; pending = [] }

abbrev request : Request
request = record {
  method = codes "GET";
  path = codes "/x";
  host = codes "zoe.t.io";
  remote_addr = codes "1.2.3.4:5";
  tls = true;
  basic_auth = some (codes "u", codes "p");
  header = (codes "Authorization", codes "Basic dTpw" ∷ []) ∷ [];
  form_csrf = none;
  unescape = λ text. some text;
  read_file = λ name. none;
}

abbrev carry : Request → TunnelRequest
carry out = record {
  method = out.method;
  request_uri = out.path;
  host = out.host;
  remote_addr = [];
  header = out.header;
  content_length = pos 0;
  body_reads = [];
}

abbrev transport : Transport
transport = record {
  read_request = λ out. some (carry out);
  request_size = λ out. 80;
  read_response =
      λ response. some (record { status = response.status; header = response.header; copied = 3 });
}

abbrev client : Client
client = record {
  parse_media_type = λ text. none;
  utf8_valid = λ text. true;
  settings = record { preview_limit = pos 16; http_basic_auth = true };
  id = 1;
  target = codes "http://l:1";
  parse_url = λ text. some (record {
    scheme = codes "http";
    host = codes "l:1";
    path = codes "/x";
    raw_query = [];
    fragment = [];
  });
  print_url = λ url. url.host ++ url.path;
  target_error_text = λ e. [];
  pausing = none;
  bad_request = none;
  serves = λ method url host header.
      ok (record { status = 201; header = []; body_reads = codes "hey" ∷ []; write_error = none });
}

abbrev written : Request
written =
    add_forwarded_headers
      (unguarded request (some (record { username = codes "u"; password = codes "p" })))

all_open : ℕ → Bool
all_open session = false

reply_of : Reply
reply_of = record { status = 201; header = []; copied = 3 }

visit-Visited_example :
    Visited tunnels
      (codes "zoe")
      request
      (some (record { username = codes "u"; password = codes "p" }))
      80
      9
      2
      client
      (carry written)
      (record { status = 201; header = []; copied = 3 })
      (visit transport relay_settings all_open tunnels (λ session. client) request 9 2)
unfolding all_open asked_page name_from_host http_tunnel lookup is_admin_host canonical_host
    split_host_port normalize_dns_name strip_suffix validate_name target_request_url
visit-Visited_example =
    visit-Visited transport relay_settings all_open tunnels (λ session. client) request 9 2
      (codes "zoe") 4 (some (record { username = codes "u"; password = codes "p" })) (carry written)
      (record { status = 201; header = []; copied = 3 }) refl refl refl refl refl refl
      (record { method = refl; host = refl; header = λ key e. refl }) refl refl

visited :
    (visit transport relay_settings all_open tunnels (λ session. client) request 9 2).0.response
    ≡ relayed reply_of
unfolding all_open visit lookup reply_of serve_http is_admin_host canonical_host split_host_port
    normalize_dns_name strip_suffix name_from_host validate_name http_tunnel
    require_tunnel_basic_auth first_answer handle_stream target_request_url
visited = refl
