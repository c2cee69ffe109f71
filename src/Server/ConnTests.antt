-- ===== src/Server/ConnTests.antt =====
-- The theorems on control connections and on HTTP requests at concrete inputs, and tests.
use gatelet.Prelude.{
  inr, ℕ, ◌≡◌, refl, ◌⊎◌, Bool, true, false, none, some, [], ◌∷◌, ◌++◌, if◌then◌else◌, ◌==◌, nat_eq,
  lookup, insert, erase, Bytes, codes, bytes_eq, strip_suffix, trim_space, cut, cut_last, pos,
}
use gatelet.Protocol.Name.{validate_name}
use gatelet.Protocol.Line.{read_line, served}
use gatelet.Protocol.Challenge.{challenge_response, valid_challenge_response}
use gatelet.Protocol.Hello.{ClientHello, parse_client_hello, parse_client_challenge_response}
use gatelet.Server.Names.{Config, Settings, new_settings, token, name_allowed, normalize_dns_name}
use gatelet.Server.Host.{name_from_host, is_admin_host, canonical_host, split_host_port}
use gatelet.Server.Registry.{Registry, no_tunnels, new_tunnel, reserve_name, register, http_tunnel}
use gatelet.Server.System.{System, start}
use gatelet.Server.Handshake.{Backend, Control, serving, handle_control_conn, authenticate}
use gatelet.Server.Handshake.Sound.{IsAdmitted, handle_control_conn_sound}
use gatelet.Server.Handshake.Trace.{SameTunnels, handle_control_conn_trace}
use gatelet.Server.Handshake.Refines.{own, Refines, handle_control_conn-Refines}
use gatelet.Server.Admin.{valid_admin_action_token}
use gatelet.Server.Registry.{disconnect_tunnel}
use gatelet.Server.Dispatch.{
  Request, Stream, status_shown, serve_http, require_admin, require_tunnel_basic_auth, page_of_path,
  admin_enabled, add_forwarded_headers, asked_page,
}
use gatelet.Server.Dispatch.Guards.{IsGuarded, serve_http-IsGuarded}
use gatelet.Server.Dispatch.Forward.{IsSent, serve_http_sent}

abbrev one_token : Config
one_token = record {
  domain = codes "t.io";
  token = codes "k";
  tokens = [];
  admin_user = codes "root";
  admin_password = codes "pw";
  reserved_names = [];
  allow_names = [];
}

abbrev settings : Settings
settings = new_settings one_token (codes "f00")

abbrev hello : ClientHello
hello = record {
  name = codes "al";
  protocol_version = pos 3;
  client_version = codes "v";
  tunnel_type = codes "http";
  http_basic_auth = some (record { username = codes "u"; password = codes "p" });
}

-- A keyed function that shows what it is given, and decoders of one line each.
abbrev toy_hmac : Bytes → Bytes → Bytes
toy_hmac key message = key ++ message

abbrev answer_line : Bytes
answer_line = challenge_response toy_hmac (codes "al") (7 ∷ []) (codes "k")

abbrev toy : Backend
toy = record {
  decode_hello = λ line. if line == codes "H\n" then some hello else none;
  decode_response = λ line.
      if line == codes "R\n" then some (record { token_id = []; response = answer_line }) else none;
  hmac = toy_hmac;
}

abbrev conn : Control
conn = record {
  reader = served (codes "H\nR\n");
  nonce = some (7 ∷ []);
  challenge_sent = true;
  ok_sent = true;
  session_starts = true;
  remote = codes "peer";
  session = 3;
  now = 1;
}

-- The first line is no hello.
abbrev stray : Control
stray = record conn { reader = served (codes "R\n") }

open_now : ℕ → Bool
open_now c = false

conn_serves : handle_control_conn toy settings open_now no_tunnels conn ≡ (
  register
      (reserve_name open_now no_tunnels (codes "al") (codes "peer")).0
      hello
      3
      (codes "peer")
      1,
  serving hello,
)
unfolding handle_control_conn authenticate read_line parse_client_hello
    parse_client_challenge_response validate_name name_allowed new_settings lookup insert token
    valid_challenge_response challenge_response reserve_name register erase open_now trim_space
    gatelet.Protocol.Challenge.hex_encode gatelet.Protocol.Hello.effective_token_id
    gatelet.Protocol.Challenge.mac_input
conn_serves = refl

handle_control_conn_sound_example :
    IsAdmitted toy settings conn hello
    × ((reserve_name open_now no_tunnels (codes "al") (codes "peer")).1 ≡ true)
    × (register
          (reserve_name open_now no_tunnels (codes "al") (codes "peer")).0
          hello
          3
          (codes "peer")
          1
        ≡ register
            (reserve_name open_now no_tunnels (codes "al") (codes "peer")).0
            hello
            3
            (codes "peer")
            1)
handle_control_conn_sound_example =
    handle_control_conn_sound toy settings open_now no_tunnels _ conn hello conn_serves

handle_control_conn_trace_example :
    ((h : ClientHello) × ((handle_control_conn toy settings open_now no_tunnels stray).1
        ≡ serving h))
    ⊎ SameTunnels (handle_control_conn toy settings open_now no_tunnels stray).0 no_tunnels
handle_control_conn_trace_example = handle_control_conn_trace toy settings open_now no_tunnels stray

abbrev peers : ℕ → Bytes
peers c = codes "peer"

handle_control_conn-Refines_example :
    (t : System) × Refines peers start conn.session
      (authenticate toy settings (own peers conn))
      (handle_control_conn toy settings start.closed start.registry (own peers conn))
      t
handle_control_conn-Refines_example = handle_control_conn-Refines peers toy settings start conn refl

abbrev status_request : Request
status_request = record {
  method = codes "GET";
  path = codes "/__gatelet/status";
  host = codes "t.io";
  remote_addr = codes "1.2.3.4:5";
  tls = true;
  basic_auth = some (codes "root", codes "pw");
  header = [];
  form_csrf = none;
  unescape = λ text. some text;
  read_file = λ name. none;
}

abbrev steady_stream : ℕ → Stream
steady_stream session = record {
  opens = true;
  written = 40;
  write_fails = false;
  reply = some (record { status = 204; header = []; copied = 0 });
}

status_request_shown :
    (serve_http settings open_now no_tunnels status_request steady_stream 9 2).response
    ≡ status_shown
unfolding serve_http is_admin_host canonical_host split_host_port normalize_dns_name strip_suffix
    new_settings require_admin admin_enabled page_of_path asked_page cut_last cut trim_space
status_request_shown = refl

abbrev one_tunnel : Registry
one_tunnel = record {
  sessions = (codes "al", new_tunnel hello 3 (codes "peer") 1) ∷ [];
  pending = [];
}

-- The form of the dashboard's button.
abbrev disconnect_request : Request
disconnect_request = record status_request {
  method = codes "POST";
  path = codes "/admin/tunnels/al/disconnect";
  form_csrf = some settings.admin_action_token;
}

disconnected :
    (serve_http settings open_now one_tunnel disconnect_request steady_stream 9 2).closes ≡ some 3
unfolding serve_http is_admin_host canonical_host split_host_port normalize_dns_name strip_suffix
    new_settings require_admin admin_enabled page_of_path asked_page cut_last cut trim_space
    open_now lookup validate_name valid_admin_action_token disconnect_tunnel
disconnected = refl

serve_http-IsGuarded_example :
    IsGuarded settings open_now one_tunnel disconnect_request
      (serve_http settings open_now one_tunnel disconnect_request steady_stream 9 2)
serve_http-IsGuarded_example =
    serve_http-IsGuarded settings open_now one_tunnel disconnect_request steady_stream 9 2
      (inr (3, disconnected))

abbrev visit : Request
visit = record status_request {
  path = codes "/x";
  host = codes "al.t.io";
  basic_auth = some (codes "u", codes "p");
  header = (codes "Authorization", codes "Basic dTpw" ∷ []) ∷ [];
}

abbrev visit_out : Request
visit_out = record visit {
  header =
      (codes "X-Forwarded-For", codes "1.2.3.4" ∷ [])
      ∷ (codes "X-Forwarded-Host", codes "al.t.io" ∷ [])
      ∷ (codes "X-Forwarded-Proto", codes "https" ∷ [])
      ∷ [];
}

visit_sent :
    (serve_http settings open_now one_tunnel visit steady_stream 9 2).sent ≡ some (3, visit_out)
unfolding serve_http name_from_host validate_name is_admin_host canonical_host split_host_port
    normalize_dns_name strip_suffix new_settings page_of_path asked_page cut_last cut trim_space
    http_tunnel lookup insert erase add_forwarded_headers require_tunnel_basic_auth open_now
visit_sent = refl

serve_http_sent_example :
    IsSent settings open_now one_tunnel visit 2
      (serve_http settings open_now one_tunnel visit steady_stream 9 2)
      3
      visit_out
serve_http_sent_example =
    serve_http_sent settings open_now one_tunnel visit steady_stream 9 2 3 visit_out visit_sent
