-- ===== src/Client/StreamTests.antt =====
-- The theorems on requests of the tunnel at concrete inputs, and tests.
use gatelet.Prelude.{
  ◌≡◌, refl, true, false, Option, none, some, [], ◌∷◌, ◌++◌, arith, if◌then◌else◌, ◌==◌, nat_eq,
  lookup, ok, Bytes, codes, bytes_eq, trim_left, trim_right, trim, trim_space, cut, has_substring,
  pos,
}
use gatelet.Client.Target.{Url, target_request_url}
use gatelet.Protocol.Name.{validate_name}
use gatelet.Server.Host.{name_from_host}
use gatelet.Client.Events.{public_url, remote_ip, host_without_port}
use gatelet.Server.Names.{Config, new_settings}
use gatelet.Client.Events.Routed.{public_url_routed}
use gatelet.Client.Stream.{
  TunnelRequest, Exchange, ClientSettings, handle_stream, request_remote_addr,
}
use gatelet.Client.Stream.Outcomes.{Settles, handle_stream-Settles}

abbrev get : TunnelRequest
get = record {
  method = codes "GET";
  request_uri = codes "/x";
  host = codes "ada.t.io";
  remote_addr = [];
  header = (codes "X-Forwarded-For", codes " 1.2.3.4 , 5.6.7.8" ∷ []) ∷ [];
  content_length = pos 0;
  body_reads = [];
}

-- It is queued, then resumed, and the target's response is cut off.
abbrev cut_off : Exchange
cut_off = record {
  id = 7;
  request = some get;
  pausing = some (record {
    was_paused = true;
    depth_before = 0;
    queued = true;
    depth_behind = 0;
    failed = none;
  });
  target_url = ok (codes "http://localhost:3000/x");
  bad_request = none;
  reply =
      ok (record { status = 200; header = []; body_reads = []; write_error = some (codes "EOF") });
}

abbrev plain : ClientSettings
plain = record { preview_limit = pos 4096; http_basic_auth = false }

handle_stream-Settles_example : Settles false (handle_stream (λ t. none) (λ b. true) plain cut_off)
handle_stream-Settles_example = handle_stream-Settles (λ t. none) (λ b. true) plain cut_off get refl

first_forwarder : request_remote_addr get ≡ codes "1.2.3.4"
unfolding request_remote_addr lookup cut trim_space
first_forwarder = refl

abbrev t_io : Bytes
t_io = codes "t.io"

abbrev aresa_config : Config
aresa_config = record {
  domain = codes "Tun.aresa.me";
  token = codes "k";
  tokens = [];
  reserved_names = [];
  allow_names = [];
  admin_user = [];
  admin_password = [];
}

-- No domain is given: the one of the relay's address is shown.
public_url_routed_example :
    (host : Bytes) × (public_url (λ a. []) (codes "ada") [] (codes "tun.Aresa.me:4443")
      ≡ codes "https://" ++ host)
    × (name_from_host (new_settings aresa_config []).domain host ≡ some (codes "ada"))
unfolding validate_name trim host_without_port cut
public_url_routed_example =
    public_url_routed (λ a. []) (codes "ada") [] (codes "tun.Aresa.me:4443") aresa_config []
      (λ e. cc) (ground arith) refl refl

ipv4_peer : remote_ip (codes "1.2.3.4:5") ≡ codes "1.2.3.4"
unfolding remote_ip cut trim
ipv4_peer = refl

-- The cut at the first colon leaves nothing of an IPv6 address in brackets.
ipv6_peer : remote_ip (codes "[::1]:5") ≡ []
unfolding remote_ip cut trim
ipv6_peer = refl

server_host : host_without_port (λ a. []) (codes "[::1]:443") ≡ codes "::1"
unfolding host_without_port cut trim
server_host = refl

abbrev local : Url
local = record {
  scheme = codes "http";
  host = codes "localhost:3000";
  path = codes "/app/";
  raw_query = [];
  fragment = [];
}

abbrev asked_url : Url
asked_url = record {
  scheme = [];
  host = [];
  path = codes "//evil";
  raw_query = codes "q=1";
  fragment = [];
}

-- A parser that knows two URLs.
abbrev two_urls : Bytes → Option Url
two_urls text =
    if text == codes "http://localhost:3000/app/"
    then some local
    else if text == codes "//evil?q=1"
    then some asked_url
    else none

abbrev app_url : Url
app_url = record {
  scheme = codes "http";
  host = codes "localhost:3000";
  path = codes "/app/evil";
  raw_query = codes "q=1";
  fragment = [];
}

app_target :
    target_request_url two_urls (codes "localhost:3000/app/") (codes "//evil?q=1") ≡ ok app_url
unfolding target_request_url has_substring trim_left trim_right
app_target = refl
