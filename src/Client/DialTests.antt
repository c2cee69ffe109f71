-- ===== src/Client/DialTests.antt =====
-- The dialling of one relay in each way.
use gatelet.Prelude.{
  ◌+◌, ◌≡◌, refl, Bool, true, false, none, some, [], ◌∷◌, ◌++◌, codes, ok, cut, trim,
}
use gatelet.Client.Events.{host_without_port}
use gatelet.Client.Dial.{
  DialConfig, Network, secured, web_socket, conn_opened, conn_closed, dial_control,
}
use gatelet.Client.Dial.Dialled.{Dialled, dial_control-Dialled}

-- The host of an address is as given.
abbrev network : Bool → Network
network handshakes = record {
  parse_url = λ addr. some (record { path = []; print_with = λ path. addr ++ path });
  parse_host = λ addr. codes "t.io";
  system_cert_pool = none;
  new_cert_pool = 7;
  read_file = λ file. some (codes "pem");
  append_certs = λ pool text. some (pool + 1);
  dials_tcp = true;
  tls_handshakes = handshakes;
  dials_web_socket = λ control_url options. true;
  fault = codes "eof";
}

abbrev over_tls : DialConfig
over_tls = record {
  server_addr = codes "t.io:7000";
  control_tls = true;
  control_ca_cert_file = codes "ca.pem";
  control_server_name = [];
  control_insecure_skip_verify = false;
  control_root_cas = none;
}

dial_control-Dialled_example :
    Dialled (network true) over_tls (dial_control (network true) over_tls)
dial_control-Dialled_example = dial_control-Dialled (network true) over_tls

tls_dialled : dial_control (network true) over_tls ≡ (
  ok (
      secured (record {
        min_version = 771;
        root_cas = some 8;
        server_name = codes "t.io";
        insecure_skip_verify = false;
      })),
  conn_opened ∷ [],
)
unfolding dial_control host_without_port cut trim
tls_dialled = refl

tls_refused : (dial_control (network false) over_tls).1 ≡ conn_opened ∷ conn_closed ∷ []
unfolding dial_control
tls_refused = refl

wss_dialled :
    (dial_control
      (network false)
      (record over_tls { server_addr = codes "wss://t.io"; control_ca_cert_file = [] })).0
    ≡ ok (
        web_socket (codes "wss://t.io/__gatelet/control") (
          some (record {
            min_version = 771;
            root_cas = none;
            server_name = codes "t.io";
            insecure_skip_verify = false;
          })))
unfolding dial_control host_without_port cut trim
wss_dialled = refl
