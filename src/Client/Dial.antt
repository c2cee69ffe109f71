-- ===== src/Client/Dial.antt =====
-- internal/client/client.go: `dialControl`, the ways to reach the relay. What each call answers is an input;
-- the TCP connections that are opened and closed are listed.
pub mod Dialled
use gatelet.Prelude.{
  ℕ, Bool, not, ◌||◌, Option, none, some, List, [], ◌∷◌, ◌++◌, if◌then◌else◌, ◌==◌, nat_eq, Result,
  ok, err, ◌>>=◌, ◌>>◌, fail_if, or_fail, Bytes, codes, bytes_eq, is_empty, starts_with,
}
use gatelet.Client.Events.{host_without_port}

-- The options of the control connection; a pool of certificates is a number.
pub record DialConfig : Type 0 where
  pub server_addr : Bytes
  pub control_tls : Bool
  pub control_ca_cert_file : Bytes
  pub control_server_name : Bytes
  pub control_insecure_skip_verify : Bool
  pub control_root_cas : Option ℕ

pub record TlsConfig : Type 0 where
  pub min_version : ℕ
  pub root_cas : Option ℕ
  pub server_name : Bytes
  pub insecure_skip_verify : Bool

-- What an address is for `url.Parse`: the path, and the print with a path.
pub record ParsedUrl : Type 0 where
  pub path : Bytes
  pub print_with : Bytes → Bytes

pub record Network : Type 0 where
  pub parse_url : Bytes → Option ParsedUrl
  -- The Host of `url.Parse`, or "" where it fails.
  pub parse_host : Bytes → Bytes
  pub system_cert_pool : Option ℕ
  pub new_cert_pool : ℕ
  pub read_file : Bytes → Option Bytes
  pub append_certs : ℕ → Bytes → Option ℕ
  pub dials_tcp : Bool
  pub tls_handshakes : Bool
  pub dials_web_socket : Bytes → Option TlsConfig → Bool
  -- The text of the error of the call that fails.
  pub fault : Bytes

pub data ControlConn : Type 0 where
  plain : ControlConn
  secured : TlsConfig → ControlConn
  web_socket : Bytes → Option TlsConfig → ControlConn

pub data DialEffect : Type 0 where
  conn_opened conn_closed : DialEffect

abbrev pub ws_prefix : Bytes
ws_prefix = codes "ws://"

abbrev pub wss_prefix : Bytes
wss_prefix = codes "wss://"

abbrev pub is_web_socket_control_addr : Bytes → Bool
is_web_socket_control_addr addr = starts_with ws_prefix addr || starts_with wss_prefix addr

abbrev pub control_path : Bytes
control_path = codes "/__gatelet/control"

abbrev default_path : Bytes → Bytes
default_path path = if is_empty path || path == codes "/" then control_path else path

unfoldable pub web_socket_control_url : Network → Bytes → Result Bytes Bytes
web_socket_control_url w addr = do
  parsed ← or_fail (w.parse_url addr) w.fault
  ok (parsed.print_with (default_path parsed.path))

abbrev pub pool_of : Network → ℕ
pool_of w = elim w.system_cert_pool [ none ↦ w.new_cert_pool | some pool ↦ pool ]

unfoldable pub root_cas_of : Network → DialConfig → Result Bytes (Option ℕ)
root_cas_of w c = if is_empty c.control_ca_cert_file then ok c.control_root_cas else do
  text ← or_fail (w.read_file c.control_ca_cert_file) (codes "read control CA file: " ++ w.fault)
  pool ← or_fail (w.append_certs (pool_of w) text) (codes "control CA file has no certificates")
  ok (some pool)

abbrev pub server_name_of : Network → DialConfig → Bytes
server_name_of w c =
    if is_empty c.control_server_name
    then host_without_port w.parse_host c.server_addr
    else c.control_server_name

-- `tls.VersionTLS12`.
abbrev pub version_tls12 : ℕ
version_tls12 = 771

unfoldable pub control_tls_config : Network → DialConfig → Result Bytes TlsConfig
unfolding root_cas_of
control_tls_config w c = do
  pool ← root_cas_of w c
  ok (record {
    min_version = version_tls12;
    root_cas = pool;
    server_name = server_name_of w c;
    insecure_skip_verify = c.control_insecure_skip_verify;
  })

-- The TLS options are made for wss only.
unfoldable pub web_socket_options : Network → DialConfig → Result Bytes (Option TlsConfig)
unfolding control_tls_config
web_socket_options w c =
    if not (starts_with wss_prefix c.server_addr)
    then ok none
    else do t ← control_tls_config w c; ok (some t)

unfoldable pub dial_web_socket_control : Network → DialConfig → Result Bytes ControlConn
unfolding web_socket_control_url web_socket_options
dial_web_socket_control w c = do
  control_url ← web_socket_control_url w c.server_addr
  options ← web_socket_options w c
  fail_if (not (w.dials_web_socket control_url options)) w.fault
  ok (web_socket control_url options)

abbrev opened_and_closed : List DialEffect
opened_and_closed = conn_opened ∷ conn_closed ∷ []

abbrev pub tls_advice : Bytes
tls_advice =
    codes
      "; if the control listener is plaintext, retry with --control-plaintext or enable gateletd --control-tls-cert and --control-tls-key"

-- What follows the TCP connection where TLS is wanted.
unfoldable pub secure_conn : Network → DialConfig → Result Bytes ControlConn × List DialEffect
unfolding control_tls_config
secure_conn w c = elim (control_tls_config w c) [
  | err e ↦ (err e, opened_and_closed)
  | ok t ↦
      if w.tls_handshakes
      then (ok (secured t), conn_opened ∷ [])
      else (err (codes "TLS handshake: " ++ (w.fault ++ tls_advice)), opened_and_closed)
]

unfoldable pub dial_control : Network → DialConfig → Result Bytes ControlConn × List DialEffect
unfolding dial_web_socket_control secure_conn
dial_control w c =
    if is_web_socket_control_addr c.server_addr
    then (dial_web_socket_control w c, [])
    else if not w.dials_tcp
    then (err w.fault, [])
    else if not c.control_tls
    then (ok plain, conn_opened ∷ [])
    else secure_conn w c
