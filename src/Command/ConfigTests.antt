-- ===== src/Command/ConfigTests.antt =====
-- The configurations on concrete arguments.
use gatelet.Prelude.{
  ◌≡◌, refl, true, false, Option, none, some, List, [], ◌∷◌, if◌then◌else◌, ◌==◌, nat_eq, ok, Bytes,
  codes, bytes_eq, strip_suffix, trim_space, cut, split, ℤ, pos,
}
use gatelet.Client.Events.{text, json}
use gatelet.Server.Names.{Config}
use gatelet.Protocol.Name.{validate_name}
use gatelet.Command.Specs.{parse_token_spec}
use gatelet.Command.ClientConfig.{ClientConfig, parse_config}
use gatelet.Command.ClientConfig.Checked.{IsUsable, HasTlsOptions, parse_config-IsUsable}
use gatelet.Command.ClientConfig.Printed.{flag_args, flags_of, parse_config-flag_args}
use gatelet.Command.DaemonConfig.{DaemonFlags, daemon_config}

abbrev environment : Bytes → Bytes
environment name = if name == codes "GATELET_TOKEN" then codes "secret" else []

-- A reader that knows two numbers.
abbrev read_number : Bytes → Option ℤ
read_number s =
    if s == codes "0" then some (pos 0) else if s == codes "9" then some (pos 9) else none

abbrev arguments : List Bytes
arguments =
    codes "alex"
    ∷ codes "http://127.0.0.1:3000"
    ∷ codes "--server"
    ∷ codes "127.0.0.1:4443"
    ∷ codes "--control-plaintext"
    ∷ codes "-preview-size=9"
    ∷ codes "--tui"
    ∷ []

abbrev configured : ClientConfig
configured = record {
  name = codes "alex";
  server_addr = codes "127.0.0.1:4443";
  target = codes "http://127.0.0.1:3000";
  token = codes "secret";
  token_id = codes "default";
  domain = [];
  tui = true;
  http_basic_auth_user = [];
  http_basic_auth_password = [];
  control_tls = false;
  preview_limit = pos 9;
  log_format = text;
  control_ca_cert_file = [];
  control_server_name = [];
  control_insecure_skip_verify = false;
}

arguments_parse : parse_config environment read_number arguments ≡ ok configured
unfolding parse_config
arguments_parse = refl

parse_config-IsUsable_example : IsUsable configured × HasTlsOptions configured
parse_config-IsUsable_example =
    parse_config-IsUsable environment read_number arguments configured arguments_parse

abbrev protected_config : ClientConfig
protected_config = record configured {
  http_basic_auth_user = codes "u";
  http_basic_auth_password = codes "p:q";
  control_tls = true;
  control_server_name = codes "relay";
  log_format = json;
}

parse_config-flag_args_example :
    parse_config environment read_number (flag_args (flags_of protected_config) (codes "9"))
    ≡ ok protected_config
parse_config-flag_args_example =
    parse_config-flag_args environment read_number protected_config (codes "9")
      (refl, refl, refl, refl, refl, refl, refl) (λ e. cc) refl refl (λ e. cc)

abbrev daemon_flags : DaemonFlags
daemon_flags = record {
  domain = codes "tun.example";
  token = [];
  tokens_spec = codes "a=x,b=y:inactive";
  admin_user = codes "root";
  admin_password = codes "pw";
  reserved_names_spec = codes "www, api";
  allow_names_spec = [];
  log_format = codes "json";
  control_tls_cert = [];
  control_tls_key = [];
}

abbrev daemon_configured : Config
daemon_configured = record {
  domain = codes "tun.example";
  token = codes "secret";
  tokens =
      record { id = codes "a"; value = codes "x"; active = true }
      ∷ record { id = codes "b"; value = codes "y"; active = false }
      ∷ [];
  admin_user = codes "root";
  admin_password = codes "pw";
  reserved_names = codes "www" ∷ codes "api" ∷ [];
  allow_names = [];
}

daemon_flags_parse : daemon_config environment daemon_flags ≡ ok daemon_configured
unfolding daemon_config split trim_space parse_token_spec cut validate_name strip_suffix
daemon_flags_parse = refl
