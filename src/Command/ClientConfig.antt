-- ===== src/Command/ClientConfig.antt =====
-- cmd/gatelet/main.go: `parseConfig`, which makes the client's configuration of its arguments and of
-- the environment.
pub mod Checked
pub mod Printed
use gatelet.Prelude.{
  Bool, not, ◌&&◌, Option, List, [], ◌∷◌, if◌then◌else◌, ◌==◌, nat_eq, Result, ok, err, ◌>>=◌, ◌>>◌,
  fail_if, map_err, or_fail, Bytes, codes, bytes_eq, is_empty, starts_with, ℤ, pos, ltbℤ,
}
use gatelet.Protocol.Hello.{default_token_id}
use gatelet.Client.Events.{LogFormat, parse_log_format}
use gatelet.Command.Specs.{parse_basic_auth_spec}
use gatelet.Command.Flags.{Flags, default_flags, FlagError, parse_flags}

pub record ClientConfig : Type 0 where
  pub name : Bytes
  pub server_addr : Bytes
  pub target : Bytes
  pub token : Bytes
  pub token_id : Bytes
  pub domain : Bytes
  pub tui : Bool
  pub http_basic_auth_user : Bytes
  pub http_basic_auth_password : Bytes
  pub control_tls : Bool
  pub preview_limit : ℤ
  pub log_format : LogFormat
  pub control_ca_cert_file : Bytes
  pub control_server_name : Bytes
  pub control_insecure_skip_verify : Bool

pub data ConfigError : Type 0 where
  flag_error : FlagError → ConfigError
  unsupported_log_format ca_requires_tls server_name_requires_tls : ConfigError
  insecure_requires_tls unexpected_argument name_required server_required : ConfigError
  target_twice target_required negative_preview token_required bad_basic_auth : ConfigError

-- The first arguments may be the name and the target.
abbrev pub take_positional : List Bytes → Bytes × List Bytes
take_positional [] = ([], [])
take_positional (a ∷ rest) = if starts_with (codes "-") a then ([], a ∷ rest) else (a, rest)

-- A value that is still empty is the first of the arguments that are left.
abbrev pub fill : Bytes → List Bytes → Bytes × List Bytes
fill value [] = (value, [])
fill value (a ∷ rest) = if is_empty value then (a, rest) else (value, a ∷ rest)

abbrev pub or_env : Bytes → Bytes → Bytes
or_env value from_env = if is_empty value then from_env else value

abbrev check_tls : Flags → Result ConfigError (Unit {0})
check_tls f = if not f.control_plaintext then ok tt else do
  fail_if (not (is_empty f.control_ca)) ca_requires_tls
  fail_if (not (is_empty f.control_server_name)) server_name_requires_tls
  fail_if f.control_insecure insecure_requires_tls

abbrev check_left : List Bytes → Result ConfigError (Unit {0})
check_left [] = ok tt
check_left (a ∷ rest) = err unexpected_argument

abbrev basic_auth : Bytes → Result ConfigError (Bytes × Bytes)
basic_auth spec =
    if is_empty spec then ok ([], []) else or_fail (parse_basic_auth_spec spec) bad_basic_auth

module _ (env : Bytes → Bytes) where
  abbrev server_of : Flags → Bytes
  server_of f = or_env f.server (env (codes "GATELET_SERVER"))

  abbrev token_of : Flags → Bytes
  token_of f = or_env f.token (env (codes "GATELET_TOKEN"))

  abbrev config_of : Flags → LogFormat → Bytes → Bytes → Bytes × Bytes → ClientConfig
  config_of f log_format name target auth = record {
    name = name;
    server_addr = server_of f;
    target = target;
    token = token_of f;
    token_id = or_env (or_env f.token_id (env (codes "GATELET_TOKEN_ID"))) default_token_id;
    domain = f.domain;
    tui = f.tui;
    http_basic_auth_user = auth.0;
    http_basic_auth_password = auth.1;
    control_tls = not f.control_plaintext;
    preview_limit = f.preview_size;
    log_format = log_format;
    control_ca_cert_file = f.control_ca;
    control_server_name = f.control_server_name;
    control_insecure_skip_verify = f.control_insecure;
  }

  -- The checks that follow the arguments, in their order.
  abbrev check_values : Flags → Bytes → Bytes → Result ConfigError (Unit {0})
  check_values f name positional_target = do
    fail_if (is_empty name) name_required
    fail_if (is_empty (server_of f)) server_required
    fail_if
        (not (is_empty f.target)
          && (not (is_empty positional_target) && not (f.target == positional_target)))
        target_twice
    fail_if (is_empty (or_env f.target positional_target)) target_required
    fail_if (ltbℤ f.preview_size (pos 0)) negative_preview
    fail_if (is_empty (token_of f)) token_required

  complete : Flags → LogFormat → Bytes → Bytes → Result ConfigError ClientConfig
  unfolding parse_basic_auth_spec
  complete f log_format name positional_target = do
    check_values f name positional_target
    auth ← basic_auth (or_env f.basic_auth (env (codes "GATELET_BASIC_AUTH")))
    ok (config_of f log_format name (or_env f.target positional_target) auth)

  unfoldable pub parse_config : (Bytes → Option ℤ) → List Bytes → Result ConfigError ClientConfig
  unfolding complete parse_flags parse_log_format
  parse_config parse_int args =
      let (first, after_name) = take_positional args in
      let (second, after_target) = take_positional after_name in
      do
        parsed ← map_err flag_error (parse_flags parse_int (default_flags first) after_target)
        log_format ← or_fail (parse_log_format parsed.0.log_format) unsupported_log_format
        check_tls parsed.0
        check_left (fill second (fill parsed.0.name parsed.1).1).1
        complete parsed.0 log_format (fill parsed.0.name parsed.1).0
            (fill second (fill parsed.0.name parsed.1).1).0
