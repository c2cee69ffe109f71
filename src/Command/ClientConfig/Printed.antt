-- ===== src/Command/ClientConfig/Printed.antt =====
-- A usable configuration written as flags is read back.
use gatelet.Prelude.{
  ℕ, ◌≡◌, refl, Bool, true, false, not, Option, some, List, [], ◌∷◌, ◌++◌, arith, if◌then◌else◌,
  nat_eq, ==_iff, ok, Bytes, codes, bytes_eq, is_empty, has_byte, cut, ℤ,
}
use gatelet.Protocol.Hello.{default_token_id}
use gatelet.Client.Events.{LogFormat, text, json, jsonl, parse_log_format}
use gatelet.Command.Specs.{parse_basic_auth_spec}
use gatelet.Command.Flags.{Flags, default_flags, parse_flags, argument}
use gatelet.Command.ClientConfig.{
  ClientConfig, or_env, check_tls, basic_auth, complete, check_values, config_of, parse_config,
}
use gatelet.Command.ClientConfig.Checked.{IsUsable, HasTlsOptions}

abbrev pub bool_text : Bool → Bytes
bool_text true = codes "true"
bool_text false = codes "false"

abbrev pub format_text : LogFormat → Bytes
format_text text = codes "text"
format_text json = codes "json"
format_text jsonl = codes "jsonl"

abbrev pub auth_text : Bytes → Bytes → Bytes
auth_text user password = if is_empty user then [] else user ++ (b':' ∷ password)

-- Each flag with its value; `preview` is the text of the limit.
abbrev pub flag_args : Flags → Bytes → List Bytes
flag_args f preview =
    (codes "--name=" ++ f.name)
    ∷ (codes "--server=" ++ f.server)
    ∷ (codes "--to=" ++ f.target)
    ∷ (codes "--token=" ++ f.token)
    ∷ (codes "--token-id=" ++ f.token_id)
    ∷ (codes "--domain=" ++ f.domain)
    ∷ (codes "--log-format=" ++ f.log_format)
    ∷ (codes "--basic-auth=" ++ f.basic_auth)
    ∷ (codes "--control-ca=" ++ f.control_ca)
    ∷ (codes "--control-server-name=" ++ f.control_server_name)
    ∷ (codes "--control-plaintext=" ++ bool_text f.control_plaintext)
    ∷ (codes "--control-insecure-skip-verify=" ++ bool_text f.control_insecure)
    ∷ (codes "--tui=" ++ bool_text f.tui)
    ∷ (codes "--preview-size=" ++ preview)
    ∷ []

-- The flags that say what the configuration says.
abbrev pub flags_of : ClientConfig → Flags
flags_of c = record {
  name = c.name;
  server = c.server_addr;
  target = c.target;
  token = c.token;
  token_id = c.token_id;
  domain = c.domain;
  log_format = format_text c.log_format;
  preview_size = c.preview_limit;
  basic_auth = auth_text c.http_basic_auth_user c.http_basic_auth_password;
  control_plaintext = not c.control_tls;
  control_ca = c.control_ca_cert_file;
  control_server_name = c.control_server_name;
  control_insecure = c.control_insecure_skip_verify;
  tui = c.tui;
}

module _ (parse_int : Bytes → Option ℤ) where
  parse_flags_by :
      (f : Flags) (plaintext insecure tui : Bool) (preview : Bytes)
      → parse_int preview ≡ some f.preview_size
      → let g = record f {
        control_plaintext = plaintext;
        control_insecure = insecure;
        tui = tui;
      } in
        parse_flags parse_int (default_flags []) (flag_args g preview) ≡ ok (g, [])
  unfolding parse_flags argument
  parse_flags_by f true true true preview h = rw (h, parse_flags) refl
  parse_flags_by f true true false preview h = rw (h, parse_flags) refl
  parse_flags_by f true false true preview h = rw (h, parse_flags) refl
  parse_flags_by f true false false preview h = rw (h, parse_flags) refl
  parse_flags_by f false true true preview h = rw (h, parse_flags) refl
  parse_flags_by f false true false preview h = rw (h, parse_flags) refl
  parse_flags_by f false false true preview h = rw (h, parse_flags) refl
  parse_flags_by f false false false preview h = rw (h, parse_flags) refl

  parse_flags-flag_args :
      (f : Flags) (preview : Bytes)
      → parse_int preview ≡ some f.preview_size
      → parse_flags parse_int (default_flags []) (flag_args f preview) ≡ ok (f, [])
  parse_flags-flag_args f preview h =
      parse_flags_by f f.control_plaintext f.control_insecure f.tui preview h

cut-append :
    (sep : ℕ) (s t : Bytes) → has_byte sep s ≡ false → cut sep (s ++ (sep ∷ t)) ≡ some (s, t)
unfolding cut
cut-append sep [] t h = ground (arith, ==_iff sep sep)
cut-append sep (c ∷ s) t h = ground (arith, cut-append sep s t)

parse_basic_auth_spec-joined :
    (user password : Bytes)
    → has_byte b':' user ≡ false
    → is_empty user ≡ false
    → is_empty password ≡ false
    → parse_basic_auth_spec (user ++ (b':' ∷ password)) ≡ some (user, password)
unfolding parse_basic_auth_spec
parse_basic_auth_spec-joined user password no_colon u p =
    rw (cut-append b':' user password no_colon, u, p, parse_basic_auth_spec) refl

basic_auth-auth_text :
    (user password from_env : Bytes)
    → has_byte b':' user ≡ false
    → is_empty user ≡ is_empty password
    → (is_empty user ≡ true → from_env ≡ [])
    → basic_auth (or_env (auth_text user password) from_env) ≡ ok (user, password)
basic_auth-auth_text [] [] from_env no_colon both quiet = rw (quiet refl) refl
basic_auth-auth_text [] (p ∷ ps) from_env no_colon both quiet = cc
basic_auth-auth_text (u ∷ us) [] from_env no_colon both quiet = cc
basic_auth-auth_text (u ∷ us) (p ∷ ps) from_env no_colon both quiet =
    rw (parse_basic_auth_spec-joined (u ∷ us) (p ∷ ps) no_colon refl refl) refl

or_env-given : (value from_env : Bytes) → is_empty value ≡ false → or_env value from_env ≡ value
or_env-given value from_env h = rw h refl

not-not : (b : Bool) → not (not b) ≡ b
not-not true = refl
not-not false = refl

module _ (env : Bytes → Bytes) (c : ClientConfig) (usable : IsUsable c) where
  check_values-flags_of : check_values env (flags_of c) c.name [] ≡ ok tt
  check_values-flags_of = ground (arith, usable)

  token_id_kept :
      or_env (or_env c.token_id (env (codes "GATELET_TOKEN_ID"))) default_token_id ≡ c.token_id
  token_id_kept = ground (arith, usable)

  config_of-flags_of :
      config_of env
        (flags_of c)
        c.log_format
        c.name
        (or_env c.target [])
        (c.http_basic_auth_user, c.http_basic_auth_password)
      ≡ c
  config_of-flags_of = λ i. record c {
    server_addr = or_env-given c.server_addr (env (codes "GATELET_SERVER")) usable.1 i;
    target = or_env-given c.target [] usable.2 i;
    token = or_env-given c.token (env (codes "GATELET_TOKEN")) usable.3 i;
    token_id = token_id_kept i;
    control_tls = not-not c.control_tls i;
  }

check_tls-flags_of : (c : ClientConfig) → HasTlsOptions c → check_tls (flags_of c) ≡ ok tt
check_tls-flags_of c h = ground (arith, h)

parse_log_format-format_text : (f : LogFormat) → parse_log_format (format_text f) ≡ some f
unfolding parse_log_format
parse_log_format-format_text text = refl
parse_log_format-format_text json = refl
parse_log_format-format_text jsonl = refl

-- A configuration that is usable, written as flags, is read back as itself, if its user has no colon,
-- the limit's text is read as the limit, and the environment has no credentials where it has none.
pub parse_config-flag_args :
    (env : Bytes → Bytes) (parse_int : Bytes → Option ℤ) (c : ClientConfig) (preview : Bytes)
    → IsUsable c
    → HasTlsOptions c
    → parse_int preview ≡ some c.preview_limit
    → has_byte b':' c.http_basic_auth_user ≡ false
    → (is_empty c.http_basic_auth_user ≡ true → env (codes "GATELET_BASIC_AUTH") ≡ [])
    → parse_config env parse_int (flag_args (flags_of c) preview) ≡ ok c
unfolding parse_config complete
parse_config-flag_args env parse_int c preview usable tls number no_colon quiet =
    rw
      (
        parse_flags-flag_args parse_int (flags_of c) preview number,
        parse_log_format-format_text c.log_format,
        check_tls-flags_of c tls,
        check_values-flags_of env c usable,
        basic_auth-auth_text c.http_basic_auth_user c.http_basic_auth_password
            (env (codes "GATELET_BASIC_AUTH")) no_colon usable.6 quiet,
        config_of-flags_of env c usable,
      )
      refl
