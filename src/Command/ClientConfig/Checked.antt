-- ===== src/Command/ClientConfig/Checked.antt =====
-- What a configuration that `parseConfig` returns satisfies.
use gatelet.Prelude.{
  ◌≡◌, refl, ap, subst, Bool, true, false, not, Option, List, arith, Result, ok, err, fail_if,
  map_err, or_fail, Bytes, codes, is_empty, ℤ, pos, ltbℤ, >>=-eq-ok,
}
use gatelet.Protocol.Hello.{default_token_id}
use gatelet.Client.Events.{LogFormat, parse_log_format}
use gatelet.Command.Specs.{parse_basic_auth_spec}
use gatelet.Command.Flags.{Flags, default_flags, parse_flags}
use gatelet.Command.ClientConfig.{
  ClientConfig, ConfigError, take_positional, fill, or_env, check_tls, check_left, basic_auth,
  complete, server_of, token_of, check_values, config_of, parse_config, flag_error,
  unsupported_log_format,
}

abbrev pub IsUsable : ClientConfig → Type 0
IsUsable c =
    (is_empty c.name ≡ false)
    × (is_empty c.server_addr ≡ false)
    × (is_empty c.target ≡ false)
    × (is_empty c.token ≡ false)
    × (is_empty c.token_id ≡ false)
    × (ltbℤ c.preview_limit (pos 0) ≡ false)
    × (is_empty c.http_basic_auth_user ≡ is_empty c.http_basic_auth_password)

-- Without TLS no option of it is given.
abbrev pub HasTlsOptions : ClientConfig → Type 0
HasTlsOptions c =
    c.control_tls ≡ false
    → is_empty c.control_ca_cert_file ≡ true
      × (is_empty c.control_server_name ≡ true)
      × (c.control_insecure_skip_verify ≡ false)

fail_if-eq-ok {ℓ} : {E : Type ℓ} (b : Bool) (e : E) → fail_if b e ≡ ok tt → b ≡ false
fail_if-eq-ok true e h = cc
fail_if-eq-ok false e h = refl

basic_auth_lem :
    (spec : Bytes) (auth : Bytes × Bytes)
    → basic_auth spec ≡ ok auth
    → is_empty auth.0 ≡ is_empty auth.1
unfolding parse_basic_auth_spec
basic_auth_lem spec auth h = ground arith

check_values_lem :
    (env : Bytes → Bytes) (f : Flags) (name positional : Bytes)
    → check_values env f name positional ≡ ok tt
    → (is_empty name ≡ false)
      × (is_empty (server_of env f) ≡ false)
      × (is_empty (or_env f.target positional) ≡ false)
      × (ltbℤ f.preview_size (pos 0) ≡ false)
      × (is_empty (token_of env f) ≡ false)
check_values_lem env f name positional h = ground arith

token_id_lem :
    (given from_env : Bytes) → is_empty (or_env (or_env given from_env) default_token_id) ≡ false
token_id_lem given from_env = ground arith

tls_lem :
    (f : Flags)
    → check_tls f ≡ ok tt
    → not f.control_plaintext ≡ false
    → (is_empty f.control_ca ≡ true)
      × (is_empty f.control_server_name ≡ true)
      × (f.control_insecure ≡ false)
tls_lem f h e = ground arith

ok_inj : (a b : ClientConfig) → Path (Result ConfigError ClientConfig) (ok a) (ok b) → a ≡ b
ok_inj a b e = ap (λ r. elim r [ ok c ↦ c | err _ ↦ a ]) e

Checked : ClientConfig → Type 0
Checked c = IsUsable c × HasTlsOptions c

complete-Checked :
    (env : Bytes → Bytes) (f : Flags) (log_format : LogFormat) (name positional : Bytes)
    (c : ClientConfig)
    → check_tls f ≡ ok tt
    → complete env f log_format name positional ≡ ok c
    → Checked c
unfolding complete Checked
complete-Checked env f log_format name positional c tls h =
    let (u, checks, h1) = >>=-eq-ok (check_values env f name positional) _ h in
    let (named, served, targeted, previewed, authenticated) =
      check_values_lem env f name positional checks in
    let spec : Bytes = or_env f.basic_auth (env (codes "GATELET_BASIC_AUTH")) in
    let (auth, credentials, h2) = >>=-eq-ok (basic_auth spec) _ h1 in
    let made : ClientConfig = config_of env f log_format name (or_env f.target positional) auth in
    subst Checked (ok_inj made c h2) (
      (
        named,
        served,
        targeted,
        authenticated,
        token_id_lem f.token_id (env (codes "GATELET_TOKEN_ID")),
        previewed,
        basic_auth_lem spec auth credentials,
      ),
      tls_lem f tls,
    )

-- An accepted configuration has a name, a relay, a target, a token and a token id, a limit that is not
-- negative, credentials that are both given or both not, and no option of TLS where it has no TLS.
pub parse_config-IsUsable :
    (env : Bytes → Bytes) (parse_int : Bytes → Option ℤ) (args : List Bytes) (c : ClientConfig)
    → parse_config env parse_int args ≡ ok c
    → IsUsable c × HasTlsOptions c
unfolding parse_config Checked
parse_config-IsUsable env parse_int args c h =
    let (first, rest) = take_positional args in
    let (second, more) = take_positional rest in
    let (parsed, _, h1) =
      >>=-eq-ok (map_err flag_error (parse_flags parse_int (default_flags first) more)) _ h in
    let (log_format, _, h2) =
      >>=-eq-ok (or_fail (parse_log_format parsed.0.log_format) unsupported_log_format) _ h1 in
    let (u, tls, h3) = >>=-eq-ok (check_tls parsed.0) _ h2 in
    let (u', _, h4) = >>=-eq-ok (check_left (fill second (fill parsed.0.name parsed.1).1).1) _ h3 in
    complete-Checked env parsed.0 log_format (fill parsed.0.name parsed.1).0
      (fill second (fill parsed.0.name parsed.1).1).0 c tls h4
