-- ===== src/Command/DaemonConfig.antt =====
-- cmd/gateletd/main.go: the relay's configuration, made of the flags and of the environment.
pub mod Checked
use gatelet.Prelude.{
  Bool, true, false, not, ◌&&◌, ◌||◌, List, [], ◌∷◌, if◌then◌else◌, ◌==◌, nat_eq, Result, ok, err,
  ◌>>=◌, ◌>>◌, fail_if, map_err, Bytes, codes, bytes_eq, is_empty,
}
use gatelet.Protocol.Name.{NameError}
use gatelet.Server.Names.{Token, Config}
use gatelet.Command.Specs.{SpecError, parse_name_list, parse_token_specs, validate_admin_config}
use gatelet.Command.ClientConfig.{or_env}

-- The values of the flags that `main` reads into the configuration.
pub record DaemonFlags : Type 0 where
  pub domain : Bytes
  pub token : Bytes
  pub tokens_spec : Bytes
  pub admin_user : Bytes
  pub admin_password : Bytes
  pub reserved_names_spec : Bytes
  pub allow_names_spec : Bytes
  pub log_format : Bytes
  pub control_tls_cert : Bytes
  pub control_tls_key : Bytes

-- The calls of `log.Fatal`, in their order.
pub data Fatal : Type 0 where
  unknown_log_format domain_required bad_admin token_missing key_pair_incomplete : Fatal
  bad_tokens : SpecError → Fatal
  bad_reserved_names bad_allow_names : NameError → Fatal

abbrev tokens_of_spec : Bytes → Result Fatal (List Token)
tokens_of_spec spec = if is_empty spec then ok [] else map_err bad_tokens (parse_token_specs spec)

abbrev names_of_spec : (NameError → Fatal) → Bytes → Result Fatal (List Bytes)
names_of_spec bad spec = if is_empty spec then ok [] else map_err bad (parse_name_list spec)

-- `loggerForFormat`: whether it makes a logger.
abbrev pub known_log_format : Bytes → Bool
known_log_format format = format == codes "text" || format == codes "json"

abbrev no_tokens : List Token → Bool
no_tokens [] = true
no_tokens (t ∷ ts) = false

module _ (env : Bytes → Bytes) where
  abbrev token_value : DaemonFlags → Bytes
  token_value f = or_env f.token (env (codes "GATELET_TOKEN"))

  abbrev admin_user_value : DaemonFlags → Bytes
  admin_user_value f = or_env f.admin_user (env (codes "GATELET_ADMIN_USER"))

  abbrev admin_password_value : DaemonFlags → Bytes
  admin_password_value f = or_env f.admin_password (env (codes "GATELET_ADMIN_PASSWORD"))

  abbrev relay_config : DaemonFlags → List Token → List Bytes → List Bytes → Config
  relay_config f tokens reserved allowed = record {
    domain = f.domain;
    token = token_value f;
    tokens = tokens;
    admin_user = admin_user_value f;
    admin_password = admin_password_value f;
    reserved_names = reserved;
    allow_names = allowed;
  }

  unfoldable pub daemon_config : DaemonFlags → Result Fatal Config
  unfolding parse_name_list parse_token_specs validate_admin_config
  daemon_config f = do
    fail_if (not (known_log_format f.log_format)) unknown_log_format
    fail_if (is_empty f.domain) domain_required
    tokens ← tokens_of_spec (or_env f.tokens_spec (env (codes "GATELET_TOKENS")))
    fail_if (not (validate_admin_config (admin_user_value f) (admin_password_value f))) bad_admin
    reserved ←
        names_of_spec bad_reserved_names
          (or_env f.reserved_names_spec (env (codes "GATELET_RESERVED_NAMES")))
    allowed ←
        names_of_spec bad_allow_names
          (or_env f.allow_names_spec (env (codes "GATELET_ALLOW_NAMES")))
    fail_if (is_empty (token_value f) && no_tokens tokens) token_missing
    ok (relay_config f tokens reserved allowed)

-- Whether the control listener speaks TLS.
unfoldable pub control_tls : DaemonFlags → Result Fatal Bool
control_tls f =
    if is_empty f.control_tls_cert && is_empty f.control_tls_key
    then ok false
    else if is_empty f.control_tls_cert || is_empty f.control_tls_key
    then err key_pair_incomplete
    else ok true
