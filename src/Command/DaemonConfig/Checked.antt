-- ===== src/Command/DaemonConfig/Checked.antt =====
-- What a configuration that the relay starts with satisfies.
use gatelet.Prelude.{
  ◌≡◌, sym, ap, subst, false, not, ◌&&◌, List, [], ◌∷◌, arith, All, Result, ok, err, Bytes, codes,
  is_empty, >>=-eq-ok, >>-eq-ok, map_err-eq-ok,
}
use gatelet.Protocol.Name.{NameError, IsLabel}
use gatelet.Server.Names.{Token, Config}
use gatelet.Command.Specs.{validate_admin_config}
use gatelet.Command.Specs.Sound.{parse_name_list_iff, IsUsable, parse_token_specs-IsUsable}
use gatelet.Command.ClientConfig.{or_env}
use gatelet.Command.DaemonConfig.{
  DaemonFlags, Fatal, tokens_of_spec, names_of_spec, no_tokens, token_value, admin_user_value,
  admin_password_value, relay_config, daemon_config, known_log_format, bad_tokens,
  bad_reserved_names, bad_allow_names,
}

abbrev pub IsSafe : Config → Type 0
IsSafe c =
    (is_empty c.domain ≡ false)
    × All IsUsable c.tokens
    × All IsLabel c.reserved_names
    × All IsLabel c.allow_names
    × (is_empty c.admin_user ≡ is_empty c.admin_password)
    × (is_empty c.token && no_tokens c.tokens ≡ false)

tokens_of_spec-IsUsable :
    (spec : Bytes) (ts : List Token) → tokens_of_spec spec ≡ ok ts → All IsUsable ts
tokens_of_spec-IsUsable [] [] e = tt
tokens_of_spec-IsUsable [] (t ∷ ts) e = cc
tokens_of_spec-IsUsable (c ∷ cs) ts e =
    parse_token_specs-IsUsable (c ∷ cs) ts (map_err-eq-ok bad_tokens _ e)

names_of_spec-IsLabel :
    (bad : NameError → Fatal) (spec : Bytes) (names : List Bytes)
    → names_of_spec bad spec ≡ ok names
    → All IsLabel names
names_of_spec-IsLabel bad [] [] e = tt
names_of_spec-IsLabel bad [] (n ∷ ns) e = cc
names_of_spec-IsLabel bad (c ∷ cs) names e =
    let (same, labels) = (parse_name_list_iff (c ∷ cs) names).0 (map_err-eq-ok bad _ e) in
    subst (All IsLabel) (sym same) labels

validate_admin_config_lem :
    (user password : Bytes)
    → not (validate_admin_config user password) ≡ false
    → is_empty user ≡ is_empty password
unfolding validate_admin_config
validate_admin_config_lem user password e = ground arith

config_inj : (a b : Config) → Path (Result Fatal Config) (ok a) (ok b) → a ≡ b
config_inj a b e = ap (λ r. elim r [ ok c ↦ c | err _ ↦ a ]) e

-- A configuration that the relay starts with has a domain, a token or a list of tokens, tokens with a
-- label and a value, lists of names that are labels, and admin credentials that are both given or not.
daemon_config-IsSafe :
    (env : Bytes → Bytes) (f : DaemonFlags) (c : Config) → daemon_config env f ≡ ok c → IsSafe c
unfolding daemon_config
daemon_config-IsSafe env f c h =
    let (logged, h1) = >>-eq-ok (not (known_log_format f.log_format)) _ _ h in
    let (based, h2) = >>-eq-ok (is_empty f.domain) _ _ h1 in
    let (tokens, parsed, h3) =
      >>=-eq-ok (tokens_of_spec (or_env f.tokens_spec (env (codes "GATELET_TOKENS")))) _ h2 in
    let (paired, h4) =
      >>-eq-ok (not (validate_admin_config (admin_user_value env f) (admin_password_value env f))) _
        _ h3 in
    let (reserved, r_ok, h5) =
      >>=-eq-ok
        (names_of_spec bad_reserved_names
          (or_env f.reserved_names_spec (env (codes "GATELET_RESERVED_NAMES"))))
        _ h4 in
    let (allowed, a_ok, h6) =
      >>=-eq-ok
        (names_of_spec bad_allow_names
          (or_env f.allow_names_spec (env (codes "GATELET_ALLOW_NAMES"))))
        _ h5 in
    let (secured, h7) = >>-eq-ok (is_empty (token_value env f) && no_tokens tokens) _ _ h6 in
    subst IsSafe (config_inj (relay_config env f tokens reserved allowed) c h7) (
      based,
      tokens_of_spec-IsUsable _ tokens parsed,
      names_of_spec-IsLabel bad_reserved_names _ reserved r_ok,
      names_of_spec-IsLabel bad_allow_names _ allowed a_ok,
      validate_admin_config_lem (admin_user_value env f) (admin_password_value env f) paired,
      secured,
    )
