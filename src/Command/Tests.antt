-- ===== src/Command/Tests.antt =====
-- The theorems on the flags at concrete inputs, and tests.
use gatelet.Prelude.{
  ◌≡◌, refl, true, false, some, List, [], ◌∷◌, ok, codes, strip_suffix, trim_space, cut, split,
}
use gatelet.Protocol.Name.{validate_name}
use gatelet.Server.Names.{Token}
use gatelet.Command.Specs.{
  parse_name_list, parse_token_spec, parse_token_specs, validate_admin_config,
  parse_basic_auth_spec,
}

two_names : parse_name_list (codes "a,, b") ≡ ok (codes "a" ∷ codes "b" ∷ [])
unfolding parse_name_list split trim_space validate_name
two_names = refl

abbrev two_tokens : List Token
two_tokens =
    record { id = codes "ci"; value = codes "x=y"; active = true }
    ∷ record { id = codes "old"; value = codes "z"; active = false }
    ∷ []

two_specs : parse_token_specs (codes "ci=x=y, old = z:inactive") ≡ ok two_tokens
unfolding parse_token_specs parse_token_spec split trim_space validate_name cut strip_suffix
two_specs = refl

user_alone : validate_admin_config (codes "root") [] ≡ false
unfolding validate_admin_config
user_alone = refl

colon_in_password : parse_basic_auth_spec (codes "u:p:q") ≡ some (codes "u", codes "p:q")
unfolding parse_basic_auth_spec cut
colon_in_password = refl
