-- ===== src/Server/Names.antt =====
-- The configuration of the relay: tokens, reserved names and allowed names, and the part of `New`
-- that normalises them. The logger, the clock and the heartbeat are left out.
pub mod Laws
use gatelet.Prelude.{
  Bool, true, false, ◌||◌, Option, none, some, List, [], ◌∷◌, if◌then◌else◌, nat_eq, GoMap, lookup,
  insert, Bytes, codes, bytes_eq, is_empty, trim_prefix, trim_suffix, to_lower, trim_space,
}

pub record Token : Type 0 where
  pub id : Bytes
  pub value : Bytes
  pub active : Bool

pub record Config : Type 0 where
  pub domain : Bytes
  pub token : Bytes
  pub tokens : List Token
  pub admin_user : Bytes
  pub admin_password : Bytes
  pub reserved_names : List Bytes
  pub allow_names : List Bytes

abbrev pub NameSet : Type 0
NameSet = GoMap Bytes (Unit {0})

-- The fields of `Server` that no operation changes.
pub record Settings : Type 0 where
  pub domain : Bytes
  pub tokens : GoMap Bytes Token
  pub reserved_names : NameSet
  pub allow_names : NameSet
  pub admin_user : Bytes
  pub admin_password : Bytes
  pub admin_action_token : Bytes

-- Lower case, without one dot before and one behind.
unfoldable pub normalize_dns_name : Bytes → Bytes
normalize_dns_name name = trim_suffix (codes ".") (trim_prefix (codes ".") (to_lower name))

abbrev pub normalize_name : Bytes → Bytes
normalize_name name = to_lower (trim_space name)

-- The loop of `normalizeNameSet`.
add_names : NameSet → List Bytes → NameSet
add_names set [] = set
add_names set (n ∷ ns) =
    let name = normalize_name n in add_names (if is_empty name then set else insert name tt set) ns

unfoldable pub normalize_name_set : List Bytes → NameSet
unfolding add_names
normalize_name_set names = add_names [] names

-- The loop of `normalizeReservedNames`, which takes the configured names as they are.
add_reserved : NameSet → List Bytes → NameSet
add_reserved set [] = set
add_reserved set (n ∷ ns) = add_reserved (if is_empty n then set else insert n tt set) ns

abbrev pub built_in_names : List Bytes
built_in_names = codes "admin" ∷ codes "www" ∷ codes "api" ∷ codes "metrics" ∷ []

unfoldable pub normalize_reserved_names : List Bytes → NameSet
unfolding add_reserved normalize_name_set
normalize_reserved_names names = add_reserved (normalize_name_set built_in_names) names

-- The loop of `normalizeTokens`.
add_tokens : GoMap Bytes Token → List Token → GoMap Bytes Token
add_tokens tokens [] = tokens
add_tokens tokens (t ∷ ts) =
    add_tokens (if is_empty t.id || is_empty t.value then tokens else insert t.id t tokens) ts

abbrev pub default_token : Bytes → Token
default_token value = record { id = codes "default"; value = value; active = true }

unfoldable pub normalize_tokens : Config → GoMap Bytes Token
unfolding add_tokens
normalize_tokens c =
    add_tokens
      (if is_empty c.token then [] else insert (codes "default") (default_token c.token) [])
      c.tokens

-- `New`; the action token is what `newAdminActionToken` drew.
unfoldable pub new_settings : Config → Bytes → Settings
unfolding normalize_dns_name normalize_tokens normalize_reserved_names normalize_name_set
new_settings c action_token = record {
  domain = normalize_dns_name c.domain;
  tokens = normalize_tokens c;
  reserved_names = normalize_reserved_names c.reserved_names;
  allow_names = normalize_name_set c.allow_names;
  admin_user = c.admin_user;
  admin_password = c.admin_password;
  admin_action_token = action_token;
}

abbrev pub only_active : Option Token → Option Token
only_active none = none
only_active (some t) = if t.active then some t else none

-- `Server.token`.
unfoldable pub token : Settings → Bytes → Option Token
token s id = only_active (lookup id s.tokens)

abbrev pub is_some {ℓ} : {A : Type ℓ} → Option A → Bool
is_some none = false
is_some (some a) = true

abbrev pub is_nil {ℓ} : {A : Type ℓ} → List A → Bool
is_nil [] = true
is_nil (x ∷ xs) = false

unfoldable pub name_allowed : Settings → Bytes → Bool
name_allowed s name =
    if is_some (lookup name s.reserved_names)
    then false
    else if is_nil s.allow_names
    then true
    else is_some (lookup name s.allow_names)
