-- ===== src/Server/Host.antt =====
-- The tunnel name in a request's host: `net.SplitHostPort`, `nameFromHost` and `isAdminHost`.
pub mod Laws
pub mod Named
use gatelet.Prelude.{
  ◌+◌, Bool, true, false, not, ◌&&◌, ◌||◌, Option, none, some, ◌∷◌, if◌then◌else◌, ◌==◌, nat_eq,
  length, drop, Result, ok, err, Bytes, codes, bytes_eq, starts_with, strip_suffix, has_byte, cut,
  cut_last,
}
use gatelet.Protocol.Name.{NameError, validate_name}
use gatelet.Server.Names.{normalize_dns_name}

abbrev starts_with_bracket : Bytes → Bool
starts_with_bracket = starts_with (codes "[")

-- `[host]:port`: the last colon must stand right behind the first closing bracket.
split_bracketed : Bytes → Bytes → Bytes → Option (Bytes × Bytes)
split_bracketed hostport before port = elim (cut b']' hostport) [
  | none ↦ none
  | some (opened, behind) ↦
      if length before == length opened + 1
        && not (has_byte b'[' (drop 1 hostport))
        && not (has_byte b']' behind)
      then some (drop 1 opened, port)
      else none
]

split_plain : Bytes → Bytes → Bytes → Option (Bytes × Bytes)
split_plain hostport before port =
    if has_byte b':' before || has_byte b'[' hostport || has_byte b']' hostport
    then none
    else some (before, port)

-- The host and the port, or `none` for an address error.
unfoldable pub split_host_port : Bytes → Option (Bytes × Bytes)
unfolding split_bracketed split_plain cut_last
split_host_port hostport = elim (cut_last b':' hostport) [
  | none ↦ none
  | some (before, port) ↦
      if starts_with_bracket hostport
      then split_bracketed hostport before port
      else split_plain hostport before port
]

-- The host without its port, if it has one, in normal form.
unfoldable pub canonical_host : Bytes → Bytes
canonical_host host = elim (split_host_port host) [
  | none ↦ normalize_dns_name host
  | some (h, port) ↦ normalize_dns_name h
]

is_valid : Result NameError (Unit {0}) → Bool
is_valid (ok u) = true
is_valid (err e) = false

-- `nameFromHost` of a server with this domain.
unfoldable pub name_from_host : Bytes → Bytes → Option Bytes
unfolding is_valid
name_from_host domain host = elim (strip_suffix (b'.' ∷ domain) (canonical_host host)) [
  | none ↦ none
  | some name ↦
      if has_byte b'.' name then none else if is_valid (validate_name name) then some name else none
]

unfoldable pub is_admin_host : Bytes → Bytes → Bool
is_admin_host domain host = canonical_host host == domain
