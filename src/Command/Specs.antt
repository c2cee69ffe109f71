-- ===== src/Command/Specs.antt =====
-- cmd/gateletd/main.go and cmd/gatelet/main.go: the lists of names and tokens, the credentials.
pub mod Sound
use gatelet.Prelude.{
  Bool, true, false, not, ◌&&◌, ◌||◌, Option, none, some, List, [], ◌∷◌, if◌then◌else◌, Result, ok,
  err, ◌>>=◌, ◌>>◌, fail_if, map_err, Bytes, codes, is_empty, strip_suffix, trim_space, has_byte,
  cut, split,
}
use gatelet.Protocol.Name.{NameError, validate_name}
use gatelet.Server.Names.{Token}

names_of : List Bytes → Result NameError (List Bytes)
names_of [] = ok []
names_of (part ∷ parts) =
    let rest = names_of parts in
    if is_empty (trim_space part)
    then rest
    else do validate_name (trim_space part); names ← rest; ok (trim_space part ∷ names)

unfoldable pub parse_name_list : Bytes → Result NameError (List Bytes)
unfolding names_of
parse_name_list spec = names_of (split b',' spec)

pub data SpecError : Type 0 where
  not_id_value empty_id empty_value unknown_status : SpecError
  invalid_id : NameError → SpecError

abbrev status_of : Bytes → Result SpecError (Bytes × Bool)
status_of value = elim (strip_suffix (codes ":active") value) [
  | some v ↦ ok (v, true)
  | none ↦ elim (strip_suffix (codes ":inactive") value) [
    | some v ↦ ok (v, false)
    | none ↦ if has_byte b':' value then err unknown_status else ok (value, true)
  ]
]

-- The checks behind the cut.
token_of : Bytes → Bytes → Result SpecError Token
token_of id value = do
  fail_if (is_empty id) empty_id
  map_err invalid_id (validate_name id)
  fail_if (is_empty value) empty_value
  status ← status_of value
  fail_if (is_empty status.0) empty_value
  ok (record { id = id; value = status.0; active = status.1 })

-- One part of the list, trimmed and not empty.
unfoldable pub parse_token_spec : Bytes → Result SpecError Token
unfolding token_of
parse_token_spec part = elim (cut b'=' part) [
  | none ↦ err not_id_value
  | some (id, value) ↦ token_of (trim_space id) (trim_space value)
]

tokens_of : List Bytes → Result SpecError (List Token)
tokens_of [] = ok []
tokens_of (part ∷ parts) =
    let rest = tokens_of parts in
    if is_empty (trim_space part)
    then rest
    else do token ← parse_token_spec (trim_space part); tokens ← rest; ok (token ∷ tokens)

unfoldable pub parse_token_specs : Bytes → Result SpecError (List Token)
unfolding tokens_of
parse_token_specs spec = tokens_of (split b',' spec)

-- Whether it returns nil.
unfoldable pub validate_admin_config : Bytes → Bytes → Bool
validate_admin_config user password =
    if is_empty user && is_empty password then true else not (is_empty user || is_empty password)

unfoldable pub parse_basic_auth_spec : Bytes → Option (Bytes × Bytes)
parse_basic_auth_spec value = elim (cut b':' value) [
  | none ↦ none
  | some (user, password) ↦
      if is_empty user || is_empty password then none else some (user, password)
]
