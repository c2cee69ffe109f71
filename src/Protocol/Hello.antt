-- ===== src/Protocol/Hello.antt =====
-- The three messages of the handshake and their parsers. `json.Unmarshal` into each message is an
-- argument, `none` where it returns an error; all that the parsers do with its result is here.
pub mod Accepts
use gatelet.Prelude.{
  ◌≡◌, ◌≢◌, ◌⊎◌, Bool, false, not, ◌||◌, Option, none, some, [], if◌then◌else◌, ◌==◌, nat_eq,
  Result, ok, ◌>>=◌, ◌>>◌, fail_if, map_err, or_fail, Bytes, codes, bytes_eq, is_empty, ℤ, pos,
  ltbℤ, ◌≤ℤ◌,
}
use gatelet.Protocol.Name.{NameError, validate_name, IsLabel}

pub record HttpBasicAuthConfig : Type 0 where
  pub username : Bytes
  pub password : Bytes

pub record ClientHello : Type 0 where
  pub name : Bytes
  pub protocol_version : ℤ
  pub client_version : Bytes
  pub tunnel_type : Bytes
  pub http_basic_auth : Option HttpBasicAuthConfig

pub record ServerChallenge : Type 0 where
  pub nonce : Bytes

pub record ClientChallengeResponse : Type 0 where
  pub token_id : Bytes
  pub response : Bytes

abbrev pub default_token_id : Bytes
default_token_id = codes "default"

abbrev pub tunnel_type_http : Bytes
tunnel_type_http = codes "http"

abbrev pub minimum_protocol_version : ℤ
minimum_protocol_version = pos 1

abbrev pub current_protocol_version : ℤ
current_protocol_version = pos 3

pub data HelloError : Type 0 where
  malformed client_version_required basic_auth_incomplete nonce_required response_required :
      HelloError
  bad_name bad_token_id : NameError → HelloError
  unsupported_protocol : ℤ → HelloError
  unsupported_tunnel_type : Bytes → HelloError

abbrev incomplete : Option HttpBasicAuthConfig → Bool
incomplete none = false
incomplete (some auth) = is_empty auth.username || is_empty auth.password

abbrev default_to : Bytes → Bytes → Bytes
default_to fallback s = if is_empty s then fallback else s

-- The checks behind `json.Unmarshal`.
check_hello : ClientHello → Result HelloError ClientHello
check_hello hello = do
  map_err bad_name (validate_name hello.name)
  fail_if
      (ltbℤ hello.protocol_version minimum_protocol_version
        || ltbℤ current_protocol_version hello.protocol_version)
      (unsupported_protocol hello.protocol_version)
  fail_if (is_empty hello.client_version) client_version_required
  let hello' = record hello { tunnel_type = default_to tunnel_type_http hello.tunnel_type }
  fail_if (not (hello'.tunnel_type == tunnel_type_http))
      (unsupported_tunnel_type hello'.tunnel_type)
  fail_if (incomplete hello'.http_basic_auth) basic_auth_incomplete
  ok hello'

unfoldable pub parse_client_hello :
    (Bytes → Option ClientHello) → Bytes → Result HelloError ClientHello
unfolding check_hello
parse_client_hello unmarshal line = do hello ← or_fail (unmarshal line) malformed; check_hello hello

unfoldable pub parse_server_challenge :
    (Bytes → Option ServerChallenge) → Bytes → Result HelloError ServerChallenge
parse_server_challenge unmarshal line = do
  challenge ← or_fail (unmarshal line) malformed
  fail_if (is_empty challenge.nonce) nonce_required
  ok challenge

check_token_id : Bytes → Result HelloError (Unit {0})
check_token_id id = if is_empty id then ok tt else map_err bad_token_id (validate_name id)

unfoldable pub parse_client_challenge_response :
    (Bytes → Option ClientChallengeResponse) → Bytes → Result HelloError ClientChallengeResponse
unfolding check_token_id
parse_client_challenge_response unmarshal line = do
  response ← or_fail (unmarshal line) malformed
  check_token_id response.token_id
  fail_if (is_empty response.response) response_required
  ok response

unfoldable pub effective_token_id : ClientChallengeResponse → Bytes
effective_token_id r = default_to default_token_id r.token_id

-- What a hello must say to be accepted.
pub record IsAcceptable (raw : ClientHello) : Type 0 where
  pub name : IsLabel raw.name
  pub at_least : minimum_protocol_version ≤ℤ raw.protocol_version
  pub at_most : raw.protocol_version ≤ℤ current_protocol_version
  pub versioned : raw.client_version ≢ []
  pub kind : (raw.tunnel_type ≡ []) ⊎ (raw.tunnel_type ≡ tunnel_type_http)
  pub credentials :
      (raw.http_basic_auth ≡ none)
      ⊎ ((a : HttpBasicAuthConfig) × (raw.http_basic_auth ≡ some a)
          × (a.username ≢ [])
          × (a.password ≢ []))
