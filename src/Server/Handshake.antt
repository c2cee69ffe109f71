-- ===== src/Server/Handshake.antt =====
-- `handleControlConn` on one connection. What the connection brings is a record: the reader, the
-- random nonce, and whether each write and the start of the session succeed. The JSON decoders and
-- the MAC are parameters. Deadlines and logging are left out.
pub mod Sound
pub mod Complete
pub mod Trace
pub mod Refines
use gatelet.Prelude.{
  ℕ, Bool, false, not, Option, none, some, if◌then◌else◌, Result, ok, err, ◌>>=◌, ◌>>◌, fail_if,
  map_err, or_fail, Bytes, codes,
}
use gatelet.Protocol.Line.{Reader, read_line}
use gatelet.Protocol.Challenge.{valid_challenge_response}
use gatelet.Protocol.Hello.{
  ClientHello, ClientChallengeResponse, HelloError, unsupported_protocol, parse_client_hello,
  parse_client_challenge_response, effective_token_id,
}
use gatelet.Server.Names.{Settings, token, name_allowed}
use gatelet.Server.Registry.{Registry, reserve_name, release_reservation, register}

abbrev pub max_handshake_bytes : ℕ
max_handshake_bytes = 4096

abbrev pub handshake_ok : Bytes
handshake_ok = codes "OK\n"

abbrev pub handshake_err : Bytes
handshake_err = codes "ERR authentication failed\n"

abbrev pub handshake_name_not_allowed : Bytes
handshake_name_not_allowed = codes "ERR tunnel name not allowed\n"

abbrev pub handshake_name_in_use : Bytes
handshake_name_in_use = codes "ERR tunnel name already in use\n"

abbrev pub handshake_unsupported_protocol : Bytes
handshake_unsupported_protocol = codes "ERR unsupported protocol version\n"

-- What the server uses and does not implement.
pub record Backend : Type 0 where
  pub decode_hello : Bytes → Option ClientHello
  pub decode_response : Bytes → Option ClientChallengeResponse
  pub hmac : Bytes → Bytes → Bytes

-- One control connection as the handler meets it.
pub record Control : Type 0 where
  pub reader : Reader
  pub nonce : Option Bytes
  pub challenge_sent : Bool
  pub ok_sent : Bool
  pub session_starts : Bool
  pub remote : Bytes
  pub session : ℕ
  pub now : ℕ

-- The connection is closed, after this reply if there is one.
abbrev pub Refusal : Type 0
Refusal = Option Bytes

abbrev pub refuse_hello : HelloError → Refusal
refuse_hello (HelloError.unsupported_protocol v) = some handshake_unsupported_protocol
refuse_hello e = some handshake_err

-- The condition behind the second line: the response parses, its token is active and it is right.
authentic : Backend → Settings → Bytes → Bytes → Bytes → Bool
authentic b s name nonce line = elim (parse_client_challenge_response b.decode_response line) [
  | err e ↦ false
  | ok response ↦ elim (token s (effective_token_id response)) [
    | none ↦ false
    | some t ↦ valid_challenge_response b.hmac name nonce t.value response.response
  ]
]

-- The part before the reservation.
unfoldable pub authenticate : Backend → Settings → Control → Result Refusal ClientHello
unfolding authentic
authenticate b s c = do
  first ← map_err (λ e. none) (read_line c.reader max_handshake_bytes)
  hello ← map_err refuse_hello (parse_client_hello b.decode_hello first.0)
  fail_if (not (name_allowed s hello.name)) (some handshake_name_not_allowed)
  nonce ← or_fail c.nonce none
  fail_if (not c.challenge_sent) none
  second ← map_err (λ e. none) (read_line first.1 max_handshake_bytes)
  fail_if (not (authentic b s hello.name nonce second.0)) (some handshake_err)
  ok hello

pub data Outcome : Type 0 where
  refused : Refusal → Outcome
  ok_failed session_failed : Outcome
  serving : ClientHello → Outcome

-- The part from the reservation on.
settle : (ℕ → Bool) → Registry → Control → ClientHello → Registry × Outcome
settle closed r c hello =
    let (held, granted) = reserve_name closed r hello.name c.remote in
    if not granted
    then (held, refused (some handshake_name_in_use))
    else if not c.ok_sent
    then (release_reservation held hello.name c.remote, ok_failed)
    else if not c.session_starts
    then (release_reservation held hello.name c.remote, session_failed)
    else (register held hello c.session c.remote c.now, serving hello)

-- The state in which the handler waits for the session to close, or has returned.
unfoldable pub handle_control_conn :
    Backend → Settings → (ℕ → Bool) → Registry → Control → Registry × Outcome
unfolding settle
handle_control_conn b s closed r c = elim (authenticate b s c) [
  | err e ↦ (r, refused e)
  | ok hello ↦ settle closed r c hello
]
