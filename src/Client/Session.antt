-- ===== src/Client/Session.antt =====
-- internal/client/client.go: `runSession`, the client's side of the handshake, and its errors. What
-- the connection brings is a record: whether each call succeeds, the text of the system's error where
-- one fails, and the reader.
pub mod Messages
pub mod Admitted
pub mod Connected
use gatelet.Prelude.{
  ℕ, Bool, true, false, not, ◌&&◌, Option, none, some, ◌++◌, if◌then◌else◌, ◌==◌, nat_eq, Result,
  ok, err, ◌>>=◌, ◌>>◌, fail_if, map_err, Bytes, codes, bytes_eq, is_empty, starts_with, trim_space,
}
use gatelet.Protocol.Line.{Reader, ReadError, line_too_long, read_failed, read_line}
use gatelet.Protocol.Challenge.{challenge_response}
use gatelet.Protocol.Hello.{
  ClientHello, ServerChallenge, ClientChallengeResponse, default_token_id, tunnel_type_http,
  current_protocol_version, parse_server_challenge,
}
use gatelet.Client.Reconnect.{ControlError}

abbrev pub max_handshake_response_bytes : ℕ
max_handshake_response_bytes = 1024

abbrev pub default_client_version : Bytes
default_client_version = codes "gatelet-dev"

abbrev pub handshake_ok : Bytes
handshake_ok = codes "OK\n"

-- The fields that a session uses.
pub record Config : Type 0 where
  pub name : Bytes
  pub token : Bytes
  pub token_id : Bytes
  pub http_basic_auth_user : Bytes
  pub http_basic_auth_password : Bytes
  pub client_version : Bytes

-- What `Run` fills in.
unfoldable pub with_defaults : Config → Config
with_defaults c = record c {
  client_version = if is_empty c.client_version then default_client_version else c.client_version;
  token_id = if is_empty c.token_id then default_token_id else c.token_id;
}

abbrev pub http_basic_auth_enabled : Config → Bool
http_basic_auth_enabled c =
    not (is_empty c.http_basic_auth_user) && not (is_empty c.http_basic_auth_password)

unfoldable pub hello_of : Config → ClientHello
hello_of c = record {
  name = c.name;
  protocol_version = current_protocol_version;
  client_version = c.client_version;
  tunnel_type = tunnel_type_http;
  http_basic_auth =
      if http_basic_auth_enabled c
      then some
          (record { username = c.http_basic_auth_user; password = c.http_basic_auth_password })
      else none;
}

unfoldable pub answer_to :
    (Bytes → Bytes → Bytes) → Config → ServerChallenge → ClientChallengeResponse
answer_to hmac c challenge = record {
  token_id = c.token_id;
  response = challenge_response hmac c.name challenge.nonce c.token;
}

-- How the stream loop ends: the context is done, the session is closed, or this error.
pub data StreamEnd : Type 0 where
  context_done session_closed : StreamEnd
  accept_failed : Bytes → StreamEnd

pub record Wire : Type 0 where
  -- The error of `dialControl`, if it fails.
  pub dial_error : Option Bytes
  pub reader : Reader
  pub hello_sent : Bool
  pub response_sent : Bool
  pub session_starts : Bool
  pub ends : StreamEnd
  -- The text of the error of the call that fails.
  pub fault : Bytes

abbrev pub lost : Bytes → Bytes → ControlError
lost what detail = record { terminal = false; text = what ++ (codes ": " ++ detail) }

abbrev pub terminal_error : Bytes → ControlError
terminal_error text = record { terminal = true; text = text }

abbrev read_error_text : Bytes → ReadError → Bytes
read_error_text fault line_too_long = codes "line is too long"
read_error_text fault read_failed = codes "read line: " ++ fault

abbrev pub says_error : Bytes → Bool
says_error line = starts_with (codes "ERR ") line

-- Up to the server's challenge, with the reader behind it.
unfoldable pub await_challenge :
    (Bytes → Option ServerChallenge) → Wire → Result ControlError (ServerChallenge × Reader)
await_challenge decode w = do
  fail_if (not w.hello_sent) (lost (codes "send client hello") w.fault)
  first ←
      map_err (λ e. lost (codes "read server challenge") (read_error_text w.fault e))
        (read_line w.reader max_handshake_response_bytes)
  fail_if (says_error first.0) (terminal_error (trim_space first.0))
  challenge ←
      map_err (λ e. terminal_error (codes "parse server challenge: " ++ w.fault))
        (parse_server_challenge decode first.0)
  ok (challenge, first.1)

-- From the response to the start of the session.
unfoldable pub await_verdict : Wire → Reader → Result ControlError (Unit {0})
await_verdict w r = do
  fail_if (not w.response_sent) (lost (codes "send challenge response") w.fault)
  second ←
      map_err (λ e. lost (codes "read authentication response") (read_error_text w.fault e))
        (read_line r max_handshake_response_bytes)
  fail_if (says_error second.0) (terminal_error (trim_space second.0))
  fail_if (not (second.0 == handshake_ok)) (terminal_error (codes "authentication failed"))
  fail_if (not w.session_starts) (lost (codes "start tunnel session") w.fault)
  ok tt

unfoldable pub shake_hands :
    (Bytes → Option ServerChallenge) → Wire → Result ControlError (Unit {0})
shake_hands decode w = do challenge ← await_challenge decode w; await_verdict w challenge.1

-- What the client has written when it awaits the verdict.
unfoldable pub written :
    (ClientHello → Bytes)
    → (ClientChallengeResponse → Bytes)
    → (Bytes → Bytes → Bytes)
    → (Bytes → Option ServerChallenge)
    → Config
    → Wire
    → Bytes
written encode_hello encode_response hmac decode c w = elim (await_challenge decode w) [
  | err e ↦ encode_hello (hello_of c)
  | ok challenge ↦ encode_hello (hello_of c) ++ encode_response (answer_to hmac c challenge.0)
]

abbrev pub stream_error : StreamEnd → Option ControlError
stream_error context_done = none
stream_error session_closed =
    some (record { terminal = false; text = codes "control session closed" })
stream_error (accept_failed detail) = some (lost (codes "accept tunnel stream") detail)

-- Whether the session was connected, and the error.
unfoldable pub run_session : (Bytes → Option ServerChallenge) → Wire → Bool × Option ControlError
run_session decode w = elim w.dial_error [
  | some detail ↦ (false, some (lost (codes "connect server") detail))
  | none ↦ elim (shake_hands decode w) [
    | err e ↦ (false, some e)
    | ok done ↦ (true, stream_error w.ends)
  ]
]
