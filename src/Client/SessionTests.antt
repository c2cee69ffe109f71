-- ===== src/Client/SessionTests.antt =====
-- The theorems on sessions at concrete inputs, and tests.
use gatelet.Prelude.{
  ℕ, ◌≡◌, refl, inl, Bool, true, false, Option, none, some, [], ◌∷◌, ◌++◌, arith, if◌then◌else◌,
  ◌==◌, nat_eq, lookup, Bytes, codes, bytes_eq,
}
use gatelet.Protocol.Name.{validate_name}
use gatelet.Protocol.Line.{served, read_line}
use gatelet.Protocol.Hello.{effective_token_id, parse_server_challenge}
use gatelet.Server.Names.{Settings, token, name_allowed}
use gatelet.Server.Registry.{no_tunnels, reserve_name, register}
use gatelet.Server.Handshake.{Backend, Control, serving, handle_control_conn}
use gatelet.Client.Session.{
  Config, hello_of, answer_to, session_closed, Wire, written, stream_error, await_challenge,
  await_verdict, shake_hands, run_session,
}
use gatelet.Client.Session.Admitted.{handshake_completes}

abbrev ada : Config
ada = record {
  name = codes "ada";
  token = codes "k";
  token_id = [];
  http_basic_auth_user = [];
  http_basic_auth_password = [];
  client_version = codes "v1";
}

-- A keyed function, and JSON in one word for each message.
abbrev shown_mac : Bytes → Bytes → Bytes
shown_mac key message = 1 ∷ (key ++ message)

abbrev nonce : Bytes
nonce = codes "n"

abbrev decode_as {ℓ} : {A : Type ℓ} → Bytes → A → Bytes → Option A
decode_as line a l = if l == line then some a else none

abbrev backend : Backend
backend = record {
  decode_hello = decode_as (codes "{h\n") (hello_of ada);
  decode_response = decode_as (codes "{r\n") (answer_to shown_mac ada (record { nonce = nonce }));
  hmac = shown_mac;
}

abbrev one_key : Settings
one_key = record {
  domain = codes "t.io";
  tokens =
      (codes "default", record { id = codes "default"; value = codes "k"; active = true }) ∷ [];
  reserved_names = [];
  allow_names = [];
  admin_user = [];
  admin_password = [];
  admin_action_token = [];
}

abbrev conn : Control
conn = record {
  reader = served (codes "{h\n{r\n");
  nonce = some nonce;
  challenge_sent = true;
  ok_sent = true;
  session_starts = true;
  remote = codes "peer";
  session = 3;
  now = 1;
}

abbrev wire : Wire
wire = record {
  dial_error = none;
  reader = served (codes "{c\nOK\n");
  hello_sent = true;
  response_sent = true;
  session_starts = true;
  ends = session_closed;
  fault = [];
}

nobody_closed : ℕ → Bool
nobody_closed c = false

handshake_completes_example :
    (handle_control_conn backend one_key nobody_closed no_tunnels conn ≡ (
      register
          (reserve_name nobody_closed no_tunnels (codes "ada") (codes "peer")).0
          (hello_of ada)
          3
          (codes "peer")
          1,
      serving (hello_of ada),
    ))
    × (run_session (decode_as (codes "{c\n") (record { nonce = nonce })) wire
        ≡ (true, stream_error session_closed))
unfolding validate_name name_allowed token effective_token_id answer_to lookup reserve_name written
    await_challenge read_line parse_server_challenge
handshake_completes_example =
    handshake_completes backend one_key (decode_as (codes "{c\n") (record { nonce = nonce }))
      (λ c. codes "{c\n") (λ h. codes "{h\n") (λ a. codes "{r\n") ada wire conn nobody_closed
      no_tunnels nonce (record { id = codes "default"; value = codes "k"; active = true })
      (λ k m e. cc) refl (λ e. cc) (inl refl) refl refl refl refl (λ e. cc)
      (record {
        round = refl;
        line = (λ e. cc, (λ e. cc, refl));
        fits = omega arith;
        object = (_, refl);
      })
      (record {
        round = refl;
        line = (λ e. cc, (λ e. cc, refl));
        fits = omega arith;
        object = (_, refl);
      })
      (record {
        round = refl;
        line = (λ e. cc, (λ e. cc, refl));
        fits = omega arith;
        object = (_, refl);
      })
      (refl, refl, refl, refl) (refl, refl, refl) refl refl refl

wire_connects : (run_session (decode_as (codes "{c\n") (record { nonce = nonce })) wire).0 ≡ true
unfolding run_session shake_hands await_challenge await_verdict read_line parse_server_challenge
wire_connects = refl
