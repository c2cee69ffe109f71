-- ===== src/Protocol/Tests.antt =====
-- The theorems on the protocol at concrete inputs, and tests.
use gatelet.Prelude.{
  ℕ, ◌+◌, ◌%◌, ◌≡◌, refl, ◌≢◌, ◌↔◌, ◌⊎◌, true, false, none, some, [], ◌∷◌, arith, All, ok, Bytes,
  codes, pos,
}
use gatelet.Protocol.Name.{validate_name, validate_name-IsLabel, IsLabel}
use gatelet.Protocol.Line.{Reader, read_line, served, line_of, read_line-served}
use gatelet.Protocol.Challenge.{
  hex_encode, mac_input, challenge_response, valid_challenge_response, IsByte,
  valid_challenge_response_binds,
}
use gatelet.Protocol.Hello.{
  ClientHello, ClientChallengeResponse, tunnel_type_http, parse_client_hello, IsAcceptable,
}
use gatelet.Protocol.Hello.Accepts.{parse_client_hello_iff}

validate_name-IsLabel_example :
    (validate_name (codes "my-app-1") ≡ ok tt) ↔ IsLabel (codes "my-app-1")
validate_name-IsLabel_example = validate_name-IsLabel (codes "my-app-1")

my_app_valid : validate_name (codes "my-app-1") ≡ ok tt
unfolding validate_name
my_app_valid = refl

read_line-served_example : read_line (served (codes "OK\nrest")) 8 ≡ line_of 8 (codes "OK\nrest")
read_line-served_example = read_line-served 8 (codes "OK\nrest")

-- The reader fails together with the byte behind the line.
abbrev short_reader : Reader
short_reader =
    record { byte = some b'a'; failed = false }
    ∷ record { byte = none; failed = false }
    ∷ record { byte = some b'\n'; failed = true }
    ∷ []

short_line : read_line short_reader 4 ≡ ok (codes "a\n", [])
unfolding read_line
short_line = refl

-- A MAC of one byte, the sum of the message.
abbrev toy_sum : Bytes → ℕ
toy_sum [] = 0
toy_sum (b ∷ bs) = (b + toy_sum bs) % 256

abbrev toy_hmac : Bytes → Bytes → Bytes
toy_hmac key message = (toy_sum message % 256) ∷ []

toy_hmac_bytes : (k s : Bytes) → All IsByte (toy_hmac k s)
toy_hmac_bytes k s = omega arith

toy_collision :
    valid_challenge_response toy_hmac
      (codes "ba")
      (codes "n")
      []
      (challenge_response toy_hmac (codes "ab") (codes "n") [])
    ≡ true
unfolding valid_challenge_response challenge_response hex_encode mac_input
toy_collision = refl

valid_challenge_response_binds_example :
    ((codes "ab" ≡ codes "ba") × (codes "n" ≡ codes "n"))
    ⊎ ((mac_input (codes "ab") (codes "n") ≢ mac_input (codes "ba") (codes "n"))
        × (toy_hmac [] (mac_input (codes "ab") (codes "n"))
            ≡ toy_hmac [] (mac_input (codes "ba") (codes "n"))))
unfolding validate_name
valid_challenge_response_binds_example =
    valid_challenge_response_binds toy_hmac (codes "ab") (codes "ba") (codes "n") (codes "n") []
      toy_hmac_bytes refl refl toy_collision

abbrev plain_hello : ClientHello
plain_hello = record {
  name = codes "alex";
  protocol_version = pos 3;
  client_version = codes "dev";
  tunnel_type = [];
  http_basic_auth = none;
}

parse_client_hello_iff_example :
    (parse_client_hello (λ line. some plain_hello) []
      ≡ ok (record plain_hello { tunnel_type = tunnel_type_http }))
    ↔ ((raw : ClientHello) × (some plain_hello ≡ some raw)
        × IsAcceptable raw
        × (record plain_hello { tunnel_type = tunnel_type_http }
            ≡ record raw { tunnel_type = tunnel_type_http }))
parse_client_hello_iff_example =
    parse_client_hello_iff (λ line. some plain_hello) []
      (record plain_hello { tunnel_type = tunnel_type_http })

abbrev plain_response : ClientChallengeResponse
plain_response = record { token_id = []; response = codes "00" }
