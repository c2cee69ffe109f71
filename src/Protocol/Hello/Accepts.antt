-- ===== src/Protocol/Hello/Accepts.antt =====
-- Which messages the parsers accept.
use gatelet.Prelude.{
  ◌≡◌, refl, sym, ap, ◌∙◌, ◌≢◌, ◌↔◌, ◌⊎◌, inl, inr, false, Option, some, [], ◌∷◌, arith, Bool-cases,
  Option-cases, ok, Bytes, bytes_beq_iff, is_empty,
}
use gatelet.Protocol.Name.{validate_name, IsLabel, validate_name-IsLabel}
use gatelet.Protocol.Hello.{
  ClientHello, ClientChallengeResponse, tunnel_type_http, check_hello, parse_client_hello,
  IsAcceptable, parse_client_challenge_response, default_token_id, effective_token_id,
}

-- Every accepted hello is acceptable, and it is the message with its tunnel type filled in.
check_hello_sound :
    (raw hello : ClientHello)
    → check_hello raw ≡ ok hello
    → IsAcceptable raw × (hello ≡ record raw { tunnel_type = tunnel_type_http })
unfolding check_hello
check_hello_sound raw hello e =
    ground (arith, validate_name-IsLabel raw.name, bytes_beq_iff raw.tunnel_type tunnel_type_http)

check_hello_complete :
    (raw : ClientHello)
    → IsAcceptable raw
    → check_hello raw ≡ ok (record raw { tunnel_type = tunnel_type_http })
unfolding check_hello
check_hello_complete raw a =
    ground (arith, validate_name-IsLabel raw.name, bytes_beq_iff raw.tunnel_type tunnel_type_http)

-- `ParseClientHello` accepts exactly the lines that decode to a message with a valid name, a version
-- from 1 to 3, a client version, the type "http" or none, and either no credentials or both; the
-- hello it returns is the decoded message with the type "http".
pub parse_client_hello_iff :
    (unmarshal : Bytes → Option ClientHello) (line : Bytes) (hello : ClientHello)
    → (parse_client_hello unmarshal line ≡ ok hello) ↔ (
        (raw : ClientHello) × (unmarshal line ≡ some raw)
        × IsAcceptable raw
        × (hello ≡ record raw { tunnel_type = tunnel_type_http }))
unfolding parse_client_hello
parse_client_hello_iff unmarshal line hello = (to, from)
  where
    to :
        parse_client_hello unmarshal line ≡ ok hello
        → (raw : ClientHello) × (unmarshal line ≡ some raw)
          × IsAcceptable raw
          × (hello ≡ record raw { tunnel_type = tunnel_type_http })
    to e = elim (Option-cases (unmarshal line)) [
      | inl missing ↦ absurd (ground arith)
      | inr (raw, found) ↦
          let (a, same) = check_hello_sound raw hello (rw (found, parse_client_hello) at e) in
          (raw, found, a, same)
    ]

    from :
        ((raw : ClientHello) × (unmarshal line ≡ some raw)
          × IsAcceptable raw
          × (hello ≡ record raw { tunnel_type = tunnel_type_http }))
        → parse_client_hello unmarshal line ≡ ok hello
    from (raw, found, a, same) =
        rw (found, parse_client_hello) (check_hello_complete raw a ∙ ap ok (sym same))

default_token_id-IsLabel : IsLabel default_token_id
unfolding validate_name
default_token_id-IsLabel = (validate_name-IsLabel default_token_id).0 refl

-- An accepted response names a valid token id, the default one if it gave none, and is not empty.
pub parse_client_challenge_response_sound :
    (unmarshal : Bytes → Option ClientChallengeResponse) (line : Bytes)
    (r : ClientChallengeResponse)
    → parse_client_challenge_response unmarshal line ≡ ok r
    → IsLabel (effective_token_id r) × (r.response ≢ []) × (unmarshal line ≡ some r)
unfolding parse_client_challenge_response effective_token_id
parse_client_challenge_response_sound unmarshal line r e =
    ground (arith, validate_name-IsLabel r.token_id, default_token_id-IsLabel)

pub filled : (s : Bytes) → s ≢ [] → is_empty s ≡ false
filled [] h = absurd (h refl)
filled (c ∷ s) h = refl

pub parse_client_challenge_response_complete :
    (unmarshal : Bytes → Option ClientChallengeResponse) (line : Bytes)
    (r : ClientChallengeResponse)
    → unmarshal line ≡ some r
    → (r.token_id ≡ []) ⊎ (validate_name r.token_id ≡ ok tt)
    → r.response ≢ []
    → parse_client_challenge_response unmarshal line ≡ ok r
unfolding parse_client_challenge_response
parse_client_challenge_response_complete unmarshal line r e (inl none_given) answer =
    rw (e, none_given, filled r.response answer, parse_client_challenge_response)
parse_client_challenge_response_complete unmarshal line r e (inr valid) answer =
    elim (Bool-cases (is_empty r.token_id)) [
      | inl blank ↦ rw (e, blank, filled r.response answer, parse_client_challenge_response)
      | inr given ↦ rw (e, given, valid, filled r.response answer, parse_client_challenge_response)
    ]
