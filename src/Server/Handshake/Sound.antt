-- ===== src/Server/Handshake/Sound.antt =====
-- Who is admitted.
use gatelet.Prelude.{
  ℕ, ◌≡◌, sym, ap, ◌∙◌, subst, inl, inr, Bool, true, false, not, none, some, arith, Option-cases,
  Result, ok, map_err, or_fail, Bytes, bytes_beq_iff, Result-cases, >>=-eq-ok, map_err-eq-ok,
  or_fail-eq-ok, >>-eq-ok,
}
use gatelet.Protocol.Line.{Reader, read_line}
use gatelet.Protocol.Challenge.{challenge_response, valid_challenge_response}
use gatelet.Protocol.Hello.{
  ClientHello, ClientChallengeResponse, parse_client_hello, parse_client_challenge_response,
  effective_token_id,
}
use gatelet.Server.Names.{Token, Settings, token, name_allowed}
use gatelet.Server.Registry.{Registry, reserve_name, register}
use gatelet.Server.Handshake.{
  max_handshake_bytes, Backend, Control, Refusal, authentic, authenticate, serving, settle,
  handle_control_conn, refuse_hello,
}

module _ (b : Backend) (s : Settings) where
  -- The evidence on which a connection is admitted under a hello.
  pub record IsAdmitted (c : Control) (hello : ClientHello) : Type 0 where
    pub first : Bytes × Reader
    pub second : Bytes × Reader
    pub nonce : Bytes
    pub response : ClientChallengeResponse
    pub credential : Token
    pub read_first : read_line c.reader max_handshake_bytes ≡ ok first
    pub parsed : parse_client_hello b.decode_hello first.0 ≡ ok hello
    pub allowed : name_allowed s hello.name ≡ true
    pub drawn : c.nonce ≡ some nonce
    pub read_second : read_line first.1 max_handshake_bytes ≡ ok second
    pub answered : parse_client_challenge_response b.decode_response second.0 ≡ ok response
    pub known : token s (effective_token_id response) ≡ some credential
    pub proved : response.response ≡ challenge_response b.hmac hello.name nonce credential.value

  authentic_sound :
      (name nonce line : Bytes)
      → authentic b s name nonce line ≡ true
      → (response : ClientChallengeResponse) × (credential : Token)
        × (parse_client_challenge_response b.decode_response line ≡ ok response)
        × (token s (effective_token_id response) ≡ some credential)
        × (response.response ≡ challenge_response b.hmac name nonce credential.value)
  unfolding authentic valid_challenge_response
  authentic_sound name nonce line e =
      elim (Result-cases (parse_client_challenge_response b.decode_response line)) [
        | inr (bad, f) ↦ absurd (ground (arith, f))
        | inl (response, f) ↦ elim (Option-cases (token s (effective_token_id response))) [
          | inl g ↦ absurd (ground (arith, f, g))
          | inr (credential, g) ↦ (response, credential, f, g, right response credential f g)
        ]
      ]
    where
      right :
          (response : ClientChallengeResponse) (t : Token)
          → parse_client_challenge_response b.decode_response line ≡ ok response
          → token s (effective_token_id response) ≡ some t
          → response.response ≡ challenge_response b.hmac name nonce t.value
      right response t f g = sym (
          (bytes_beq_iff (challenge_response b.hmac name nonce t.value) response.response).0
            (ground (arith, f, g)))

  was_true : (t : Bool) → not t ≡ false → t ≡ true
  was_true t h = ground arith

  gathered :
      (c : Control) (parsed hello : ClientHello) (first second : Bytes × Reader) (nonce : Bytes)
      → read_line c.reader max_handshake_bytes ≡ ok first
      → parse_client_hello b.decode_hello first.0 ≡ ok parsed
      → name_allowed s parsed.name ≡ true
      → c.nonce ≡ some nonce
      → read_line first.1 max_handshake_bytes ≡ ok second
      → authentic b s parsed.name nonce second.0 ≡ true
      → ◌≡◌ {A = Result Refusal ClientHello} (ok parsed) (ok hello)
      → IsAdmitted c hello
  gathered c parsed hello first second nonce h1 h2 h3 h4 h6 h7 e =
      let same : parsed ≡ hello = cc e in
      let (response, credential, f, g, p) = authentic_sound parsed.name nonce second.0 h7 in
      subst (λ (h : ClientHello). IsAdmitted c h) same
        (record {
          first = first;
          second = second;
          nonce = nonce;
          response = response;
          credential = credential;
          read_first = h1;
          parsed = h2;
          allowed = h3;
          drawn = h4;
          read_second = h6;
          answered = f;
          known = g;
          proved = p;
        })

  authenticate_sound :
      (c : Control) (hello : ClientHello) → authenticate b s c ≡ ok hello → IsAdmitted c hello
  unfolding authenticate
  authenticate_sound c hello e =
      let (first, h1, e1) =
        >>=-eq-ok (map_err (λ x. none) (read_line c.reader max_handshake_bytes)) _ e in
      let (parsed, h2, e2) =
        >>=-eq-ok (map_err refuse_hello (parse_client_hello b.decode_hello first.0)) _ e1 in
      let (h3, e3) = >>-eq-ok (not (name_allowed s parsed.name)) _ _ e2 in
      let (nonce, h4, e4) = >>=-eq-ok (or_fail c.nonce none) _ e3 in
      let (h5, e5) = >>-eq-ok (not c.challenge_sent) _ _ e4 in
      let (second, h6, e6) =
        >>=-eq-ok (map_err (λ x. none) (read_line first.1 max_handshake_bytes)) _ e5 in
      let (h7, e7) = >>-eq-ok (not (authentic b s parsed.name nonce second.0)) _ _ e6 in
      gathered c parsed hello first second nonce (map_err-eq-ok _ _ h1) (map_err-eq-ok _ _ h2)
        (was_true _ h3) (or_fail-eq-ok _ _ h4) (map_err-eq-ok _ _ h6) (was_true _ h7) e7

  -- A connection serves a name only if its hello parsed and its name is allowed, it answered this
  -- connection's nonce under an active token, and the name was reserved for it; what it leaves is the
  -- registered tunnel.
  pub handle_control_conn_sound :
      (closed : ℕ → Bool) (r r' : Registry) (c : Control) (hello : ClientHello)
      → handle_control_conn b s closed r c ≡ (r', serving hello)
      → IsAdmitted c hello
        × ((reserve_name closed r hello.name c.remote).1 ≡ true)
        × (r'
            ≡ register (reserve_name closed r hello.name c.remote).0 hello c.session c.remote c.now)
  unfolding handle_control_conn
  handle_control_conn_sound closed r r' c hello e = elim (Result-cases (authenticate b s c)) [
    | inr (bad, f) ↦ absurd (ground (arith, f))
    | inl (parsed, f) ↦
        let e' : settle closed r c parsed ≡ (r', serving hello) =
          rw (f, handle_control_conn) at e in
        let same : parsed ≡ hello = settled closed r r' c parsed hello e' in
        let (held, same_r) =
          granted closed r r' c hello
            (subst (λ (h : ClientHello). settle closed r c h ≡ (r', serving hello)) same e') in
        (authenticate_sound c hello (f ∙ ap ok same), held, same_r)
  ]
    where
      settled :
          (closed : ℕ → Bool) (r r' : Registry) (c : Control) (parsed hello : ClientHello)
          → settle closed r c parsed ≡ (r', serving hello)
          → parsed ≡ hello
      settled closed r r' c parsed hello e = ground arith

      granted :
          (closed : ℕ → Bool) (r r' : Registry) (c : Control) (hello : ClientHello)
          → settle closed r c hello ≡ (r', serving hello)
          → ((reserve_name closed r hello.name c.remote).1 ≡ true)
            × (r'
                ≡ register
                    (reserve_name closed r hello.name c.remote).0
                    hello
                    c.session
                    c.remote
                    c.now)
      granted closed r r' c hello e = ground arith
