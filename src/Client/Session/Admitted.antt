-- ===== src/Client/Session/Admitted.antt =====
-- The two sides of the handshake together.
use gatelet.Prelude.{
  ℕ, ◌≡◌, sym, ap, ◌∙◌, ◌≢◌, ◌⊎◌, Bool, true, Option, none, some, [], ◌++◌, ok, Bytes,
}
use gatelet.Protocol.Name.{validate_name}
use gatelet.Protocol.Line.{served, read_line}
use gatelet.Protocol.Line.Whole.{read_line-IsLine}
use gatelet.Protocol.Challenge.{challenge_response}
use gatelet.Protocol.Hello.{
  ClientHello, ServerChallenge, ClientChallengeResponse, parse_server_challenge, effective_token_id,
}
use gatelet.Protocol.Hello.Accepts.{filled}
use gatelet.Server.Names.{Token, Settings, token, name_allowed}
use gatelet.Server.Registry.{Registry, reserve_name, register}
use gatelet.Server.Handshake.{max_handshake_bytes, Backend, Control, serving, handle_control_conn}
use gatelet.Server.Handshake.Sound.{IsAdmitted}
use gatelet.Server.Handshake.Complete.{handle_control_conn_complete}
use gatelet.Client.Session.{
  max_handshake_response_bytes, handshake_ok, Config, hello_of, answer_to, Wire, await_challenge,
  await_verdict, shake_hands, written, stream_error, run_session,
}
use gatelet.Client.Session.Messages.{
  IsEncoded, answer_to_parses, hello_of_parses, only_line, object_no_error,
}

module _ (b : Backend) (s : Settings) (decode_challenge : Bytes → Option ServerChallenge)
    (encode_challenge : ServerChallenge → Bytes) (encode_hello : ClientHello → Bytes)
    (encode_response : ClientChallengeResponse → Bytes) where
  challenge_awaited :
      (w : Wire) (nonce : Bytes)
      → nonce ≢ []
      → IsEncoded encode_challenge decode_challenge max_handshake_response_bytes
          (record { nonce = nonce })
      → w.hello_sent ≡ true
      → w.reader ≡ served (encode_challenge (record { nonce = nonce }) ++ handshake_ok)
      → await_challenge decode_challenge w ≡ ok (record { nonce = nonce }, served handshake_ok)
  unfolding await_challenge parse_server_challenge
  challenge_awaited w nonce some_nonce i sent e = rw (
    sent,
    e,
    read_line-IsLine max_handshake_response_bytes (encode_challenge (record { nonce = nonce }))
        handshake_ok i.line i.fits,
    object_no_error _ _ i.object.1,
    i.round,
    filled nonce some_nonce,
    parse_server_challenge,
  )

  verdict_awaited :
      (w : Wire)
      → w.response_sent ≡ true
      → w.session_starts ≡ true
      → await_verdict w (served handshake_ok) ≡ ok tt
  unfolding await_verdict read_line
  verdict_awaited w sent starts = rw (sent, starts)

  -- What the server reads of a client that meets this challenge.
  evidence :
      (c : Config) (conn : Control) (nonce : Bytes) (t : Token)
      → ((k m : Bytes) → b.hmac k m ≢ [])
      → validate_name c.name ≡ ok tt
      → c.client_version ≢ []
      → (c.token_id ≡ []) ⊎ (validate_name c.token_id ≡ ok tt)
      → name_allowed s c.name ≡ true
      → token s (effective_token_id (answer_to b.hmac c (record { nonce = nonce }))) ≡ some t
      → t.value ≡ c.token
      → conn.nonce ≡ some nonce
      → IsEncoded encode_hello b.decode_hello max_handshake_bytes (hello_of c)
      → IsEncoded encode_response b.decode_response max_handshake_bytes
          (answer_to b.hmac c (record { nonce = nonce }))
      → conn.reader
        ≡ served (
            encode_hello (hello_of c)
            ++ encode_response (answer_to b.hmac c (record { nonce = nonce })))
      → IsAdmitted b s conn (hello_of c)
  unfolding hello_of answer_to
  evidence c conn nonce t long name version id allowed known value drawn i k reader = record {
    first = (
      encode_hello (hello_of c),
      served (encode_response (answer_to b.hmac c (record { nonce = nonce }))),
    );
    second = (encode_response (answer_to b.hmac c (record { nonce = nonce })), served []);
    nonce = nonce;
    response = answer_to b.hmac c (record { nonce = nonce });
    credential = t;
    read_first =
        rw reader
          (read_line-IsLine max_handshake_bytes (encode_hello (hello_of c)) _ i.line i.fits);
    parsed = hello_of_parses b.decode_hello c _ name version i.round;
    allowed = allowed;
    drawn = drawn;
    read_second =
        only_line max_handshake_bytes
          (encode_response (answer_to b.hmac c (record { nonce = nonce }))) k.line k.fits;
    answered =
        answer_to_parses b.hmac b.decode_response c (record { nonce = nonce }) _ long id k.round;
    known = known;
    proved = ap (challenge_response b.hmac c.name nonce) (sym value);
  }

  -- A client with a valid name that the relay allows, a client version, a token id that is empty or a
  -- DNS label and the value of the active token under it, whose name is free, is served, and its session
  -- is connected: the relay reads what the client writes, the client reads the relay's challenge and OK,
  -- the nonce is not empty and no call fails. Each message is encoded as an object on a line of its own
  -- within the reader's limit, which decodes to it, and the MAC is not empty.
  pub handshake_completes :
      (c : Config) (w : Wire) (conn : Control) (closed : ℕ → Bool) (r : Registry) (nonce : Bytes)
      (t : Token)
      → ((k m : Bytes) → b.hmac k m ≢ [])
      → validate_name c.name ≡ ok tt
      → c.client_version ≢ []
      → (c.token_id ≡ []) ⊎ (validate_name c.token_id ≡ ok tt)
      → name_allowed s c.name ≡ true
      → token s (effective_token_id (answer_to b.hmac c (record { nonce = nonce }))) ≡ some t
      → t.value ≡ c.token
      → conn.nonce ≡ some nonce
      → nonce ≢ []
      → IsEncoded encode_challenge decode_challenge max_handshake_response_bytes
          (record { nonce = nonce })
      → IsEncoded encode_hello b.decode_hello max_handshake_bytes (hello_of c)
      → IsEncoded encode_response b.decode_response max_handshake_bytes
          (answer_to b.hmac c (record { nonce = nonce }))
      → (w.dial_error ≡ none)
        × (w.hello_sent ≡ true)
        × (w.response_sent ≡ true)
        × (w.session_starts ≡ true)
      → (conn.challenge_sent ≡ true) × (conn.ok_sent ≡ true) × (conn.session_starts ≡ true)
      → w.reader ≡ served (encode_challenge (record { nonce = nonce }) ++ handshake_ok)
      → conn.reader ≡ served (written encode_hello encode_response b.hmac decode_challenge c w)
      → (reserve_name closed r c.name conn.remote).1 ≡ true
      → (handle_control_conn b s closed r conn ≡ (
        register
            (reserve_name closed r c.name conn.remote).0
            (hello_of c)
            conn.session
            conn.remote
            conn.now,
        serving (hello_of c),
      ))
        × (run_session decode_challenge w ≡ (true, stream_error w.ends))
  unfolding written run_session shake_hands hello_of
  handshake_completes c w conn closed r nonce t long name version id allowed known value drawn
        some_nonce ci hi ri (dialled, said, answered, starts) (asked, told, session) reader reader'
        free =
      let met = challenge_awaited w nonce some_nonce ci said reader in
      (
        handle_control_conn_complete b s closed r conn (hello_of c)
            (evidence c conn nonce t long name version id allowed known value drawn hi ri
              (reader' ∙ ap served (rw (met, written))))
            asked told session free,
        rw (dialled, met, verdict_awaited w answered starts, run_session, shake_hands),
      )
