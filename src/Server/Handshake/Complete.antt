-- ===== src/Server/Handshake/Complete.antt =====
-- Who is served.
use gatelet.Prelude.{ℕ, ◌≡◌, sym, Bool, true, ok, bytes_beq_iff}
use gatelet.Protocol.Challenge.{valid_challenge_response}
use gatelet.Protocol.Hello.{ClientHello}
use gatelet.Server.Names.{Settings}
use gatelet.Server.Registry.{Registry, reserve_name, register}
use gatelet.Server.Handshake.{
  Backend, Control, authentic, authenticate, serving, settle, handle_control_conn,
}
use gatelet.Server.Handshake.Sound.{IsAdmitted}

module _ (b : Backend) (s : Settings) where
  authentic_complete :
      (c : Control) (hello : ClientHello) (a : IsAdmitted b s c hello)
      → authentic b s hello.name a.nonce a.second.0 ≡ true
  unfolding authentic valid_challenge_response
  authentic_complete c hello a =
      rw (a.answered, a.known, authentic) ((bytes_beq_iff _ _).1 (sym a.proved))

  authenticate_complete :
      (c : Control) (hello : ClientHello)
      → IsAdmitted b s c hello
      → c.challenge_sent ≡ true
      → authenticate b s c ≡ ok hello
  unfolding authenticate
  authenticate_complete c hello a sent = rw (
    a.read_first,
    a.parsed,
    a.allowed,
    a.drawn,
    sent,
    a.read_second,
    authentic_complete c hello a,
  )

  -- A connection that brings the evidence, and on which every write and the session succeed, serves its
  -- name if the name is free.
  pub handle_control_conn_complete :
      (closed : ℕ → Bool) (r : Registry) (c : Control) (hello : ClientHello)
      → IsAdmitted b s c hello
      → c.challenge_sent ≡ true
      → c.ok_sent ≡ true
      → c.session_starts ≡ true
      → (reserve_name closed r hello.name c.remote).1 ≡ true
      → handle_control_conn b s closed r c ≡ (
        register (reserve_name closed r hello.name c.remote).0 hello c.session c.remote c.now,
        serving hello,
      )
  unfolding handle_control_conn settle
  handle_control_conn_complete closed r c hello a sent ok_sent starts free =
      rw (authenticate_complete c hello a sent, free, ok_sent, starts, handle_control_conn)
