-- ===== src/Client/Session/Connected.antt =====
-- When a session counts as connected.
use gatelet.Prelude.{
  ◌≡◌, refl, ap, ◌∙◌, inl, inr, Bool, true, false, not, Option, none, arith, ◌==◌, nat_eq,
  Option-cases, ok, map_err, Bytes, bytes_beq_iff, bytes_eq, Result-cases, >>=-eq-ok, map_err-eq-ok,
  >>-eq-ok,
}
use gatelet.Protocol.Line.{Reader, read_line}
use gatelet.Protocol.Hello.{ServerChallenge}
use gatelet.Client.Session.{
  max_handshake_response_bytes, handshake_ok, Wire, says_error, await_challenge, await_verdict,
  shake_hands, run_session,
}

negated : (b : Bool) → not b ≡ false → b ≡ true
negated true e = refl
negated false e = absurd (cc)

await_verdict_sound :
    (w : Wire) (r : Reader)
    → await_verdict w r ≡ ok tt
    → (rest : Reader) × (read_line r max_handshake_response_bytes ≡ ok (handshake_ok, rest))
unfolding await_verdict
await_verdict_sound w r e =
    let (sent, e1) = >>-eq-ok (not w.response_sent) _ _ e in
    let (second, got, e2) = >>=-eq-ok (map_err _ (read_line r max_handshake_response_bytes)) _ e1 in
    let (no_error, e3) = >>-eq-ok (says_error second.0) _ _ e2 in
    let (same, e4) = >>-eq-ok (not (second.0 == handshake_ok)) _ _ e3 in
    (
      second.1,
      map_err-eq-ok _ _ got
          ∙ ap (λ (l : Bytes). ok (l, second.1))
              ((bytes_beq_iff second.0 handshake_ok).0 (negated _ same)),
    )

-- A session counts as connected only if the relay was reached, its challenge was read and parsed, and the
-- line behind the challenge is OK.
pub run_session_connected :
    (decode : Bytes → Option ServerChallenge) (w : Wire)
    → (run_session decode w).0 ≡ true
    → (w.dial_error ≡ none)
      × ((challenge : ServerChallenge) × (behind : Reader) × (rest : Reader) × (await_challenge
              decode w
            ≡ ok (challenge, behind))
          × (read_line behind max_handshake_response_bytes ≡ ok (handshake_ok, rest)))
unfolding run_session shake_hands
run_session_connected decode w e = elim (Option-cases w.dial_error) [
  | inr (detail, f) ↦ absurd (ground (arith, f))
  | inl f ↦ elim (Result-cases (shake_hands decode w)) [
    | inr (bad, g) ↦ absurd (ground (arith, f, g))
    | inl (done, g) ↦
        let (challenge, met, verdict) = >>=-eq-ok (await_challenge decode w) _ g in
        let (rest, said) = await_verdict_sound w challenge.1 verdict in
        (f, (challenge.0, challenge.1, rest, met, said))
  ]
]
