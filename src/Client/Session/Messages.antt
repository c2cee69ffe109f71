-- ===== src/Client/Session/Messages.antt =====
-- The messages of the handshake, encoded by one side and read by the other.
use gatelet.Prelude.{
  ℕ, ◌≤◌, ◌≡◌, refl, subst, ◌≢◌, ◌⊎◌, inl, inr, true, false, not, ◌&&◌, Option, none, some, [], ◌∷◌,
  append-nil, arith, Bool-cases, length, ok, Bytes, codes, is_empty, starts_with,
}
use gatelet.Protocol.Name.{validate_name, validate_name-IsLabel}
use gatelet.Protocol.Line.{served, read_line}
use gatelet.Protocol.Line.Sound.{IsLine}
use gatelet.Protocol.Line.Whole.{read_line-IsLine}
use gatelet.Protocol.Challenge.{hex_encode, challenge_response}
use gatelet.Protocol.Hello.{
  HttpBasicAuthConfig, ClientHello, ServerChallenge, ClientChallengeResponse, parse_client_hello,
  parse_client_challenge_response, IsAcceptable,
}
use gatelet.Protocol.Hello.Accepts.{
  parse_client_hello_iff, parse_client_challenge_response_complete,
}
use gatelet.Client.Session.{Config, hello_of, answer_to, http_basic_auth_enabled}

-- What JSON does with one message: an object on a line of its own that decodes to the message, within
-- the limit of the reader.
pub record IsEncoded {ℓ} {A : Type ℓ} (encode : A → Bytes) (decode : Bytes → Option A) (limit : ℕ)
    (a : A) : Type ℓ where
  pub round : decode (encode a) ≡ some a
  pub line : IsLine (encode a)
  pub fits : length (encode a) ≤ limit
  pub object : (rest : Bytes) × (encode a ≡ b'{' ∷ rest)

both_filled : (u p : Bytes) → (not (is_empty u) && not (is_empty p)) ≡ true → (u ≢ []) × (p ≢ [])
both_filled [] p e = absurd (cc)
both_filled (x ∷ u) [] e = absurd (cc)
both_filled (x ∷ u) (y ∷ p) e = (λ same. cc, λ same. cc)

credentials_complete :
    (c : Config)
    → ((hello_of c).http_basic_auth ≡ none)
      ⊎ ((a : HttpBasicAuthConfig) × ((hello_of c).http_basic_auth ≡ some a)
          × (a.username ≢ [])
          × (a.password ≢ []))
unfolding hello_of
credentials_complete c = elim (Bool-cases (http_basic_auth_enabled c)) [
  | inr off ↦ inl (rw off)
  | inl on ↦
      let (user, password) = both_filled c.http_basic_auth_user c.http_basic_auth_password on in
      inr (
        record { username = c.http_basic_auth_user; password = c.http_basic_auth_password },
        rw on,
        user,
        password,
      )
]

hello_of-IsAcceptable :
    (c : Config) → validate_name c.name ≡ ok tt → c.client_version ≢ [] → IsAcceptable (hello_of c)
unfolding hello_of
hello_of-IsAcceptable c name version = record {
  name = (validate_name-IsLabel c.name).0 name;
  at_least = ground arith;
  at_most = ground arith;
  versioned = version;
  kind = inr refl;
  credentials = credentials_complete c;
}

encoded_filled : (m : Bytes) → m ≢ [] → hex_encode m ≢ []
unfolding hex_encode
encoded_filled [] h = λ same. h refl
encoded_filled (c ∷ m) h = λ same. cc

pub answer_to_parses :
    (hmac : Bytes → Bytes → Bytes) (decode : Bytes → Option ClientChallengeResponse) (c : Config)
    (challenge : ServerChallenge) (line : Bytes)
    → ((k m : Bytes) → hmac k m ≢ [])
    → (c.token_id ≡ []) ⊎ (validate_name c.token_id ≡ ok tt)
    → decode line ≡ some (answer_to hmac c challenge)
    → parse_client_challenge_response decode line ≡ ok (answer_to hmac c challenge)
unfolding answer_to challenge_response
answer_to_parses hmac decode c challenge line long id e =
    parse_client_challenge_response_complete decode line (answer_to hmac c challenge) e id
      (encoded_filled _ (long _ _))

pub hello_of_parses :
    (decode : Bytes → Option ClientHello) (c : Config) (line : Bytes)
    → validate_name c.name ≡ ok tt
    → c.client_version ≢ []
    → decode line ≡ some (hello_of c)
    → parse_client_hello decode line ≡ ok (hello_of c)
unfolding hello_of
hello_of_parses decode c line name version e =
    (parse_client_hello_iff decode line (hello_of c)).1
      (hello_of c, e, hello_of-IsAcceptable c name version, refl)

pub only_line :
    (limit : ℕ) (l : Bytes)
    → IsLine l
    → length l ≤ limit
    → read_line (served l) limit ≡ ok (l, served [])
only_line limit l h fits =
    subst (λ (u : Bytes). read_line (served u) limit ≡ ok (l, served [])) (append-nil l)
      (read_line-IsLine limit l [] h fits)

-- A line that begins with `{` is no error message.
pub object_no_error :
    (line rest : Bytes) → line ≡ b'{' ∷ rest → starts_with (codes "ERR ") line ≡ false
object_no_error line rest e = rw e
