-- ===== src/Protocol/Challenge.antt =====
-- `ChallengeResponse` and `ValidChallengeResponse`. HMAC-SHA256 is a parameter, key first; what is
-- fed to it, the hexadecimal print and the comparison are the source's.
use mathlib.Core.Path.{ap₂}
use gatelet.Prelude.{
  ℕ, ◌+◌, ◌-◌, ◌/◌, ◌%◌, ◌<◌, ◌≡◌, refl, sym, ◌≢◌, ◌⊎◌, inl, inr, Bool, true, List, [], ◌∷◌, ◌++◌,
  arith, ltb, if◌then◌else◌, ◌==◌, nat_eq, ==_iff, Bool-cases, All, ok, Bytes, bytes_eq,
}
use gatelet.Protocol.Name.{IsLabelByte, validate_name, validate_name-IsLabel}

abbrev hex_digit : ℕ → ℕ
hex_digit d = if ltb d 10 then b'0' + d else b'a' + (d - 10)

-- `hex.EncodeToString`.
unfoldable pub hex_encode : Bytes → Bytes
hex_encode [] = []
hex_encode (b ∷ bs) = hex_digit (b / 16) ∷ hex_digit (b % 16) ∷ hex_encode bs

-- What the three writes feed to the MAC.
unfoldable pub mac_input : Bytes → Bytes → Bytes
mac_input name nonce = name ++ (0 ∷ nonce)

module _ (hmac : Bytes → Bytes → Bytes) where
  unfoldable pub challenge_response : Bytes → Bytes → Bytes → Bytes
  challenge_response name nonce token = hex_encode (hmac token (mac_input name nonce))

  unfoldable pub valid_challenge_response : Bytes → Bytes → Bytes → Bytes → Bool
  valid_challenge_response name nonce token response =
      challenge_response name nonce token == response

hex_digit_injective : (a b : ℕ) → a < 16 → b < 16 → hex_digit a ≡ hex_digit b → a ≡ b
hex_digit_injective a b h k e = ground arith

byte_of_digits : (a b : ℕ) → a / 16 ≡ b / 16 → a % 16 ≡ b % 16 → a ≡ b
byte_of_digits a b h k = omega arith

abbrev pub IsByte : ℕ → Type 0
IsByte b = b < 256

cons_injective {ℓ} : {A : Type ℓ} {a b : A} {xs bs : List A} → a ∷ xs ≡ b ∷ bs → (a ≡ b) × (xs ≡ bs)
cons_injective e = (cc, cc)

pub hex_encode_injective :
    (xs bs : Bytes) → All IsByte xs → All IsByte bs → hex_encode xs ≡ hex_encode bs → xs ≡ bs
unfolding hex_encode
hex_encode_injective [] [] h k e = refl
hex_encode_injective [] (b ∷ bs) h k e = absurd (cc)
hex_encode_injective (a ∷ xs) [] h k e = absurd (cc)
hex_encode_injective (a ∷ xs) (b ∷ bs) h k e =
    let (high, e') = cons_injective e in
    let (low, rest) = cons_injective e' in
    ap₂ ◌∷◌
      (byte_of_digits a b (hex_digit_injective (a / 16) (b / 16) (omega arith) (omega arith) high)
        (hex_digit_injective (a % 16) (b % 16) (omega arith) (omega arith) low))
      (hex_encode_injective xs bs h.1 k.1 rest)

-- A name with no zero byte ends at the first zero byte, so the input determines both parts.
pub mac_input_injective :
    (m n x y : Bytes)
    → All IsLabelByte m
    → All IsLabelByte n
    → mac_input m x ≡ mac_input n y
    → (m ≡ n) × (x ≡ y)
unfolding mac_input
mac_input_injective [] [] x y h k e = (refl, cc)
mac_input_injective [] (c ∷ n) x y h k e = ground arith
mac_input_injective (b ∷ m) [] x y h k e = ground arith
mac_input_injective (b ∷ m) (c ∷ n) x y h k e = ground (arith, mac_input_injective m n x y)

-- A response for one challenge passes another only if the name and the nonce are the same, or two
-- different inputs have one MAC under the token: no response can be moved between names or nonces
-- for a weakness of the encoding.
pub valid_challenge_response_binds :
    (hmac : Bytes → Bytes → Bytes) (m n x y token : Bytes)
    → ((k s : Bytes) → All IsByte (hmac k s))
    → validate_name m ≡ ok tt
    → validate_name n ≡ ok tt
    → valid_challenge_response hmac n y token (challenge_response hmac m x token) ≡ true
    → ((m ≡ n) × (x ≡ y))
      ⊎ ((mac_input m x ≢ mac_input n y)
          × (hmac token (mac_input m x) ≡ hmac token (mac_input n y)))
unfolding valid_challenge_response challenge_response
valid_challenge_response_binds hmac m n x y token bytes hm hn e =
    elim (Bool-cases (mac_input m x == mac_input n y)) [
      | inl same ↦ inl (
          mac_input_injective m n x y ((validate_name-IsLabel m).0 hm).bytes
            ((validate_name-IsLabel n).0 hn).bytes ((==_iff _ _).0 same))
      | inr other ↦ inr (
        (λ same. cc ((==_iff (mac_input m x) (mac_input n y)).1 same)),
        sym (hex_encode_injective _ _ (bytes _ _) (bytes _ _) ((==_iff _ _).0 e)),
      )
    ]
