-- ===== src/Protocol/Name.antt =====
-- `ValidateName`. Go ranges over the code points of the name; a byte of a code point above 127 is no
-- letter, digit or dash, so the loop over the bytes refuses the same names at the same place.
use gatelet.Prelude.{
  ℕ, suc, ◌+◌, ◌-◌, ◌≤◌, ◌≡◌, refl, ◌≢◌, ◌↔◌, ◌⊎◌, Bool, true, not, ◌&&◌, ◌||◌, [], ◌∷◌, arith,
  Bytes, length, is_empty, leb, ltb, nat_eq, ◌==◌, All, Result, ok, err, ◌>>◌, fail_if,
  if◌then◌else◌,
}

pub data NameError : Type 0 where
  required too_long : NameError
  invalid : Bytes → NameError

-- The cases of the loop's switch, for byte `r` at index `i` of a name of `n` bytes.
name_byte : ℕ → ℕ → ℕ → Bool
name_byte n i r =
    (leb b'a' r && leb r b'z')
    || (leb b'0' r && leb r b'9')
    || (r == b'-' && not (i == 0) && not (i == n - 1))

name_loop : Bytes → ℕ → ℕ → Bytes → Result NameError (Unit {0})
name_loop name n i [] = ok tt
name_loop name n i (r ∷ rs) =
    if name_byte n i r then name_loop name n (i + 1) rs else err (invalid name)

unfoldable pub validate_name : Bytes → Result NameError (Unit {0})
unfolding name_loop name_byte
validate_name name = do
  fail_if (is_empty name) required
  fail_if (ltb 63 (length name)) too_long
  name_loop name (length name) 0 name

-- A lower-case DNS label, described without the loop.
abbrev pub IsLabelByte : ℕ → Type 0
IsLabelByte c = ((b'a' ≤ c) × (c ≤ b'z')) ⊎ ((b'0' ≤ c) × (c ≤ b'9')) ⊎ (c ≡ b'-')

abbrev pub StartsPlain : Bytes → Type 0
StartsPlain [] = Unit
StartsPlain (c ∷ cs) = c ≢ b'-'

abbrev pub EndsPlain : Bytes → Type 0
EndsPlain [] = Unit
EndsPlain (c ∷ []) = c ≢ b'-'
EndsPlain (c ∷ d ∷ cs) = EndsPlain (d ∷ cs)

pub record IsLabel (name : Bytes) : Type 0 where
  pub nonempty : 1 ≤ length name
  pub short : length name ≤ 63
  pub bytes : All IsLabelByte name
  pub starts : StartsPlain name
  pub ends : EndsPlain name

name_byte_inner : (n i r : ℕ) → 1 ≤ i → suc i ≤ n - 1 → (name_byte n i r ≡ true) ↔ IsLabelByte r
unfolding name_byte
name_byte_inner n i r h k = ground arith

name_byte_last : (n i r : ℕ) → i ≡ n - 1 → (name_byte n i r ≡ true) ↔ (IsLabelByte r × (r ≢ b'-'))
unfolding name_byte
name_byte_last n i r h = ground arith

name_byte_first : (n r : ℕ) → (name_byte n 0 r ≡ true) ↔ (IsLabelByte r × (r ≢ b'-'))
unfolding name_byte
name_byte_first n r = ground arith

name_loop_iff :
    (name : Bytes) (n i : ℕ) (rs : Bytes)
    → 1 ≤ i
    → n ≡ i + length rs
    → (name_loop name n i rs ≡ ok tt) ↔ (All IsLabelByte rs × EndsPlain rs)
unfolding name_loop
name_loop_iff name n i [] h k = ((λ e. (tt, tt)), λ e. refl)
name_loop_iff name n i (r ∷ []) h k = ground (arith, name_byte_last n i r)
name_loop_iff name n i (r ∷ s ∷ rs) h k =
    ground (arith, name_byte_inner n i r, name_loop_iff name n (i + 1) (s ∷ rs))

-- `ValidateName` accepts exactly the lower-case DNS labels of at most 63 bytes.
pub validate_name-IsLabel : (name : Bytes) → (validate_name name ≡ ok tt) ↔ IsLabel name
unfolding validate_name
validate_name-IsLabel [] = ((λ e. cc), λ l. absurd (omega (arith, l.nonempty)))
validate_name-IsLabel (r ∷ []) = ground (arith, name_byte_first 1 r)
validate_name-IsLabel (r ∷ s ∷ rs) =
    let n = length (r ∷ s ∷ rs) in
    ground (
      arith,
      name_byte_first n r,
      name_loop_iff (r ∷ s ∷ rs) n 1 (s ∷ rs) (omega arith) (omega arith),
    )
