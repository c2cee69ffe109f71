-- ===== src/Prelude/Text.antt =====
-- Go strings as lists of bytes, and what the program uses of the package `strings`. `to_lower` and
-- `trim_space` act on the ASCII letters and the ASCII white space.
use Prim.Native.Nat.{ℕ, ◌+◌}
use Prim.Native.Char.{code}
use Prim.Native.String.{String}
use mathlib.Core.Path.{◌≡◌, refl, sym, ap, ◌∙◌}
use mathlib.Core.Logic.{◌↔◌, ◌≢◌, inl, inr}
use mathlib.Core.Bool.{Bool, true, false, ◌&&◌, ◌||◌}
use mathlib.Core.List.{List, [], ◌∷◌, ◌++◌, map, append_assoc, append-nil}
use mathlib.Core.Option.{Option, none, some}
use native.Mathlib.Omega.{arith}
use gatelet.Prelude.Tests.{Eq, ◌==◌, ==_self, leb, nat_eq, if◌then◌else◌, Bool-cases, Option-cases}
use gatelet.Prelude.Lists.{All, length, length-append}

abbrev pub Bytes : Type 0
Bytes = List ℕ

-- The bytes of an ASCII literal.
abbrev pub codes : String → Bytes
codes String.[] = []
codes (String.◌∷◌ c s) = code c ∷ codes s

abbrev pub bytes_beq : Bytes → Bytes → Bool
bytes_beq [] [] = true
bytes_beq [] (y ∷ ys) = false
bytes_beq (x ∷ xs) [] = false
bytes_beq (x ∷ xs) (y ∷ ys) = x == y && bytes_beq xs ys

pub bytes_beq_iff : (a b : Bytes) → (bytes_beq a b ≡ true) ↔ (a ≡ b)
bytes_beq_iff [] [] = ground arith
bytes_beq_iff [] (y ∷ ys) = ground arith
bytes_beq_iff (x ∷ xs) [] = ground arith
bytes_beq_iff (x ∷ xs) (y ∷ ys) = ground (arith, bytes_beq_iff xs ys)

instance abbrev pub bytes_eq : Eq Bytes
bytes_eq = record { test = bytes_beq; exact = bytes_beq_iff }

abbrev pub is_empty : Bytes → Bool
is_empty [] = true
is_empty (x ∷ xs) = false

abbrev pub starts_with : Bytes → Bytes → Bool
starts_with [] s = true
starts_with (p ∷ ps) [] = false
starts_with (p ∷ ps) (x ∷ xs) = x == p && starts_with ps xs

-- `strings.HasPrefix` and `TrimPrefix` in one: the rest behind the prefix.
abbrev pub strip_prefix : Bytes → Bytes → Option Bytes
strip_prefix [] s = some s
strip_prefix (p ∷ ps) [] = none
strip_prefix (p ∷ ps) (x ∷ xs) = if x == p then strip_prefix ps xs else none

unfoldable pub strip_suffix : Bytes → Bytes → Option Bytes
strip_suffix suffix [] = if is_empty suffix then some [] else none
strip_suffix suffix (x ∷ xs) =
    if bytes_beq (x ∷ xs) suffix
    then some []
    else elim (strip_suffix suffix xs) [ none ↦ none | some r ↦ some (x ∷ r) ]

abbrev pub or_else {ℓ} : {A : Type ℓ} → Option A → A → A
or_else none d = d
or_else (some a) d = a

abbrev pub trim_prefix : Bytes → Bytes → Bytes
trim_prefix prefix s = or_else (strip_prefix prefix s) s

abbrev pub trim_suffix : Bytes → Bytes → Bytes
trim_suffix suffix s = or_else (strip_suffix suffix s) s

abbrev pub lower_byte : ℕ → ℕ
lower_byte c = if leb b'A' c && leb c b'Z' then c + 32 else c

abbrev pub to_lower : Bytes → Bytes
to_lower = map lower_byte

abbrev pub is_space : ℕ → Bool
is_space c = c == 32 || (leb 9 c && leb c 13)

-- `strings.TrimLeftFunc` and `TrimRightFunc`.
unfoldable pub trim_left : (ℕ → Bool) → Bytes → Bytes
trim_left p [] = []
trim_left p (x ∷ xs) = if p x then trim_left p xs else x ∷ xs

unfoldable pub trim_right : (ℕ → Bool) → Bytes → Bytes
trim_right p [] = []
trim_right p (x ∷ xs) = let rest = trim_right p xs in if is_empty rest && p x then [] else x ∷ rest

unfoldable pub trim : (ℕ → Bool) → Bytes → Bytes
unfolding trim_left trim_right
trim p s = trim_right p (trim_left p s)

unfoldable pub trim_space : Bytes → Bytes
unfolding trim
trim_space s = trim is_space s

abbrev pub has_byte : ℕ → Bytes → Bool
has_byte c [] = false
has_byte c (x ∷ xs) = x == c || has_byte c xs

-- `strings.Cut` at a separator of one byte.
unfoldable pub cut : ℕ → Bytes → Option (Bytes × Bytes)
cut c [] = none
cut c (x ∷ xs) =
    let rest = cut c xs in
    if x == c
    then some ([], xs)
    else elim rest [ none ↦ none | some (before, after) ↦ some (x ∷ before, after) ]

-- The same at the last occurrence, as after `strings.LastIndexByte`.
unfoldable pub cut_last : ℕ → Bytes → Option (Bytes × Bytes)
cut_last c [] = none
cut_last c (x ∷ xs) = elim (cut_last c xs) [
  | some (before, after) ↦ some (x ∷ before, after)
  | none ↦ if x == c then some ([], xs) else none
]

-- `strings.Split` at a separator of one byte; `cur` is what the part has so far.
split_from : ℕ → Bytes → Bytes → List Bytes
split_from c cur [] = cur ∷ []
split_from c cur (x ∷ xs) =
    let closed = cur ∷ split_from c [] xs in
    let longer = split_from c (cur ++ x ∷ []) xs in if x == c then closed else longer

unfoldable pub split : ℕ → Bytes → List Bytes
unfolding split_from
split c s = split_from c [] s

-- `strings.Contains`.
unfoldable pub has_substring : Bytes → Bytes → Bool
has_substring needle [] = is_empty needle
has_substring needle (x ∷ xs) = starts_with needle (x ∷ xs) || has_substring needle xs

strip_suffix_self : (s : Bytes) → strip_suffix s s ≡ some []
unfolding strip_suffix
strip_suffix_self [] = refl
strip_suffix_self (x ∷ xs) = rw (==_self (x ∷ xs))

cons-append-ne : (x : ℕ) (xs s : Bytes) → (x ∷ xs) ++ s ≢ s
cons-append-ne x xs s e = absurd (omega (arith, ap length e, length-append (x ∷ xs) s))

pub strip_suffix-append : (suffix s : Bytes) → strip_suffix suffix (s ++ suffix) ≡ some s
unfolding strip_suffix
strip_suffix-append suffix [] = strip_suffix_self suffix
strip_suffix-append suffix (x ∷ xs) = ground (
  arith,
  bytes_beq_iff (x ∷ xs ++ suffix) suffix,
  cons-append-ne x xs suffix,
  strip_suffix-append suffix xs,
)

pub strip_suffix_sound : (suffix s r : Bytes) → strip_suffix suffix s ≡ some r → s ≡ r ++ suffix
unfolding strip_suffix
strip_suffix_sound suffix [] r h = ground arith
strip_suffix_sound suffix (x ∷ xs) r h = elim (Option-cases (strip_suffix suffix xs)) [
  | inl e ↦ ground (arith, bytes_beq_iff (x ∷ xs) suffix)
  | inr (t, e) ↦ ground (arith, bytes_beq_iff (x ∷ xs) suffix, strip_suffix_sound suffix xs t e)
]

-- What `HasSuffix` and `TrimSuffix` compute together.
pub strip_suffix_iff : (suffix s r : Bytes) → (strip_suffix suffix s ≡ some r) ↔ (s ≡ r ++ suffix)
strip_suffix_iff suffix s r =
    (strip_suffix_sound suffix s r, λ e. rw e (strip_suffix-append suffix r))

split_from-part :
    (c : ℕ) (cur part rest : Bytes)
    → has_byte c part ≡ false
    → split_from c cur (part ++ (c ∷ rest)) ≡ (cur ++ part) ∷ split_from c [] rest
unfolding split_from
split_from-part c cur [] rest e =
    rw (==_self c) (ap (λ s. s ∷ split_from c [] rest) (sym (append-nil cur)))
split_from-part c cur (x ∷ part) rest e = elim (Bool-cases (x == c)) [
  | inl same ↦ absurd (ground (arith, same, e))
  | inr other ↦ rw other (
      split_from-part c (cur ++ x ∷ []) part rest (ground (arith, other, e))
      ∙ ap (λ s. s ∷ split_from c [] rest) (append_assoc cur (x ∷ []) part))
]

-- A part that does not hold the separator is split off in front of it.
pub split-part :
    (c : ℕ) (part rest : Bytes)
    → has_byte c part ≡ false
    → split c (part ++ (c ∷ rest)) ≡ part ∷ split c rest
unfolding split
split-part c part rest e = split_from-part c [] part rest e

pub has_byte-append : (c : ℕ) (s t : Bytes) → has_byte c (s ++ t) ≡ (has_byte c s || has_byte c t)
has_byte-append c [] t = refl
has_byte-append c (x ∷ s) t = ground (arith, has_byte-append c s t)

split_from-All :
    (c : ℕ) (cur s : Bytes)
    → has_byte c cur ≡ false
    → All (λ p. has_byte c p ≡ false) (split_from c cur s)
unfolding split_from
split_from-All c cur [] a = (a, tt)
split_from-All c cur (x ∷ s) a = elim (Bool-cases (x == c)) [
  | inl same ↦ rw same (a, split_from-All c [] s refl)
  | inr other ↦ rw other (
      split_from-All c (cur ++ x ∷ []) s (ground (arith, other, a, has_byte-append c cur (x ∷ []))))
]

-- No part holds the separator.
pub split-All : (c : ℕ) (s : Bytes) → All (λ p. has_byte c p ≡ false) (split c s)
unfolding split
split-All c s = split_from-All c [] s refl

pub is_empty-append : (s t : Bytes) → is_empty t ≡ false → is_empty (s ++ t) ≡ false
is_empty-append [] t e = e
is_empty-append (c ∷ s) t e = refl

-- What does not end in bytes to be trimmed keeps all that is in front of it.
pub trim_right-append :
    (p : ℕ → Bool) (s t : Bytes)
    → is_empty (trim_right p t) ≡ false
    → trim_right p (s ++ t) ≡ s ++ trim_right p t
unfolding trim_right
trim_right-append p [] t e = refl
trim_right-append p (c ∷ s) t e =
    rw (trim_right-append p s t e, is_empty-append s (trim_right p t) e) refl
