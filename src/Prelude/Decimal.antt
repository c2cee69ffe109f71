-- ===== src/Prelude/Decimal.antt =====
-- A number in decimal, as fmt prints it, by the loop that divides by ten.
use Prim.Native.Nat.{ℕ, zero, suc, ◌+◌, ◌-◌, ◌*◌, ◌/◌, ◌%◌, ◌<◌, ◌≤◌}
use mathlib.Core.Path.{◌≡◌, refl, sym, subst}
use mathlib.Core.Logic.{dite, ite, ◌⊎◌, inl, inr}
use mathlib.Core.List.{[], ◌∷◌, ◌++◌, foldl}
use mathlib.Core.WellFounded as Founded
use mathlib.Core.WellFounded.{Acc, WellFounded, Acc-prop}
use native.Mathlib.Decide.{dec_lt}
use native.Mathlib.Omega.{arith}
use gatelet.Prelude.Tests.{◌==◌, nat_eq, ltb, if◌then◌else◌}
use gatelet.Prelude.Text.{Bytes}
use gatelet.Prelude.Lists.{All, length}

-- Every number is accessible: those below a bound are, by induction on the bound.
under : (bound : ℕ) → (value : ℕ) → value < bound → Acc ◌<◌ value
under zero value impossible = absurd (omega (arith, impossible))
under (suc bound) value fits =
    Acc.intro value (λ smaller less. under bound smaller (omega (arith, fits, less)))

lt_wf : WellFounded ◌<◌
unfolding under
lt_wf = record { apply = λ value. under (value + 1) value (omega arith) }

tenth_lt : {n : ℕ} → 0 < n → n / 10 < n
tenth_lt h = omega arith

abbrev last_digit : ℕ → ℕ
last_digit value = b'0' + value % 10

-- The digits of `value` in front of those that are there.
emit_digits : (value : ℕ) → Acc ◌<◌ value → Bytes → Bytes
emit_digits value (Acc.intro _ below) there =
    dite (dec_lt 0 value)
      (λ more.
        emit_digits (value / 10) (below (value / 10) (tenth_lt more)) (last_digit value ∷ there))
      (λ _. there)

digits : ℕ → Bytes → Bytes
digits n = emit_digits n (lt_wf.apply n)

unfoldable pub decimal : ℕ → Bytes
unfolding digits emit_digits lt_wf under tenth_lt dec_lt
decimal n = if n == 0 then b'0' ∷ [] else digits n []

-- `%0wd`: zeros in front up to the width.
abbrev zeros : ℕ → Bytes → Bytes
zeros zero s = s
zeros (suc n) s = b'0' ∷ zeros n s

unfoldable pub padded : ℕ → ℕ → Bytes
unfolding decimal
padded width n = zeros (width - length (decimal n)) (decimal n)

-- `num / den` rounded, ties to even, as fmt rounds an exact fraction.
abbrev pub round_even : ℕ → ℕ → ℕ
round_even num den =
    let q = num / den in
    let r = num % den in if ltb (2 * r) den then q else if ltb den (2 * r) then q + 1 else q + q % 2

unfoldable pub tenths : ℕ → Bytes
unfolding decimal
tenths n = decimal (n / 10) ++ (b'.' ∷ decimal (n % 10))

-- The number that the digits spell behind `n`.
abbrev pub spelled : ℕ → Bytes → ℕ
spelled = foldl (λ n c. n * 10 + (c - b'0'))

emit_digits_unfolds :
    (value : ℕ) (here : Acc ◌<◌ value) (next : Acc ◌<◌ (value / 10)) (there : Bytes)
    → emit_digits value here there
      ≡ ite (dec_lt 0 value) (emit_digits (value / 10) next (last_digit value ∷ there)) there
unfolding emit_digits
emit_digits_unfolds value (Acc.intro _ below) next there = λ i.
    dite (dec_lt 0 value)
      (λ more.
        let tenth = Acc-prop (below (value / 10) (tenth_lt more)) next i in
        emit_digits (value / 10) tenth (last_digit value ∷ there))
      (λ _. there)

digits_unfolds :
    (value : ℕ) (there : Bytes)
    → digits value there
      ≡ ite (dec_lt 0 value) (digits (value / 10) (last_digit value ∷ there)) there
unfolding digits
digits_unfolds value there = emit_digits_unfolds value _ _ there

spelled-digits : (n : ℕ) (out : Bytes) → spelled 0 (digits n out) ≡ spelled n out
spelled-digits n =
    Founded.induction lt_wf {C = λ m. (out : Bytes) → spelled 0 (digits m out) ≡ spelled m out} n
      λ m ih out. grind (arith, digits_unfolds m out, ih (m / 10))

pub spelled-decimal : (n : ℕ) → spelled 0 (decimal n) ≡ n
unfolding decimal
spelled-decimal n = ground (arith, spelled-digits n [])

abbrev pub IsDigit : ℕ → Type 0
IsDigit c = (b'0' ≤ c) × (c ≤ b'9')

dec_cases : (n : ℕ) → (0 < n) ⊎ (n ≡ 0)
dec_cases zero = inr refl
dec_cases (suc n) = inl (omega arith)

digits_more : (n : ℕ) (out : Bytes) → 0 < n → digits n out ≡ digits (n / 10) (last_digit n ∷ out)
digits_more n out h = grind (arith, digits_unfolds n out)

digits_done : (n : ℕ) (out : Bytes) → n ≡ 0 → digits n out ≡ out
digits_done n out e = grind (arith, digits_unfolds n out)

digits-All : (n : ℕ) (out : Bytes) → All IsDigit out → All IsDigit (digits n out)
digits-All n =
    Founded.induction lt_wf {C = λ m. (out : Bytes) → All IsDigit out → All IsDigit (digits m out)}
      n
      λ m ih out h. elim (dec_cases m) [
        | inl pos_m ↦
            subst (All IsDigit) (sym (digits_more m out pos_m))
              (ih (m / 10) (tenth_lt pos_m) (last_digit m ∷ out) ((omega arith, omega arith), h))
        | inr e ↦ subst (All IsDigit) (sym (digits_done m out e)) h
      ]

pub decimal-All : (n : ℕ) → All IsDigit (decimal n)
unfolding decimal
decimal-All n = ground (arith, digits-All n [] tt)

zeros-All : (n : ℕ) (s : Bytes) → All IsDigit s → All IsDigit (zeros n s)
zeros-All zero s h = h
zeros-All (suc n) s h = ((omega arith, omega arith), zeros-All n s h)

pub padded-All : (width n : ℕ) → All IsDigit (padded width n)
unfolding padded
padded-All width n = zeros-All (width - length (decimal n)) (decimal n) (decimal-All n)
