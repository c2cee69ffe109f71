-- ===== src/Prelude/Maps.antt =====
-- A Go map as an association list: the laws hold of every list, repeated keys included.
use mathlib.Core.Path.{◌≡◌, refl, ◌∙◌}
use mathlib.Core.List.{List, [], ◌∷◌}
use mathlib.Core.Option.{Option, none, some}
use native.Mathlib.Omega.{arith}
use mathlib.Core.Bool.{false}
use gatelet.Prelude.Tests.{Eq, ◌==◌, ==_iff, ==_self, if◌then◌else◌}

abbrev pub GoMap {ℓ κ} : Type ℓ → Type κ → Type (ℓ ⊔ κ)
GoMap K V = List (K × V)

module _ {ℓ κ} {K : Type ℓ} {V : Type κ} ⦃e : Eq K⦄ where
  unfoldable pub lookup : K → GoMap K V → Option V
  lookup key [] = none
  lookup key ((other, value) ∷ rest) = if other == key then some value else lookup key rest

  unfoldable pub erase : K → GoMap K V → GoMap K V
  erase key [] = []
  erase key ((other, value) ∷ rest) =
      if other == key then erase key rest else (other, value) ∷ erase key rest

  unfoldable pub insert : K → V → GoMap K V → GoMap K V
  insert key new [] = (key, new) ∷ []
  insert key new ((other, old) ∷ rest) =
      if other == key then (key, new) ∷ rest else (other, old) ∷ insert key new rest

  pub lookup-erase :
      (k j : K) (m : GoMap K V) → lookup j (erase k m) ≡ (if k == j then none else lookup j m)
  unfolding lookup erase
  lookup-erase k j [] = ground arith
  lookup-erase k j ((i, w) ∷ m) =
      ground (arith, ==_iff k j, ==_iff i k, ==_iff i j, lookup-erase k j m)

  pub lookup-insert :
      (key other : K) (new : V) (m : GoMap K V)
      → lookup other (insert key new m) ≡ (if key == other then some new else lookup other m)
  unfolding lookup insert
  lookup-insert key other new [] = refl
  lookup-insert key other new ((i, old) ∷ m) =
      ground (arith, lookup-insert key other new m, ==_iff i other, ==_iff i key, ==_iff key other)

  pub lookup-insert_self : (k : K) (v : V) (m : GoMap K V) → lookup k (insert k v m) ≡ some v
  lookup-insert_self k v m = simp (lookup-insert, ==_self)

  pub lookup-insert_ne :
      (k j : K) (v : V) (m : GoMap K V) → (k == j) ≡ false → lookup j (insert k v m) ≡ lookup j m
  lookup-insert_ne k j v m h = lookup-insert k j v m ∙ (rw h)

  pub lookup-erase_self : (k : K) (m : GoMap K V) → lookup k (erase k m) ≡ none
  lookup-erase_self k m = simp (lookup-erase, ==_self)
