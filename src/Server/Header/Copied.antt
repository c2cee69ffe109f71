-- ===== src/Server/Header/Copied.antt =====
-- What a copied header says under each key.
use gatelet.Prelude.{
  ◌≡◌, refl, ap, ◌∙◌, subst, inl, inr, false, Option, none, some, List, [], ◌∷◌, ◌++◌, append_assoc,
  if◌then◌else◌, ◌==◌, nat_eq, ==_iff, ==_self, Bool-cases, lookup, lookup-insert, Bytes, bytes_eq,
  or_else,
}
use gatelet.Server.Header.{Header, add_value, add_values, copy_header, clone_header}

-- A map has each key once.
abbrev pub IsHeader : Header → Type 0
IsHeader [] = Unit
IsHeader ((key, values) ∷ h) = (lookup key h ≡ none) × IsHeader h

-- The values that are there, and behind them the copied ones. A key with no value is not copied.
abbrev pub with_values : Option (List Bytes) → List Bytes → Option (List Bytes)
with_values there [] = there
with_values there (v ∷ vs) = some (or_else there [] ++ v ∷ vs)

abbrev pub with_copied : Option (List Bytes) → Option (List Bytes) → Option (List Bytes)
with_copied there none = there
with_copied there (some values) = with_values there values

lookup-add_value :
    (h : Header) (key value other : Bytes)
    → lookup other (add_value h key value)
      ≡ (if key == other then some (or_else (lookup key h) [] ++ value ∷ []) else lookup other h)
unfolding add_value
lookup-add_value h key value other =
    lookup-insert key other (or_else (lookup key h) [] ++ value ∷ []) h

lookup-add_values_self :
    (h : Header) (key : Bytes) (values : List Bytes)
    → lookup key (add_values h key values) ≡ with_values (lookup key h) values
unfolding add_values
lookup-add_values_self h key [] = refl
lookup-add_values_self h key (v ∷ []) = lookup-add_value h key v key ∙ rw (==_self key) refl
lookup-add_values_self h key (v ∷ w ∷ vs) =
    lookup-add_values_self (add_value h key v) key (w ∷ vs)
    ∙ rw (lookup-add_value h key v key, ==_self key)
        (ap some (append_assoc (or_else (lookup key h) []) (v ∷ []) (w ∷ vs)))

lookup-add_values_ne :
    (h : Header) (key other : Bytes) (values : List Bytes)
    → (key == other) ≡ false
    → lookup other (add_values h key values) ≡ lookup other h
unfolding add_values
lookup-add_values_ne h key other [] e = refl
lookup-add_values_ne h key other (v ∷ vs) e =
    lookup-add_values_ne (add_value h key v) key other vs e
    ∙ (lookup-add_value h key v other ∙ rw e refl)

-- Under each key the copy adds the values of the source behind those that are there.
pub lookup-copy_header :
    (dst src : Header) (key : Bytes)
    → IsHeader src
    → lookup key (copy_header dst src) ≡ with_copied (lookup key dst) (lookup key src)
unfolding copy_header lookup
lookup-copy_header dst [] key u = refl
lookup-copy_header dst ((k, values) ∷ src) key u =
    lookup-copy_header (add_values dst k values) src key u.1 ∙ (elim (Bool-cases (k == key)) [
      | inl e ↦
          let same : k ≡ key = (==_iff k key).0 e in
          let absent : lookup key src ≡ none = rw (← same) u.0 in
          let there : lookup key (add_values dst k values) ≡ with_values (lookup key dst) values =
            subst (λ x. lookup x (add_values dst k values) ≡ with_values (lookup x dst) values) same
              (lookup-add_values_self dst k values) in
          rw (absent, there, e) refl
      | inr e ↦ rw (lookup-add_values_ne dst k key values e, e) refl
    ])

-- A copy says the same as the header under every key that has a value.
pub lookup-clone_header :
    (src : Header) (key v : Bytes) (vs : List Bytes)
    → IsHeader src
    → lookup key src ≡ some (v ∷ vs)
    → lookup key (clone_header src) ≡ some (v ∷ vs)
unfolding clone_header lookup
lookup-clone_header src key v vs u e = lookup-copy_header [] src key u ∙ rw e refl
