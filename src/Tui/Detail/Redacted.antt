-- ===== src/Tui/Detail/Redacted.antt =====
-- What is written of the headers does not depend on the values that are redacted.
use gatelet.Prelude.{
  ℕ, suc, ◌-◌, ◌≡◌, refl, ap, ◌∙◌, ◌⊎◌, inl, inr, true, List, [], ◌∷◌, ◌++◌, leb, if◌then◌else◌,
  length, Bytes, codes, to_lower,
}
use gatelet.Tui.Detail.{
  Styles, redact_header, shown_value, header_line, more_line, header_lines, write_headers,
}

-- A key that carries credentials.
abbrev pub IsSecret : Bytes → Type 0
IsSecret key = (to_lower key ≡ codes "authorization") ⊎ (to_lower key ≡ codes "proxy-authorization")

IsSecret-redact_header : (key : Bytes) → IsSecret key → redact_header key ≡ true
unfolding redact_header
IsSecret-redact_header key (inl e) = rw e refl
IsSecret-redact_header key (inr e) = rw e refl

-- The same keys in the same order, and the same values but under a key that carries credentials.
abbrev pub Agrees : List (Bytes × List Bytes) → List (Bytes × List Bytes) → Type 0
Agrees [] [] = Unit
Agrees [] (g ∷ gs) = ⊥
Agrees (h ∷ hs) [] = ⊥
Agrees ((key, values) ∷ hs) ((other, changed) ∷ gs) =
    (key ≡ other) × (IsSecret key ⊎ (values ≡ changed)) × Agrees hs gs

module _ (styles : Styles) where
  shown_value-Agrees :
      (key : Bytes) (values changed : List Bytes)
      → IsSecret key ⊎ (values ≡ changed)
      → shown_value (key, values) ≡ shown_value (key, changed)
  shown_value-Agrees key values changed (inl e) = rw (IsSecret-redact_header key e) refl
  shown_value-Agrees key values changed (inr e) = ap (λ v. shown_value (key, v)) e

  header_line-Agrees :
      (key other : Bytes) (values changed : List Bytes)
      → key ≡ other
      → IsSecret key ⊎ (values ≡ changed)
      → header_line styles (key, values) ≡ header_line styles (other, changed)
  header_line-Agrees key other values changed e h =
      ap
        (λ v.
          codes "  " ++ (styles.key (key ++ codes ":") ++ (b' ' ∷ (styles.val v ++ b'\n' ∷ []))))
        (shown_value-Agrees key values changed h)
      ∙ ap (λ k. header_line styles (k, changed)) e

  header_lines-Agrees :
      (limit total i : ℕ) (hs gs : List (Bytes × List Bytes))
      → Agrees hs gs
      → header_lines styles limit total i hs ≡ header_lines styles limit total i gs
  unfolding header_lines
  header_lines-Agrees limit total i [] [] h = refl
  header_lines-Agrees limit total i [] (g ∷ gs) h = absurd h
  header_lines-Agrees limit total i (h ∷ hs) [] a = absurd a
  header_lines-Agrees limit total i ((key, values) ∷ hs) ((other, changed) ∷ gs) (e, v, rest) =
      let line = header_line-Agrees key other values changed e v in
      let lines = header_lines-Agrees limit total (suc i) hs gs rest in
      ap (λ text. if leb limit i then more_line styles (total - limit) else text)
        (ap (λ x. x ++ header_lines styles limit total (suc i) hs) line
          ∙ ap (λ y. header_line styles (other, changed) ++ y) lines)

  length-Agrees : (hs gs : List (Bytes × List Bytes)) → Agrees hs gs → length hs ≡ length gs
  length-Agrees [] [] h = refl
  length-Agrees [] (g ∷ gs) h = absurd h
  length-Agrees (h ∷ hs) [] a = absurd a
  length-Agrees (h ∷ hs) (g ∷ gs) a = ap suc (length-Agrees hs gs a.2)

  pub write_headers-Agrees :
      (hs gs : List (Bytes × List Bytes)) (limit : ℕ)
      → Agrees hs gs
      → write_headers styles hs limit ≡ write_headers styles gs limit
  unfolding write_headers
  write_headers-Agrees [] [] limit a = refl
  write_headers-Agrees [] (g ∷ gs) limit a = absurd a
  write_headers-Agrees (h ∷ hs) [] limit a = absurd a
  write_headers-Agrees (h ∷ hs) (g ∷ gs) limit a =
      ap (λ n. header_lines styles limit n 0 (h ∷ hs)) (length-Agrees (h ∷ hs) (g ∷ gs) a)
      ∙ header_lines-Agrees limit (length (g ∷ gs)) 0 (h ∷ hs) (g ∷ gs) a
