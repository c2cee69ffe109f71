-- ===== src/Command/Specs/Sound.antt =====
-- What the flags may say.
use gatelet.Prelude.{
  ◌≡◌, refl, sym, ap, ◌∙◌, subst, ◌≢◌, ◌↔◌, ◌⊎◌, inl, inr, true, false, List, [], ◌∷◌, arith,
  if◌then◌else◌, Bool-cases, Option-cases, All, Result, ok, err, Bytes, is_empty, trim_space, cut,
  split, Result-cases, >>=-eq-ok,
}
use gatelet.Protocol.Name.{NameError, IsLabel, validate_name-IsLabel}
use gatelet.Server.Names.{Token}
use gatelet.Command.Specs.{
  names_of, parse_name_list, SpecError, status_of, token_of, parse_token_spec, tokens_of,
  parse_token_specs,
}

-- The parts that say something.
abbrev pub said : List Bytes → List Bytes
said [] = []
said (part ∷ parts) =
    if is_empty (trim_space part) then said parts else trim_space part ∷ said parts

abbrev or_nothing : Result NameError (List Bytes) → List Bytes
or_nothing (ok names) = names
or_nothing (err e) = []

abbrev tokens_or_nothing : Result SpecError (List Token) → List Token
tokens_or_nothing (ok ts) = ts
tokens_or_nothing (err e) = []

names_of_sound :
    (parts names : List Bytes)
    → names_of parts ≡ ok names
    → (names ≡ said parts) × All IsLabel (said parts)
unfolding names_of
names_of_sound [] names h = (cc, tt)
names_of_sound (part ∷ parts) names h = elim (Bool-cases (is_empty (trim_space part))) [
  | inl blank ↦ rw blank (names_of_sound parts names (rw (blank, names_of) at h))
  | inr given ↦
      let (one, valid, more) = >>=-eq-ok _ _ (rw (given, names_of) at h) in
      let (rest, parsed, same) = >>=-eq-ok _ _ more in
      let (all, labels) = names_of_sound parts rest parsed in
      rw given (
        sym (ap (λ r. or_nothing r) same) ∙ ap (◌∷◌ (trim_space part)) all,
        ((validate_name-IsLabel (trim_space part)).0 valid, labels),
      )
]

names_of_complete :
    (parts : List Bytes) → All IsLabel (said parts) → names_of parts ≡ ok (said parts)
unfolding names_of
names_of_complete [] h = refl
names_of_complete (part ∷ parts) h = elim (Bool-cases (is_empty (trim_space part))) [
  | inl blank ↦ rw (blank, names_of) (names_of_complete parts (rw blank at h))
  | inr given ↦
      let labels : All IsLabel (trim_space part ∷ said parts) = rw given at h in
      rw (
        given,
        (validate_name-IsLabel (trim_space part)).1 labels.0,
        names_of_complete parts labels.1,
        names_of,
      )
]

-- A list of names is accepted exactly if every part between commas, trimmed, is empty or a DNS label;
-- it stands for the parts that are not empty, in order.
pub parse_name_list_iff :
    (spec : Bytes) (names : List Bytes)
    → (parse_name_list spec ≡ ok names)
      ↔ ((names ≡ said (split b',' spec)) × All IsLabel (said (split b',' spec)))
unfolding parse_name_list
parse_name_list_iff spec names = (
  names_of_sound (split b',' spec) names,
  λ h. names_of_complete (split b',' spec) h.1 ∙ ap ok (sym h.0),
)

abbrev pub IsUsable : Token → Type 0
IsUsable t = IsLabel t.id × (t.value ≢ [])

blank_or_not : (s : Bytes) → (is_empty s ≡ true) ⊎ ((is_empty s ≡ false) × (s ≢ []))
blank_or_not [] = inl refl
blank_or_not (c ∷ s) = inr (refl, λ same. cc)

token_of-IsUsable : (id value : Bytes) (t : Token) → token_of id value ≡ ok t → IsUsable t
unfolding token_of
token_of-IsUsable id value t e = elim (Result-cases (status_of value)) [
  | inr (bad, f) ↦ absurd (ground (arith, f))
  | inl ((v, active), f) ↦ ground (arith, f, blank_or_not v, validate_name-IsLabel id)
]

parse_token_spec-IsUsable : (part : Bytes) (t : Token) → parse_token_spec part ≡ ok t → IsUsable t
unfolding parse_token_spec
parse_token_spec-IsUsable part t e = elim (Option-cases (cut b'=' part)) [
  | inl f ↦ absurd (ground (arith, f))
  | inr ((id, value), f) ↦
      token_of-IsUsable (trim_space id) (trim_space value) t (rw (f, parse_token_spec) at e)
]

tokens_of-IsUsable :
    (parts : List Bytes) (ts : List Token) → tokens_of parts ≡ ok ts → All IsUsable ts
unfolding tokens_of
tokens_of-IsUsable [] [] e = tt
tokens_of-IsUsable [] (t ∷ ts) e = absurd (cc)
tokens_of-IsUsable (part ∷ parts) ts e = elim (Bool-cases (is_empty (trim_space part))) [
  | inl blank ↦ tokens_of-IsUsable parts ts (rw (blank, tokens_of) at e)
  | inr given ↦
      let (t, one, more) = >>=-eq-ok _ _ (rw (given, tokens_of) at e) in
      let (rest, parsed, same) = >>=-eq-ok _ _ more in
      let usable : All IsUsable (t ∷ rest) =
        (parse_token_spec-IsUsable (trim_space part) t one, tokens_of-IsUsable parts rest parsed) in
      subst (All IsUsable) (ap (λ r. tokens_or_nothing r) same) usable
]

-- Every token of a list that is accepted has a DNS label for its id and a value that is not empty, so
-- that the relay uses it.
pub parse_token_specs-IsUsable :
    (spec : Bytes) (ts : List Token) → parse_token_specs spec ≡ ok ts → All IsUsable ts
unfolding parse_token_specs
parse_token_specs-IsUsable spec ts e = tokens_of-IsUsable (split b',' spec) ts e
