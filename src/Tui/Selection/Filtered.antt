-- ===== src/Tui/Selection/Filtered.antt =====
-- The filter: a request is shown if every word of the filter occurs in it.
use gatelet.Prelude.{
  ◌≡◌, refl, sym, ap, ◌∙◌, ◌≢◌, ◌↔◌, ◌⊎◌, inl, inr, Bool, true, false, List, [], ◌∷◌, ◌++◌,
  append_assoc, arith, if◌then◌else◌, Bool-cases, All, All-append, Bytes, to_lower, is_space,
  has_substring,
}
use gatelet.Tui.Model.{RequestItem, Model}
use gatelet.Tui.Selection.{
  add_field, fields_from, fields, haystack, all_terms, matches, keep, visible_of, visible_requests,
}

-- The words that `strings.Fields` finds: no space, not empty.
abbrev pub IsWord : Bytes → Type 0
IsWord w = (w ≢ []) × All (λ c. is_space c ≡ false) w

unfoldable pub no_spaces : Bytes → Bytes
no_spaces [] = []
no_spaces (c ∷ cs) = let rest = no_spaces cs in if is_space c then rest else c ∷ rest

abbrev pub concat : List Bytes → Bytes
concat [] = []
concat (w ∷ ws) = w ++ concat ws

abbrev Unspaced : Bytes → Type 0
Unspaced = All (λ c. is_space c ≡ false)

add_field-words :
    (cur : Bytes) (ws : List Bytes) → Unspaced cur → All IsWord ws → All IsWord (add_field cur ws)
add_field-words [] ws u h = h
add_field-words (c ∷ cs) ws u h = (((λ e. absurd (cc)), u), h)

fields_from-words : (cur s : Bytes) → Unspaced cur → All IsWord (fields_from cur s)
unfolding fields_from
fields_from-words cur [] u = add_field-words cur [] u tt
fields_from-words cur (c ∷ cs) u = elim (Bool-cases (is_space c)) [
  | inl e ↦ rw e (add_field-words cur (fields_from [] cs) u (fields_from-words [] cs tt))
  | inr e ↦ rw e (
      fields_from-words (cur ++ c ∷ []) cs
        (All-append (λ b. is_space b ≡ false) cur (c ∷ []) u (e, tt)))
]

concat-add_field : (cur : Bytes) (ws : List Bytes) → concat (add_field cur ws) ≡ cur ++ concat ws
concat-add_field [] ws = refl
concat-add_field (c ∷ cs) ws = refl

concat-fields_from : (cur s : Bytes) → concat (fields_from cur s) ≡ cur ++ no_spaces s
unfolding fields_from no_spaces
concat-fields_from cur [] = concat-add_field cur []
concat-fields_from cur (c ∷ cs) = elim (Bool-cases (is_space c)) [
  | inl e ↦
      rw e
        (concat-add_field cur (fields_from [] cs) ∙ ap (λ l. cur ++ l) (concat-fields_from [] cs))
  | inr e ↦ rw e (concat-fields_from (cur ++ c ∷ []) cs ∙ append_assoc cur (c ∷ []) (no_spaces cs))
]

-- The words of a text are its parts between spaces, in order.
pub fields-words : (s : Bytes) → All IsWord (fields s) × (concat (fields s) ≡ no_spaces s)
unfolding fields
fields-words s = (fields_from-words [] s tt, concat-fields_from [] s)

-- An entry of a list.
abbrev pub Occurs : RequestItem → List RequestItem → Type 0
Occurs a [] = ⊥
Occurs a (x ∷ xs) = (x ≡ a) ⊎ Occurs a xs

abbrev pub HasWords : List Bytes → Bytes → Type 0
HasWords ws text = All (λ w. has_substring w text ≡ true) ws

all_terms_iff : (ws : List Bytes) (text : Bytes) → (all_terms ws text ≡ true) ↔ HasWords ws text
all_terms_iff [] text = ((λ _. tt), (λ _. refl))
all_terms_iff (w ∷ ws) text =
    let (there, back) = all_terms_iff ws text in
    ((λ e. ground (arith, e, there)), (λ h. ground (arith, h, back)))

true-ne-false : true ≢ false
true-ne-false e = cc

to_kept :
    (p : RequestItem → Bool) (a x : RequestItem) (xs : List RequestItem)
    → p x ≡ true
    → (Occurs a (keep p xs) → Occurs a xs × (p a ≡ true))
    → Occurs a (x ∷ keep p xs)
    → Occurs a (x ∷ xs) × (p a ≡ true)
to_kept p a x xs e there (inl same) = (inl same, ap p (sym same) ∙ e)
to_kept p a x xs e there (inr o) = let (o', t) = there o in (inr o', t)

of_kept :
    (p : RequestItem → Bool) (a x : RequestItem) (xs : List RequestItem)
    → (Occurs a xs × (p a ≡ true) → Occurs a (keep p xs))
    → Occurs a (x ∷ xs) × (p a ≡ true)
    → Occurs a (x ∷ keep p xs)
of_kept p a x xs back (inl same, t) = inl same
of_kept p a x xs back (inr o, t) = inr (back (o, t))

keep_iff :
    (p : RequestItem → Bool) (a : RequestItem) (xs : List RequestItem)
    → Occurs a (keep p xs) ↔ (Occurs a xs × (p a ≡ true))
keep_iff p a [] = ((λ h. absurd h), (λ h. absurd h.0))
keep_iff p a (x ∷ xs) =
    let (there, back) = keep_iff p a xs in
    elim (Bool-cases (p x)) [
      | inl e ↦ rw e (to_kept p a x xs e there, of_kept p a x xs back)
      | inr e ↦ rw e (
        (λ h. let (o, t) = there h in (inr o, t)),
        λ h. elim h.0 [
          | inl same ↦ absurd (true-ne-false (sym h.1 ∙ (ap p (sym same) ∙ e)))
          | inr o ↦ back (o, h.1)
        ],
      )
    ]

visible_of_iff :
    (filter : Bytes) (rs : List RequestItem) (item : RequestItem)
    → Occurs item (visible_of filter rs)
      ↔ (Occurs item rs × HasWords (fields (to_lower filter)) (haystack item))
unfolding matches fields fields_from
visible_of_iff [] rs item = ((λ o. (o, tt)), (λ h. h.0))
visible_of_iff (c ∷ cs) rs item =
    let words = fields (to_lower (c ∷ cs)) in
    let (there, back) = keep_iff (matches words) item rs in
    let (to_words, of_words) = all_terms_iff words (haystack item) in
    ((λ o. let (o', t) = there o in (o', to_words t)), (λ h. back (h.0, of_words h.1)))

-- A request is shown exactly if it is in the history and every word of the filter in lower case occurs
-- in its text; the words are not empty, hold no space, and are together the filter without its spaces.
pub visible_requests_iff :
    (m : Model) (item : RequestItem)
    → let words = fields (to_lower m.filter) in
      (Occurs item (visible_requests m) ↔ (Occurs item m.requests × HasWords words (haystack item)))
      × All IsWord words
      × (concat words ≡ no_spaces (to_lower m.filter))
unfolding visible_requests
visible_requests_iff m item =
    let (words, whole) = fields-words (to_lower m.filter) in
    (visible_of_iff m.filter m.requests item, words, whole)
