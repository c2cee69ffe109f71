-- ===== src/Tui/Actions/Filename.antt =====
-- The name of the file that a curl command is saved in.
use gatelet.Prelude.{
  ℕ, ◌≤◌, ◌≡◌, refl, ◌⊎◌, inl, inr, Bool, true, false, not, ◌&&◌, [], ◌∷◌, ◌++◌, arith, ◌==◌,
  nat_eq, Bool-cases, All, All-append, Bytes, codes, bytes_eq, is_empty, to_lower, trim_left,
  trim_right, trim, padded, IsDigit, padded-All,
}
use gatelet.Client.Events.{RequestEvent}
use gatelet.Tui.Model.{World}
use gatelet.Tui.Actions.{
  is_slug_byte, slug_from, is_dash, slugify, non_empty, request_path, curl_filename,
}

-- A letter in lower case, a digit or a dash.
abbrev pub IsSlugByte : ℕ → Type 0
IsSlugByte c = ((b'a' ≤ c) × (c ≤ b'z')) ⊎ (((b'0' ≤ c) × (c ≤ b'9')) ⊎ (c ≡ b'-'))

is_slug_byte-IsSlugByte : (c : ℕ) → is_slug_byte c ≡ true → IsSlugByte c
unfolding is_slug_byte
is_slug_byte-IsSlugByte c h = ground arith

slug_from-All :
    (last_dash : Bool) (b s : Bytes) → All IsSlugByte b → All IsSlugByte (slug_from last_dash b s)
unfolding slug_from
slug_from-All last_dash b [] h = h
slug_from-All last_dash b (c ∷ cs) h = elim (Bool-cases (is_slug_byte c)) [
  | inl e ↦ rw e (
      slug_from-All false (b ++ c ∷ []) cs
        (All-append IsSlugByte b (c ∷ []) h (is_slug_byte-IsSlugByte c e, tt)))
  | inr e ↦ elim (Bool-cases (not last_dash && not (is_empty b))) [
    | inl f ↦
        rw (e, f)
          (slug_from-All true (b ++ b'-' ∷ []) cs
            (All-append IsSlugByte b (b'-' ∷ []) h (inr (inr refl), tt)))
    | inr f ↦ rw (e, f) (slug_from-All last_dash b cs h)
  ]
]

trim_left-All : (p : ℕ → Bool) (s : Bytes) → All IsSlugByte s → All IsSlugByte (trim_left p s)
unfolding trim_left
trim_left-All p [] h = h
trim_left-All p (c ∷ cs) h = elim (Bool-cases (p c)) [
  | inl e ↦ rw e (trim_left-All p cs h.1)
  | inr e ↦ rw e h
]

trim_right-All : (p : ℕ → Bool) (s : Bytes) → All IsSlugByte s → All IsSlugByte (trim_right p s)
unfolding trim_right
trim_right-All p [] h = h
trim_right-All p (c ∷ cs) h = elim (Bool-cases (is_empty (trim_right p cs) && p c)) [
  | inl e ↦ rw e tt
  | inr e ↦ rw e (h.0, trim_right-All p cs h.1)
]

slugify-All : (s : Bytes) → All IsSlugByte (slugify s)
unfolding slugify trim
slugify-All s =
    trim_right-All is_dash _ (trim_left-All is_dash _ (slug_from-All false [] (to_lower s) tt))

-- A byte that does not end a directory's name.
abbrev pub IsNameByte : ℕ → Type 0
IsNameByte c = (c == b'/') ≡ false

All-weaken : (P Q : ℕ → Type 0) (f : (c : ℕ) → P c → Q c) (s : Bytes) → All P s → All Q s
All-weaken P Q f [] h = tt
All-weaken P Q f (c ∷ cs) h = (f c h.0, All-weaken P Q f cs h.1)

to_lower-All : (s : Bytes) → All IsNameByte s → All IsNameByte (to_lower s)
to_lower-All [] h = tt
to_lower-All (c ∷ cs) h = (ground arith, to_lower-All cs h.1)

non_empty-All :
    (s fallback : Bytes)
    → All IsNameByte s
    → All IsNameByte fallback
    → All IsNameByte (non_empty s fallback)
non_empty-All [] fallback h k = k
non_empty-All (c ∷ cs) fallback h k = h

-- The file name of a request whose method has no slash has none, whatever the request's path is: the
-- file lies in the directory of the captures.
pub curl_filename-All :
    (world : World) (event : RequestEvent)
    → All IsNameByte event.method
    → All IsNameByte (curl_filename world event)
unfolding curl_filename
curl_filename-All world event h =
    let digit : (c : ℕ) → IsDigit c → IsNameByte c = λ c d. ground arith in
    let slug : (c : ℕ) → IsSlugByte c → IsNameByte c = λ c d. ground arith in
    let method : Bytes = non_empty (to_lower event.method) (codes "request") in
    let path : Bytes = non_empty (slugify (request_path world event)) (codes "root") in
    let method_ok : All IsNameByte method =
      non_empty-All (to_lower event.method) (codes "request") (to_lower-All event.method h)
        (refl, (refl, (refl, (refl, (refl, (refl, (refl, tt))))))) in
    let path_ok : All IsNameByte path =
      non_empty-All (slugify (request_path world event)) (codes "root")
        (All-weaken IsSlugByte IsNameByte slug _ (slugify-All (request_path world event)))
        (refl, (refl, (refl, (refl, tt)))) in
    All-append IsNameByte (padded 6 event.id) _
      (All-weaken IsDigit IsNameByte digit _ (padded-All 6 event.id))
      (
        refl,
        All-append IsNameByte method _ method_ok
            (refl, All-append IsNameByte path _ path_ok (refl, (refl, (refl, (refl, (refl, tt)))))),
      )
