-- ===== src/Client/Preview/Chunks.antt =====
-- The capture does not depend on how the body is cut into reads.
use gatelet.Prelude.{
  ℕ, zero, suc, ◌-◌, ◌≤◌, ◌≡◌, refl, sym, ap, ◌∙◌, inl, inr, Bool, false, Option, List, [], ◌∷◌,
  ◌++◌, append_assoc, append-nil, arith, ltb, Bool-cases, length, take, length-append, length-take,
  Bytes, ℤ,
}
use Prim.Native.Nat.{min}
use gatelet.Client.Preview.{Capture, new_capture, write, preview}

pub write_all : Capture → List Bytes → Capture
write_all c [] = c
write_all c (p ∷ ps) = write_all (write c p) ps

abbrev pub joined : List Bytes → Bytes
joined [] = []
joined (p ∷ ps) = p ++ joined ps

take_all : (n : ℕ) (s : Bytes) → length s ≤ n → take n s ≡ s
take_all zero [] h = refl
take_all zero (x ∷ s) h = absurd (omega arith)
take_all (suc n) [] h = refl
take_all (suc n) (x ∷ s) h = ap (◌∷◌ x) (take_all n s (omega arith))

sub_min : (n m : ℕ) → n - min n m ≡ n - m
sub_min n m = omega arith

take_zero : (s : Bytes) → take 0 s ≡ []
take_zero s = refl

take-append : (n : ℕ) (s t : Bytes) → take n (s ++ t) ≡ take n s ++ take (n - length s) t
take-append zero [] t = refl
take-append zero (x ∷ s) t =
    let none_left : 0 ≡ 0 - suc (length s) = omega arith in ap (λ (k : ℕ). take k t) none_left
take-append (suc n) [] t =
    let all_left : suc n ≡ suc n - 0 = omega arith in ap (λ (k : ℕ). take k t) all_left
take-append (suc n) (x ∷ s) t =
    let same : n - length s ≡ suc n - suc (length s) = omega arith in
    ap (◌∷◌ x) (take-append n s t ∙ ap (λ (k : ℕ). take n s ++ take k t) same)

-- What a capture holds of a body.
pub record Holds (c : Capture) (body : Bytes) : Type 0 where
  pub buf : c.buf ≡ take c.limit body
  pub size : c.size ≡ length body

write-buf : (c : Capture) (p : Bytes) → (write c p).buf ≡ c.buf ++ take (c.limit - length c.buf) p
unfolding write
write-buf c p = elim (Bool-cases (ltb 0 (c.limit - length c.buf))) [
  | inr full ↦
      let nothing : c.limit - length c.buf ≡ 0 = ground (arith, full) in
      rw full (sym (ap (λ (k : ℕ). c.buf ++ take k p) nothing ∙ append-nil c.buf))
  | inl room ↦ elim (Bool-cases (ltb (c.limit - length c.buf) (length p))) [
    | inl long ↦ rw (room, long)
    | inr short ↦
        rw (room, short)
          (ap (◌++◌ c.buf) (sym (take_all (c.limit - length c.buf) p (ground (arith, short)))))
  ]
]

write-limit : (c : Capture) (p : Bytes) → (write c p).limit ≡ c.limit
unfolding write
write-limit c p = refl

write-Holds : (c : Capture) (body p : Bytes) → Holds c body → Holds (write c p) (body ++ p)
unfolding write
write-Holds c body p h = record {
  buf =
      write-buf c p
      ∙ ap (λ (b : Bytes). b ++ take (c.limit - length b) p) h.buf
      ∙ ap (λ (k : ℕ). take c.limit body ++ take k p)
          (ap (λ (k : ℕ). c.limit - k) (length-take c.limit body) ∙ sub_min c.limit (length body))
      ∙ sym (take-append c.limit body p);
  size = omega (arith, h.size, length-append body p);
}

write_all-Holds :
    (c : Capture) (body : Bytes) (ps : List Bytes)
    → Holds c body
    → Holds (write_all c ps) (body ++ joined ps)
unfolding write_all
write_all-Holds c body [] h = rw (append-nil body) h
write_all-Holds c body (p ∷ ps) h =
    rw (← append_assoc body p (joined ps))
      (write_all-Holds (write c p) (body ++ p) ps (write-Holds c body p h))

write_all-fields :
    (c : Capture) (ps : List Bytes)
    → ((write_all c ps).limit ≡ c.limit) × ((write_all c ps).content_type ≡ c.content_type)
unfolding write_all write
write_all-fields c [] = (refl, refl)
write_all-fields c (p ∷ ps) = write_all-fields (write c p) ps

take_nil : (n : ℕ) → ◌≡◌ {A = Bytes} (take n []) []
take_nil zero = refl
take_nil (suc n) = refl

new_capture-Holds : (content_type : Bytes) (limit : ℤ) → Holds (new_capture content_type limit) []
unfolding new_capture
new_capture-Holds content_type limit = record { buf = sym (take_nil _); size = refl }

-- The preview of a body with this limit, from the body as a whole.
abbrev pub capture_of : Bytes → ℤ → Bytes → Capture
capture_of content_type limit body =
    let c = new_capture content_type limit in
    record {
      content_type = c.content_type;
      limit = c.limit;
      buf = take c.limit body;
      size = length body;
    }

module _ (parse_media_type : Bytes → Option Bytes) (utf8_valid : Bytes → Bool) where
  whole_body :
      (c : Capture) (body : Bytes)
      → Holds c body
      → (preview parse_media_type utf8_valid c).omitted ≡ false
      → (preview parse_media_type utf8_valid c).text ≡ body
  unfolding preview
  whole_body c [] h e = ground (arith, h.size)
  whole_body c (x ∷ body) h e =
      let fits = take_all c.limit (x ∷ body) in ground (arith, h.size, h.buf, fits)

  -- However a body is cut into reads, its preview is the same: it counts the whole body, keeps no
  -- more than the limit, and if it is not marked as omitted its text is the whole body.
  pub preview-write_all :
      (content_type : Bytes) (limit : ℤ) (ps : List Bytes)
      → let p =
          preview parse_media_type utf8_valid (write_all (new_capture content_type limit) ps) in
        (p ≡ preview parse_media_type utf8_valid (capture_of content_type limit (joined ps)))
        × (p.omitted ≡ false → p.text ≡ joined ps)
  preview-write_all content_type limit ps =
      (ap (preview parse_media_type utf8_valid) same, complete)
    where
      held : Holds (write_all (new_capture content_type limit) ps) (joined ps)
      held =
          write_all-Holds (new_capture content_type limit) [] ps
            (new_capture-Holds content_type limit)

      same :
          write_all (new_capture content_type limit) ps ≡ capture_of content_type limit (joined ps)
      same =
          ground (arith, held.buf, held.size, write_all-fields (new_capture content_type limit) ps)

      complete :
          (preview parse_media_type utf8_valid
              (write_all (new_capture content_type limit) ps)).omitted
            ≡ false
          → (preview parse_media_type utf8_valid
              (write_all (new_capture content_type limit) ps)).text
            ≡ joined ps
      complete = whole_body (write_all (new_capture content_type limit) ps) (joined ps) held
