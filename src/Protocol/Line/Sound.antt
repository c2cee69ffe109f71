-- ===== src/Protocol/Line/Sound.antt =====
-- What a line that `ReadLine` returns is, whatever the reader does.
use gatelet.Prelude.{
  ℕ, ◌≤◌, ◌≡◌, ap, ◌∙◌, ◌≢◌, ◌⊎◌, inl, inr, Bool, true, false, Option, none, some, [], ◌∷◌, ◌++◌,
  append_assoc, arith, length, ok, Bytes,
}
use gatelet.Protocol.Line.{Reader, read_from, read_line}

-- The bytes that the reader hands over if it is read to the end.
abbrev pub received : Reader → Bytes
received [] = []
received (step ∷ r) = elim step.byte [ none ↦ received r | some b ↦ b ∷ received r ]

-- A line: its only newline is the last byte.
abbrev pub IsLine : Bytes → Type 0
IsLine [] = ⊥
IsLine (b ∷ []) = b ≡ b'\n'
IsLine (b ∷ c ∷ s) = (b ≢ b'\n') × IsLine (c ∷ s)

abbrev Reads : ℕ → Bytes → Reader → Bytes → Reader → Type 0
Reads limit acc r line rest =
    (s : Bytes) × (line ≡ acc ++ s)
    × IsLine s
    × (length line ≤ limit)
    × (received r ≡ s ++ received rest)

IsLine-cons : (b : ℕ) (s : Bytes) → b ≢ b'\n' → IsLine s → IsLine (b ∷ s)
IsLine-cons b [] h l = absurd l
IsLine-cons b (c ∷ s) h l = (h, l)

Reads-cons :
    (limit : ℕ) (acc : Bytes) (b : ℕ) (f : Bool) (r : Reader) (line : Bytes) (rest : Reader)
    → b ≢ b'\n'
    → Reads limit (acc ++ b ∷ []) r line rest
    → Reads limit acc (record { byte = some b; failed = f } ∷ r) line rest
Reads-cons limit acc b f r line rest h (s, same, l, short, bytes) =
    (b ∷ s, same ∙ append_assoc acc (b ∷ []) s, IsLine-cons b s h l, short, ap (◌∷◌ b) bytes)

-- One byte: it ends the line, or the loop goes on.
read_byte :
    (limit : ℕ) (acc : Bytes) (b : ℕ) (f : Bool) (r : Reader) (line : Bytes) (rest : Reader)
    → read_from limit acc (record { byte = some b; failed = f } ∷ r) ≡ ok (line, rest)
    → ((b ≡ b'\n') × (line ≡ acc ++ b ∷ []) × (length line ≤ limit) × (rest ≡ r))
      ⊎ ((b ≢ b'\n') × (read_from limit (acc ++ b ∷ []) r ≡ ok (line, rest)))
unfolding read_from
read_byte limit acc b f r line rest e = ground arith

Reads-step :
    (limit : ℕ) (acc : Bytes) (b : Option ℕ) (f : Bool) (r : Reader) (line : Bytes) (rest : Reader)
    → read_from limit acc (record { byte = b; failed = f } ∷ r) ≡ ok (line, rest)
    → (read_from limit acc r ≡ ok (line, rest) → Reads limit acc r line rest)
    → ((c : ℕ)
        → read_from limit (acc ++ c ∷ []) r ≡ ok (line, rest)
        → Reads limit (acc ++ c ∷ []) r line rest)
    → Reads limit acc (record { byte = b; failed = f } ∷ r) line rest
unfolding read_from
Reads-step limit acc none true r line rest e skip more = absurd (cc)
Reads-step limit acc none false r line rest e skip more = skip e
Reads-step limit acc (some b) f r line rest e skip more =
    elim (read_byte limit acc b f r line rest e) [
      | inl (nl, same, short, left) ↦ (b ∷ [], same, nl, short, rw left)
      | inr (other, e') ↦ Reads-cons limit acc b f r line rest other (more b e')
    ]

read_from_sound :
    (limit : ℕ) (acc : Bytes) (r : Reader) (line : Bytes) (rest : Reader)
    → read_from limit acc r ≡ ok (line, rest)
    → Reads limit acc r line rest
unfolding read_from
read_from_sound limit acc [] line rest e = absurd (cc)
read_from_sound limit acc (step ∷ r) line rest e =
    Reads-step limit acc step.byte step.failed r line rest e (read_from_sound limit acc r line rest)
      (λ c. read_from_sound limit (acc ++ c ∷ []) r line rest)

-- A line that `ReadLine` returns ends in its only newline, is within the limit, and is what the
-- reader handed over before the reader that is left; so no byte behind the line is lost.
pub read_line_sound :
    (r : Reader) (limit : ℕ) (line : Bytes) (rest : Reader)
    → read_line r limit ≡ ok (line, rest)
    → IsLine line × (length line ≤ limit) × (received r ≡ line ++ received rest)
unfolding read_line
read_line_sound r limit line rest e =
    let (s, same, l, short, bytes) = read_from_sound limit [] r line rest e in
    (rw same l, short, rw same bytes)
