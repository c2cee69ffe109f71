-- ===== src/Protocol/Line.antt =====
-- `ReadLine`: one byte at a time from a reader, up to a newline and a limit.
pub mod Sound
pub mod Whole
use gatelet.Prelude.{
  ℕ, ◌≤◌, ◌≡◌, refl, sym, ◌∙◌, inl, inr, Bool, true, false, Option, none, some, List, [], ◌∷◌, ◌++◌,
  append_assoc, append-nil, arith, ltb, if◌then◌else◌, ltb→lt, lt→ltb, nat_beq_iff, ◌==◌, nat_eq,
  Bool-cases, length, length-append, Result, ok, err, Bytes, bytes_eq, cut,
}

-- One call `r.Read(buf)` with a buffer of one byte: the byte if n is 1, and whether err is not nil.
pub record ReadStep : Type 0 where
  pub byte : Option ℕ
  pub failed : Bool

-- The calls that the reader will answer; behind the last it answers 0, io.EOF.
abbrev pub Reader : Type 0
Reader = List ReadStep

pub data ReadError : Type 0 where
  line_too_long read_failed : ReadError

-- `line` is what was read so far; with the line comes the reader behind it.
read_from : ℕ → Bytes → Reader → Result ReadError (Bytes × Reader)
read_from limit line [] = err read_failed
read_from limit line (step ∷ r) = elim step.byte [
  | none ↦ elim step.failed [ true ↦ err read_failed | false ↦ read_from limit line r ]
  | some b ↦
      let next = line ++ b ∷ [] in
      let rest = read_from limit next r in
      if ltb limit (length next)
      then err line_too_long
      else if b == b'\n'
      then ok (next, r)
      else if step.failed
      then err read_failed
      else rest
]

unfoldable pub read_line : Reader → ℕ → Result ReadError (Bytes × Reader)
unfolding read_from
read_line r limit = read_from limit [] r

-- A reader that serves these bytes one by one and then the end of the stream.
abbrev pub served : Bytes → Reader
served [] = []
served (b ∷ s) = record { byte = some b; failed = false } ∷ served s

-- What `ReadLine` makes of a stream behind the bytes `line`, from the stream's first newline.
abbrev line_behind : ℕ → Bytes → Bytes → Option (Bytes × Bytes) → Result ReadError (Bytes × Reader)
line_behind limit line s none =
    if ltb limit (length (line ++ s)) then err line_too_long else err read_failed
line_behind limit line s (some (before, after)) =
    let whole = line ++ (before ++ b'\n' ∷ []) in
    if ltb limit (length whole) then err line_too_long else ok (whole, served after)

-- Its outcome on a whole stream.
abbrev pub line_of : ℕ → Bytes → Result ReadError (Bytes × Reader)
line_of limit s = line_behind limit [] s (cut b'\n' s)

cut_cons_ne :
    (b : ℕ) (s : Bytes)
    → (b == b'\n') ≡ false
    → cut b'\n' (b ∷ s)
      ≡ elim (cut b'\n' s) [ none ↦ none | some (before, after) ↦ some (b ∷ before, after) ]
unfolding cut
cut_cons_ne b s h = rw h

cut_newline : (s : Bytes) → cut b'\n' (b'\n' ∷ s) ≡ some ([], s)
unfolding cut
cut_newline s = refl

line_behind_nil :
    (limit : ℕ) (line : Bytes)
    → length line ≤ limit
    → err read_failed ≡ line_behind limit line [] (cut b'\n' [])
unfolding cut
line_behind_nil limit line h = rw (append-nil line) (ground arith)

line_behind_too_long :
    (limit : ℕ) (line : Bytes) (b : ℕ) (s : Bytes)
    → ltb limit (length (line ++ b ∷ [])) ≡ true
    → (b == b'\n') ≡ false
    → (o : Option (Bytes × Bytes)) → cut b'\n' s ≡ o
    → line_behind limit line (b ∷ s) (cut b'\n' (b ∷ s)) ≡ err line_too_long
line_behind_too_long limit line b s long other none e =
    rw (cut_cons_ne b s other, e)
      (rw (
        lt→ltb limit (length (line ++ b ∷ s)) (
          omega (arith, ltb→lt _ _ long, length-append line (b ∷ []), length-append line (b ∷ s)))))
line_behind_too_long limit line b s long other (some (before, after)) e =
    rw (cut_cons_ne b s other, e)
      (rw (
        lt→ltb limit (length (line ++ (b ∷ before ++ b'\n' ∷ []))) (
          omega (
            arith,
            ltb→lt _ _ long,
            length-append line (b ∷ []),
            length-append line (b ∷ before ++ b'\n' ∷ []),
          ))))

line_behind_next :
    (limit : ℕ) (line : Bytes) (b : ℕ) (s : Bytes)
    → (b == b'\n') ≡ false
    → (o : Option (Bytes × Bytes)) → cut b'\n' s ≡ o
    → line_behind limit (line ++ b ∷ []) s (cut b'\n' s)
      ≡ line_behind limit line (b ∷ s) (cut b'\n' (b ∷ s))
line_behind_next limit line b s other none e =
    rw (cut_cons_ne b s other, e) (rw (append_assoc line (b ∷ []) s))
line_behind_next limit line b s other (some (before, after)) e =
    rw (cut_cons_ne b s other, e) (rw (append_assoc line (b ∷ []) (before ++ b'\n' ∷ [])))

read_from-served :
    (limit : ℕ) (line s : Bytes)
    → length line ≤ limit
    → read_from limit line (served s) ≡ line_behind limit line s (cut b'\n' s)
unfolding read_from
read_from-served limit line [] h = line_behind_nil limit line h
read_from-served limit line (b ∷ s) h = elim (Bool-cases (b == b'\n')) [
  | inl nl ↦ rw ((nat_beq_iff b b'\n').0 nl) (rw (cut_newline s))
  | inr other ↦ elim (Bool-cases (ltb limit (length (line ++ b ∷ [])))) [
    | inl long ↦ rw long (sym (line_behind_too_long limit line b s long other _ refl))
    | inr short ↦
        rw (short, other)
          (read_from-served limit (line ++ b ∷ []) s (ground arith)
            ∙ line_behind_next limit line b s other _ refl)
  ]
]

-- On a stream of bytes `ReadLine` returns the bytes up to the first newline, that newline included,
-- and leaves the rest; it fails for length exactly when that line, or a stream with no newline, is
-- longer than the limit, and otherwise for want of a newline.
pub read_line-served : (limit : ℕ) (s : Bytes) → read_line (served s) limit ≡ line_of limit s
unfolding read_line
read_line-served limit s = read_from-served limit [] s (omega arith)
