-- ===== src/Protocol/Line/Whole.antt =====
-- `ReadLine` on a stream that begins with a line.
use gatelet.Prelude.{ℕ, ◌≤◌, ◌≡◌, ap, ◌∙◌, some, [], ◌∷◌, ◌++◌, arith, length, ok, Bytes, cut}
use gatelet.Protocol.Line.{served, line_of, read_line, read_line-served}
use gatelet.Protocol.Line.Sound.{IsLine}

IsLine-cut :
    (l rest : Bytes)
    → IsLine l
    → (before : Bytes) × (l ≡ before ++ b'\n' ∷ []) × (cut b'\n' (l ++ rest) ≡ some (before, rest))
unfolding cut
IsLine-cut [] rest h = absurd h
IsLine-cut (b ∷ []) rest h = ([], ap (λ (c : ℕ). c ∷ []) h, rw h)
IsLine-cut (b ∷ c ∷ l) rest h =
    let (before, same, e) = IsLine-cut (c ∷ l) rest h.1 in
    (b ∷ before, ap (◌∷◌ b) same, ground (arith, e, h.0))

-- A line within the limit is read as it is, and what follows is left.
pub read_line-IsLine :
    (limit : ℕ) (l rest : Bytes)
    → IsLine l
    → length l ≤ limit
    → read_line (served (l ++ rest)) limit ≡ ok (l, served rest)
read_line-IsLine limit l rest h fits =
    let (before, same, e) = IsLine-cut l rest h in
    read_line-served limit (l ++ rest) ∙ whole before same e
  where
    whole :
        (before : Bytes)
        → l ≡ before ++ b'\n' ∷ []
        → cut b'\n' (l ++ rest) ≡ some (before, rest)
        → line_of limit (l ++ rest) ≡ ok (l, served rest)
    whole before same e = rw (e, ← same) (ground arith)
