-- ===== src/Client/Replay/Shell.antt =====
-- The curl command read back by a POSIX shell.
use gatelet.Prelude.{
  ℕ, ◌≡◌, refl, sym, ap, ◌∙◌, inl, inr, Bool, true, false, ◌&&◌, ◌||◌, Option, none, some, List, [],
  ◌∷◌, ◌++◌, append_assoc, append-nil, leb, if◌then◌else◌, nat_beq_iff, ◌==◌, nat_eq, Bool-cases,
  All, Bytes, bytes_eq,
}
use gatelet.Client.Replay.{escape_quotes, shell_quote}

-- A byte that means itself to a shell outside quotes.
abbrev pub is_plain : ℕ → Bool
is_plain c =
    (leb b'a' c && leb c b'z')
    || (leb b'A' c && leb c b'Z')
    || (leb b'0' c && leb c b'9')
    || c == b'-'

-- A POSIX shell's reading of words: plain bytes, single-quoted runs and a backslash with its byte make
-- up a word, and a blank ends it. `none` for anything else, such as an open quote, a `$` or a `|`.
pub data Mode : Type 0 where
  between : Mode
  word quoted escaped : Bytes → Mode

abbrev begun : Mode → Bytes
begun between = []
begun (word w) = w
begun (quoted w) = w
begun (escaped w) = w

abbrev finished : Mode → List Bytes
finished (word w) = w ∷ []
finished m = []

abbrev unquoted : Mode → ℕ → Option (List Bytes × Mode)
unquoted m c =
    if is_plain c
    then some ([], word (begun m ++ c ∷ []))
    else if c == b' '
    then some (finished m, between)
    else if c == b'\''
    then some ([], quoted (begun m))
    else if c == b'\\'
    then some ([], escaped (begun m))
    else none

abbrev shell_step : Mode → ℕ → Option (List Bytes × Mode)
shell_step (quoted w) c = some ([], (if c == b'\'' then word w else quoted (w ++ c ∷ [])))
shell_step (escaped w) c = some ([], word (w ++ c ∷ []))
shell_step (word w) c = unquoted (word w) c
shell_step between c = unquoted between c

abbrev pub emit : List Bytes → Option (List Bytes) → Option (List Bytes)
emit out none = none
emit out (some ws) = some (out ++ ws)

unfoldable pub shell_words : Mode → Bytes → Option (List Bytes)
shell_words between [] = some []
shell_words (word w) [] = some (w ∷ [])
shell_words (quoted w) [] = none
shell_words (escaped w) [] = none
shell_words m (c ∷ cs) = elim (shell_step m c) [
  | none ↦ none
  | some (out, m') ↦ emit out (shell_words m' cs)
]

resumed : Bytes → Option (List Bytes × Mode) → Option (List Bytes)
resumed cs o = elim o [ none ↦ none | some (out, m') ↦ emit out (shell_words m' cs) ]

emit_nothing : (o : Option (List Bytes)) → emit [] o ≡ o
emit_nothing none = refl
emit_nothing (some ws) = refl

quoted_other :
    (w : Bytes)
    → (c : ℕ) → (cs : Bytes) → (c == b'\'') ≡ false
    → shell_words (quoted w) (c ∷ cs) ≡ shell_words (quoted (w ++ c ∷ [])) cs
unfolding shell_words
quoted_other w c cs other =
    emit_nothing _
    ∙ ap (λ (b : Bool). shell_words (if b then word w else quoted (w ++ c ∷ [])) cs) other

quoted_run :
    (w v rest : Bytes)
    → shell_words (quoted w) (escape_quotes v ++ (b'\'' ∷ rest)) ≡ shell_words (word (w ++ v)) rest
unfolding shell_words escape_quotes
quoted_run w [] rest =
    emit_nothing _ ∙ ap (λ (u : Bytes). shell_words (word u) rest) (sym (append-nil w))
quoted_run w (c ∷ v) rest = elim (Bool-cases (c == b'\'')) [
  | inl quote ↦ rw ((nat_beq_iff c b'\'').0 quote) (
      emit_nothing _
      ∙ emit_nothing _
      ∙ emit_nothing _
      ∙ emit_nothing _
      ∙ quoted_run (w ++ b'\'' ∷ []) v rest
      ∙ ap (λ (u : Bytes). shell_words (word u) rest) (append_assoc w (b'\'' ∷ []) v))
  | inr other ↦ rw other (
      quoted_other w c _ other
      ∙ quoted_run (w ++ c ∷ []) v rest
      ∙ ap (λ (u : Bytes). shell_words (word u) rest) (append_assoc w (c ∷ []) v))
]

-- The text `p` is read as the one word `w`, whatever follows it.
abbrev pub Reads : Bytes → Bytes → Type 0
Reads p w = (rest : Bytes) → shell_words between (p ++ rest) ≡ shell_words (word w) rest

pub shell_quote-Reads : (v : Bytes) → Reads (shell_quote v) v
unfolding shell_words shell_quote
shell_quote-Reads [] rest = emit_nothing _ ∙ emit_nothing _
shell_quote-Reads (c ∷ v) rest =
    emit_nothing _
    ∙ ap (shell_words (quoted [])) (append_assoc (escape_quotes (c ∷ v)) (b'\'' ∷ []) rest)
    ∙ quoted_run [] (c ∷ v) rest

plain_step :
    (m : Mode) → (c : ℕ) → is_plain c ≡ true → unquoted m c ≡ some ([], word (begun m ++ c ∷ []))
plain_step m c plain = rw plain refl

plain_run :
    (w p rest : Bytes)
    → All (λ c. is_plain c ≡ true) p
    → shell_words (word w) (p ++ rest) ≡ shell_words (word (w ++ p)) rest
unfolding shell_words resumed
plain_run w [] rest _ = ap (λ (u : Bytes). shell_words (word u) rest) (sym (append-nil w))
plain_run w (c ∷ p) rest (plain, more) =
    ap (resumed (p ++ rest)) (plain_step (word w) c plain)
    ∙ emit_nothing _
    ∙ plain_run (w ++ c ∷ []) p rest more
    ∙ ap (λ (u : Bytes). shell_words (word u) rest) (append_assoc w (c ∷ []) p)

pub plain-Reads :
    (c : ℕ) → (p : Bytes) → All (λ c. is_plain c ≡ true) (c ∷ p) → Reads (c ∷ p) (c ∷ p)
unfolding shell_words resumed
plain-Reads c p (plain, more) rest =
    ap (resumed (p ++ rest)) (plain_step between c plain)
    ∙ emit_nothing _
    ∙ plain_run (c ∷ []) p rest more

abbrev are_plain : Bytes → Bool
are_plain [] = true
are_plain (c ∷ p) = if is_plain c then are_plain p else false

both : (b d : Bool) → (if b then d else false) ≡ true → (b ≡ true) × (d ≡ true)
both true d e = (refl, e)
both false d e = cc

are_plain-All : (p : Bytes) → are_plain p ≡ true → All (λ c. is_plain c ≡ true) p
are_plain-All [] _ = tt
are_plain-All (c ∷ p) e = let h = both (is_plain c) (are_plain p) e in (h.0, are_plain-All p h.1)

pub plain_text-Reads : (c : ℕ) → (p : Bytes) → are_plain (c ∷ p) ≡ true → Reads (c ∷ p) (c ∷ p)
plain_text-Reads c p plain = plain-Reads c p (are_plain-All (c ∷ p) plain)
