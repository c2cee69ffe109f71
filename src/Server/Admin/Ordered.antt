-- ===== src/Server/Admin/Ordered.antt =====
-- internal/server/admin.go and server.go: the pages do not depend on the order of Go's maps, and what the
-- script of a button asks for.
use gatelet.Prelude.{
  ℕ, ◌≡◌, refl, ap, ◌∙◌, Bool, true, false, Option, none, some, List, [], ◌∷◌, ◌++◌, map,
  append_assoc, arith, if◌then◌else◌, ◌==◌, nat_eq, GoMap, lookup, Bytes, codes, or_else,
}
use gatelet.Server.Stats.{TunnelStats}
use gatelet.Server.Stats.Statuses.{sorted_statuses, IsCounts, sorted_statuses-same}
use gatelet.Server.Stats.Metrics.{count_of, status_lines, tunnel_lines}
use gatelet.Server.Admin.Dashboard.{
  status_part, status_counts, tunnel_cells, js_string, disconnect_confirm, js_char, joined,
}

-- Two forms of one map.
pub record SameCounts (m n : GoMap ℕ ℕ) : Type 0 where
  pub once_left : IsCounts m
  pub once_right : IsCounts n
  pub entries : (k : ℕ) → lookup k m ≡ lookup k n

-- The printed line of each status reads the map by `lookup` only.
module _ (m n : GoMap ℕ ℕ) (same : (k : ℕ) → lookup k m ≡ lookup k n) where
  count_of-same : (k : ℕ) → count_of m k ≡ count_of n k
  count_of-same k = ap (λ found. or_else found 0) (same k)

  map-status_part : (ks : List ℕ) → map (status_part m) ks ≡ map (status_part n) ks
  map-status_part [] = refl
  map-status_part (k ∷ ks) = rw (count_of-same k, map-status_part ks) refl

  status_lines-same : (name : Bytes) (ks : List ℕ) → status_lines name m ks ≡ status_lines name n ks
  status_lines-same name [] = refl
  status_lines-same name (k ∷ ks) = rw (count_of-same k, status_lines-same name ks) refl

status_counts-same : (m n : GoMap ℕ ℕ) → SameCounts m n → status_counts m ≡ status_counts n
unfolding status_counts lookup
status_counts-same [] [] same = refl
status_counts-same [] ((k, c) ∷ n) same = ground (arith, same.entries k)
status_counts-same ((k, c) ∷ m) [] same = ground (arith, same.entries k)
status_counts-same ((k, c) ∷ m) ((j, d) ∷ n) same =
    ap (λ ks. joined (map (status_part ((k, c) ∷ m)) ks))
      (sorted_statuses-same ((k, c) ∷ m) ((j, d) ∷ n) same.once_left same.once_right same.entries)
    ∙ ap joined
        (map-status_part ((k, c) ∷ m) ((j, d) ∷ n) same.entries (sorted_statuses ((j, d) ∷ n)))

-- In whatever order Go iterates over the counts of a tunnel, the metrics print the same lines for it and
-- the dashboard shows the same row.
pub pages-same :
    (clock : ℕ → Bytes) (now : ℕ) (domain : Bytes) (t : TunnelStats) (n : GoMap ℕ ℕ)
    → SameCounts t.status_counts n
    → (tunnel_lines t ≡ tunnel_lines (record t { status_counts = n }))
      × (tunnel_cells clock now domain t
          ≡ tunnel_cells clock now domain (record t { status_counts = n }))
unfolding tunnel_lines tunnel_cells
pages-same clock now domain t n same = (
  rw
      (
        sorted_statuses-same t.status_counts n same.once_left same.once_right same.entries,
        status_lines-same t.status_counts n same.entries t.name (sorted_statuses n),
      )
      refl,
  rw (status_counts-same t.status_counts n same) refl,
)

-- Reads the rest of a JavaScript literal in single quotes: the value, and the script behind it.
abbrev with_char : ℕ → Option (Bytes × Bytes) → Option (Bytes × Bytes)
with_char c none = none
with_char c (some (s, rest)) = some (c ∷ s, rest)

abbrev unescaped : ℕ → ℕ
unescaped c = if c == b'n' then b'\n' else if c == b'r' then b'\r' else c

-- `escaped` says that a backslash stands in front.
unfoldable pub js_from : Bool → Bytes → Option (Bytes × Bytes)
js_from escaped [] = none
js_from true (c ∷ s) = with_char (unescaped c) (js_from false s)
js_from false (c ∷ s) =
    let behind = js_from false s in
    let behind_backslash = js_from true s in
    if c == b'\''
    then some ([], s)
    else if c == b'\\'
    then behind_backslash
    else if c == b'\n'
    then none
    else if c == b'\r'
    then none
    else with_char c behind

js_from-js_char :
    (c : ℕ) (s : Bytes) → js_from false (js_char c ++ s) ≡ with_char c (js_from false s)
unfolding js_from
js_from-js_char c s = ground arith

js_from-js_string :
    (s t : Bytes) (value rest : Bytes)
    → js_from false t ≡ some (value, rest)
    → js_from false (js_string s ++ t) ≡ some (s ++ value, rest)
unfolding js_string
js_from-js_string [] t value rest e = e
js_from-js_string (c ∷ s) t value rest e =
    ap (js_from false) (append_assoc (js_char c) (js_string s) t)
    ∙ (js_from-js_char c (js_string s ++ t) ∙ ap (with_char c) (js_from-js_string s t value rest e))

-- Whatever bytes a name has, the script of its button asks with one literal that reads as the question for
-- that name, and nothing of the name is read behind it.
pub js_literal-disconnect_confirm :
    (name : Bytes)
    → (body : Bytes) × (disconnect_confirm name ≡ codes "return confirm('" ++ body)
      × (js_from false body ≡ some (codes "Disconnect tunnel " ++ (name ++ codes "?"), codes ")"))
unfolding disconnect_confirm js_from
js_literal-disconnect_confirm name = (
  codes "Disconnect tunnel " ++ (js_string name ++ codes "?')"),
  refl,
  rw (js_from-js_string name (codes "?')") (codes "?") (codes ")") refl) refl,
)
