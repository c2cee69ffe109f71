-- ===== src/Tui/Colours.antt =====
-- internal/tui/detail.go: `colorizeJSON`, one byte at a time. A style is a function on text.
pub mod Plain
use gatelet.Prelude.{
  ℕ, Bool, true, false, ◌||◌, [], ◌∷◌, ◌++◌, if◌then◌else◌, ◌==◌, nat_eq, Bytes, codes, bytes_eq,
  is_empty,
}
use gatelet.Tui.Detail.{Styles}

abbrev is_json_space : ℕ → Bool
is_json_space c = c == b' ' || (c == b'\n' || (c == b'\t' || c == b'\r'))

-- `text` from the place that the loop looks at; 0 at the end.
unfoldable pub next_non_space : Bytes → ℕ
next_non_space [] = 0
next_non_space (c ∷ cs) = if is_json_space c then next_non_space cs else c

abbrev is_mark : ℕ → Bool
is_mark c = c == b'{' || (c == b'}' || (c == b'[' || (c == b']' || (c == b':' || c == b','))))

module _ (styles : Styles) where
  unfoldable pub flush_json_token : Bytes → Bytes
  flush_json_token token =
      if is_empty token
      then []
      else if token == codes "true" || (token == codes "false" || token == codes "null")
      then styles.status_3xx token
      else styles.queued token

  -- A string that ends: it is a key where a colon follows.
  abbrev end_string : Bytes → Bytes → Bytes
  end_string token rest = if next_non_space rest == b':' then styles.key token else styles.val token

  -- The loop of `colorizeJSON`: whether it is in a string, whether the last byte escapes, and the token
  -- so far. What it returns is what it writes.
  color_from : Bool → Bool → Bytes → Bytes → Bytes
  unfolding flush_json_token next_non_space
  color_from in_string escaped token [] = flush_json_token token
  color_from true escaped token (c ∷ cs) =
      let longer = token ++ c ∷ [] in
      let plain = color_from true false longer cs in
      let escaping = color_from true true longer cs in
      let closed = color_from false escaped [] cs in
      if escaped
      then plain
      else if c == b'\\'
      then escaping
      else if c == b'"'
      then end_string longer cs ++ closed
      else color_from true escaped longer cs
  color_from false escaped token (c ∷ cs) =
      let opened = color_from true escaped (c ∷ []) cs in
      let flushed = color_from false escaped [] cs in
      let longer = color_from false escaped (token ++ c ∷ []) cs in
      if c == b'"'
      then flush_json_token token ++ opened
      else if is_mark c || is_json_space c
      then flush_json_token token ++ (c ∷ flushed)
      else longer

  unfoldable pub colorize_json : Bytes → Bytes
  unfolding color_from
  colorize_json text = color_from false false [] text
