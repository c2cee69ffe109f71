-- ===== src/Tui/Colours/Plain.antt =====
-- The colours change nothing of a text but the styles of its parts.
use gatelet.Prelude.{
  ℕ, subst, inl, inr, Bool, true, false, ◌||◌, [], ◌∷◌, ◌++◌, append_assoc, append-nil,
  if◌then◌else◌, ◌==◌, nat_eq, Bool-cases, Bytes, codes, bytes_eq,
}
use gatelet.Tui.Detail.{Styles}
use gatelet.Tui.Colours.{
  is_json_space, next_non_space, is_mark, flush_json_token, end_string, color_from, colorize_json,
}

-- The first text is the second one with some of its parts styled.
pub data Coloured (styles : Styles) : Bytes → Bytes → Type 0 where
  nothing : Coloured styles [] []
  plain :
      (c : ℕ) {out text : Bytes} → Coloured styles out text → Coloured styles (c ∷ out) (c ∷ text)
  styled_key :
      (t : Bytes) {out text : Bytes}
      → Coloured styles out text
      → Coloured styles (styles.key t ++ out) (t ++ text)
  styled_val :
      (t : Bytes) {out text : Bytes}
      → Coloured styles out text
      → Coloured styles (styles.val t ++ out) (t ++ text)
  styled_status :
      (t : Bytes) {out text : Bytes}
      → Coloured styles out text
      → Coloured styles (styles.status_3xx t ++ out) (t ++ text)
  styled_queued :
      (t : Bytes) {out text : Bytes}
      → Coloured styles out text
      → Coloured styles (styles.queued t ++ out) (t ++ text)

module _ (styles : Styles) where
  flush_json_token-Coloured :
      (token out text : Bytes)
      → Coloured styles out text
      → Coloured styles (flush_json_token styles token ++ out) (token ++ text)
  unfolding flush_json_token
  flush_json_token-Coloured [] out text h = h
  flush_json_token-Coloured (c ∷ cs) out text h =
      elim (Bool-cases
        ((c ∷ cs) == codes "true" || ((c ∷ cs) == codes "false" || (c ∷ cs) == codes "null"))) [
          | inl e ↦ rw e (styled_status (c ∷ cs) h)
          | inr e ↦ rw e (styled_queued (c ∷ cs) h)
        ]

  end_string-Coloured :
      (token rest out text : Bytes)
      → Coloured styles out text
      → Coloured styles (end_string styles token rest ++ out) (token ++ text)
  end_string-Coloured token rest out text h = elim (Bool-cases (next_non_space rest == b':')) [
    | inl e ↦ rw e (styled_key token h)
    | inr e ↦ rw e (styled_val token h)
  ]

  -- The byte is in the token.
  taken :
      (token : Bytes) (c : ℕ) (out cs : Bytes)
      → Coloured styles out ((token ++ c ∷ []) ++ cs)
      → Coloured styles out (token ++ (c ∷ cs))
  taken token c out cs = subst (Coloured styles out) (append_assoc token (c ∷ []) cs)

  either :
      (b : Bool) (x y text : Bytes)
      → Coloured styles x text
      → Coloured styles y text
      → Coloured styles (if b then x else y) text
  either true x y text h k = h
  either false x y text h k = k

  color_from-Coloured :
      (in_string escaped : Bool) (token text : Bytes)
      → Coloured styles (color_from styles in_string escaped token text) (token ++ text)
  unfolding color_from
  color_from-Coloured in_string escaped token [] =
      subst (λ o. Coloured styles o (token ++ [])) (append-nil _)
        (flush_json_token-Coloured token [] [] nothing)
  color_from-Coloured true escaped token (c ∷ cs) =
      let whole : Bytes = token ++ (c ∷ cs) in
      let more : (e : Bool)
          → Coloured styles (color_from styles true e (token ++ c ∷ []) cs) whole =
        λ e. taken token c _ cs (color_from-Coloured true e (token ++ c ∷ []) cs) in
      let closes : Coloured styles
          (end_string styles (token ++ c ∷ []) cs ++ color_from styles false escaped [] cs) whole =
        taken token c _ cs (
          end_string-Coloured (token ++ c ∷ []) cs _ cs
            (color_from-Coloured false escaped [] cs)) in
      either escaped _ _ whole (more false) (
        either (c == b'\\') _ _ whole (more true)
          (either (c == b'"') _ _ whole closes (more escaped)))
  color_from-Coloured false escaped token (c ∷ cs) =
      let whole : Bytes = token ++ (c ∷ cs) in
      either (c == b'"') _ _ whole
        (flush_json_token-Coloured token _ (c ∷ cs) (color_from-Coloured true escaped (c ∷ []) cs))
        (either (is_mark c || is_json_space c) _ _ whole
          (flush_json_token-Coloured token _ (c ∷ cs)
            (plain c (color_from-Coloured false escaped [] cs)))
          (taken token c _ cs (color_from-Coloured false escaped (token ++ c ∷ []) cs)))

-- Whatever text is coloured, the result is the text, byte for byte, with some of its parts styled.
pub colorize_json-Coloured :
    (styles : Styles) (text : Bytes) → Coloured styles (colorize_json styles text) text
unfolding colorize_json
colorize_json-Coloured styles text = color_from-Coloured styles false false [] text
