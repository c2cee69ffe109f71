-- ===== src/Tui/Rows/Columns.antt =====
-- A row is as wide as the list, once that has 36 cells.
use gatelet.Prelude.{
  ℕ, zero, suc, ◌+◌, ◌-◌, ◌≤◌, ◌≡◌, refl, ap, ◌∙◌, false, List, [], ◌∷◌, arith, if◌then◌else◌, ◌==◌,
  nat_eq, length, length-append, Bytes, bytes_eq,
}
use gatelet.Client.Events.{remote_ip}
use gatelet.Client.Log.{format_bytes}
use gatelet.Tui.Model.{RequestItem}
use gatelet.Tui.Format.{status_text, relative_age}
use gatelet.Tui.Selection.{max}
use gatelet.Tui.Rows.{request_columns, spaces, pad_right, row_parts, join_parts, request_row_line}

length-spaces : (n : ℕ) → length (spaces n) ≡ n
length-spaces zero = refl
length-spaces (suc n) = ap suc (length-spaces n)

gaps : List Bytes → ℕ
gaps [] = 0
gaps (p ∷ ps) = suc (length p + gaps ps)

length-join_parts :
    (p : Bytes) (ps : List Bytes) → length (join_parts (p ∷ ps)) ≡ length p + gaps ps
unfolding gaps
length-join_parts p [] = omega arith
length-join_parts p (q ∷ ps) =
    omega (arith, length-append p (b' ' ∷ join_parts (q ∷ ps)), length-join_parts q ps)

abbrev cells : List (Bytes × ℕ) → ℕ
cells [] = 0
cells ((text, width) ∷ rest) =
    let more = cells rest in if width == 0 then more else suc (width + more)

-- The columns and the spaces between them fill the row.
columns_sum :
    (width : ℕ) (t u v w x : Bytes)
    → let c = request_columns width in
      (c.method == 0 ≡ false)
      × (c.method
            + cells ((t, c.path) ∷ (u, c.status) ∷ (v, c.size) ∷ (w, c.remote) ∷ (x, c.age) ∷ [])
          ≡ max 36 width)
unfolding request_columns
columns_sum width t u v w x = ground arith

module _ (shorten : Bytes → ℕ → Bytes) (fits : (s : Bytes) (n : ℕ) → length (shorten s n) ≤ n) where
  length-pad_right : (s : Bytes) (width : ℕ) → length (pad_right shorten s width) ≡ width
  unfolding pad_right
  length-pad_right s width = ground (
    arith,
    fits s width,
    length-append s (spaces (width - length s)),
    length-append (shorten s width) (spaces (width - length (shorten s width))),
    length-spaces (width - length s),
    length-spaces (width - length (shorten s width)),
  )

  gaps-row_parts : (l : List (Bytes × ℕ)) → gaps (row_parts shorten l) ≡ cells l
  unfolding gaps
  gaps-row_parts [] = refl
  gaps-row_parts ((text, width) ∷ rest) =
      ground (arith, gaps-row_parts rest, length-pad_right text width)

  length-row :
      (text : Bytes) (width : ℕ) (rest : List (Bytes × ℕ))
      → (width == 0) ≡ false
      → length (join_parts (row_parts shorten ((text, width) ∷ rest))) ≡ width + cells rest
  length-row text width rest e = rw e (
      length-join_parts (pad_right shorten text width) (row_parts shorten rest)
      ∙ (rw (length-pad_right text width, gaps-row_parts rest) refl))

  -- Where shortening respects its limit, a row has as many bytes as the list has cells, and at least 36.
  pub length-request_row_line :
      (item : RequestItem) (width clock now : ℕ)
      → length (request_row_line shorten item (request_columns width) clock now) ≡ max 36 width
  unfolding request_row_line
  length-request_row_line item width clock now =
      let c = request_columns width in
      let rest : List (Bytes × ℕ) =
        (item.request_uri, c.path)
        ∷ (status_text item, c.status)
        ∷ (format_bytes item.request_size, c.size)
        ∷ (remote_ip item.remote_addr, c.remote)
        ∷ (relative_age clock now item.started_at, c.age)
        ∷ [] in
      let (some_width, sum) = columns_sum width [] [] [] [] [] in
      length-row item.method c.method rest some_width ∙ sum
