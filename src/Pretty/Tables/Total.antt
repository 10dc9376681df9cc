-- ===== src/Pretty/Tables/Total.antt =====
-- Drawing a table returns.
use anfra.Prelude.{
  ℕ, suc, ◌≤◌, String, ◌≡◌, refl, ap, Bool, Option, List, [], ◌∷◌, arith, length, Returns,
  map-Returns,
}
use anfra.Pretty.{onto-Returns, Terminal, Cell, Line, Table}
use anfra.Pretty.Tables.{
  longest, table_line, table_rows, table_lines, table, row_cells, header_cells, headed_lines,
  numeric_columns, drawn_widths,
}
use anfra.Pretty.Tables.Widths.{length-numeric_columns, length-drawn_widths}

table_line_total :
    (ns : List Bool) (ws : List ℕ) (cs : List (Line × ℕ))
    → length cs ≤ length ns
    → length cs ≤ length ws
    → Returns (table_line ns ws cs)
unfolding table_line
table_line_total ns ws [] h k = ([], refl)
table_line_total [] ws (c ∷ cs) h k = absurd (omega arith)
table_line_total (n ∷ ns) [] (c ∷ cs) h k = absurd (omega arith)
table_line_total (n ∷ ns) (w ∷ ws) ((l, v) ∷ []) h k = (_, refl)
table_line_total (n ∷ ns) (w ∷ ws) ((l, v) ∷ d ∷ cs) h k =
    map-Returns _ _ (table_line_total ns ws (d ∷ cs) (omega arith) (omega arith))

length-row_cells :
    (t : Terminal) (ws : List ℕ) (r : List Cell) → length (row_cells t ws r) ≤ length r
unfolding row_cells
length-row_cells t ws [] = omega arith
length-row_cells t [] (c ∷ cs) = omega arith
length-row_cells t (w ∷ ws) (c ∷ cs) = omega (arith, length-row_cells t ws cs)

length-header_cells : (t : Terminal) (hs : List String) → length (header_cells t hs) ≡ length hs
unfolding header_cells
length-header_cells t [] = refl
length-header_cells t (h ∷ hs) = ap suc (length-header_cells t hs)

table_rows_total :
    (t : Terminal) (ns : List Bool) (ws : List ℕ) (rs : List (List Cell))
    → longest rs ≤ length ns
    → longest rs ≤ length ws
    → Returns (table_rows t ns ws rs)
unfolding table_rows
table_rows_total t ns ws [] h k = ([], refl)
table_rows_total t ns ws (r ∷ rs) h k =
    let size = length-row_cells t ws r in
    onto-Returns _ _ (table_line_total ns ws (row_cells t ws r) (omega arith) (omega arith))
      (table_rows_total t ns ws rs (omega arith) (omega arith))

headed_lines_total :
    (t : Terminal) (ns : List Bool) (ws : List ℕ) (hs : List String) (below : Option (List Line))
    → length hs ≤ length ns
    → length hs ≤ length ws
    → Returns below
    → Returns (headed_lines t ns ws hs below)
unfolding headed_lines
headed_lines_total t ns ws [] below h k b = b
headed_lines_total t ns ws (s ∷ hs) below h k b =
    let size = length-header_cells t (s ∷ hs) in
    onto-Returns _ _ (table_line_total ns ws (header_cells t (s ∷ hs)) (omega arith) (omega arith))
      b

-- A table whose heading has no more columns than its longest row is drawn.
pub table_total :
    (t : Terminal) (tb : Table) (indent : ℕ)
    → length tb.header ≤ longest tb.rows
    → Returns (table t tb indent)
unfolding table table_lines
table_total t tb indent h =
    let numbers = length-numeric_columns t tb.rows in
    let many = length-drawn_widths t tb indent in
    let ns = numeric_columns t tb.rows in
    let ws = drawn_widths t tb indent in
    map-Returns _ _ (
      headed_lines_total t ns ws tb.header _ (omega arith) (omega arith)
        (table_rows_total t ns ws tb.rows (omega arith) (omega arith)))
