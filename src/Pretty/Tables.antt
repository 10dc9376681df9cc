-- ===== src/Pretty/Tables.antt =====
-- A list of objects as a table (`columnWidths`, `fits`, `table` and `numericColumns` of
-- internal/pretty/pretty.go).
use anfra.Prelude.{
  ℕ, zero, suc, ◌+◌, ◌-◌, ◌*◌, String, Bool, true, false, ◌&&◌, ◌||◌, Option, none, some, List, [],
  ◌∷◌, ◌++◌, str_eq, ltb, leb, ◌==◌, if◌then◌else◌, length, get_elem?, cat,
}
use Prim.Native.Char.{code as char_code}
use Prim.Native.Nat.{max}
use Prim.Native.String.{String}
use mathlib.Core.Option
use anfra.Pretty.{
  Terminal, Table, Cell, Line, bare, onto, styled, wide, spaces, drawn, cell_line, text_of,
  none_cell, Tint,
}
pub mod Widths
mod Rows
pub mod Fit
pub mod Total

abbrev pub longest : List (List Cell) → ℕ
longest [] = 0
longest (r ∷ rs) = max (length r) (longest rs)

-- The headings' widths, with a column for each of a row's cells that has no heading.
header_widths : Terminal → ℕ → List String → List ℕ
header_widths t zero hs = []
header_widths t (suc n) [] = 0 ∷ header_widths t n []
header_widths t (suc n) (h ∷ hs) = t.columns h ∷ header_widths t n hs

widen : Terminal → List ℕ → List Cell → List ℕ
widen t ws [] = ws
widen t [] (c ∷ cs) = []
widen t (w ∷ ws) (c ∷ cs) = max w (wide t c) ∷ widen t ws cs

widen_all : Terminal → List ℕ → List (List Cell) → List ℕ
unfolding widen
widen_all t ws [] = ws
widen_all t ws (r ∷ rs) = widen_all t (widen t ws r) rs

-- `columnWidths`
unfoldable pub column_widths : Terminal → List String → List (List Cell) → List ℕ
unfolding header_widths widen_all
column_widths t header rs =
    widen_all t (header_widths t (max (length header) (longest rs)) header) rs

unfoldable pub sum : List ℕ → ℕ
sum [] = 0
sum (n ∷ ns) = n + sum ns

nth : List ℕ → ℕ → ℕ
nth [] k = 0
nth (w ∷ ws) zero = w
nth (w ∷ ws) (suc k) = nth ws k

-- The table's width: its columns, 3 spaces apart.
unfoldable pub total : ℕ → List ℕ → ℕ
unfolding sum
total indent ws = indent + 3 * length ws + sum ws - 3

can_fit : Terminal → ℕ → Option ℕ → List ℕ → Bool
unfolding total nth
can_fit t indent none ws = t.width == 0 || leb (total indent ws) t.width
can_fit t indent (some k) ws =
    (t.width == 0 || leb (total indent ws) t.width) || leb (total indent ws + 8 - nth ws k) t.width

-- `fits`
unfoldable pub fits : Terminal → Table → ℕ → Bool
unfolding column_widths can_fit
fits t tb indent = can_fit t indent tb.cuttable (column_widths t tb.header tb.rows)

pub replace : List ℕ → ℕ → ℕ → List ℕ
replace [] k w = []
replace (v ∷ ws) zero w = w ∷ ws
replace (v ∷ ws) (suc k) w = v ∷ replace ws k w

narrowed : Terminal → ℕ → Option ℕ → List ℕ → List ℕ
unfolding total nth replace
narrowed t indent none ws = ws
narrowed t indent (some k) ws =
    let over = total indent ws - t.width in
    if ltb 0 t.width && ltb 0 over then replace ws k (max (nth ws k - over) 8) else ws

-- The first step of `table`: the columns' widths, the cuttable one narrowed by what is over.
unfoldable pub drawn_widths : Terminal → Table → ℕ → List ℕ
unfolding column_widths narrowed
drawn_widths t tb indent = narrowed t indent tb.cuttable (column_widths t tb.header tb.rows)

-- `numericColumns`, a column's cells read downwards: `any` is whether a number was met.
column_numeric : Terminal → ℕ → Bool → List (List Cell) → Bool
unfolding text_of
column_numeric t i any [] = any
column_numeric t i any (r ∷ rs) =
    let skip = column_numeric t i any rs in
    let counted = column_numeric t i true rs in
    elim (get_elem? r i) [
      | none ↦ skip
      | some c ↦
          if str_eq (text_of c) (text_of none_cell)
          then skip
          else if t.is_number (text_of c)
          then counted
          else false
    ]

numeric_from : Terminal → ℕ → ℕ → List (List Cell) → List Bool
unfolding column_numeric
numeric_from t i zero rs = []
numeric_from t i (suc n) rs = column_numeric t i false rs ∷ numeric_from t (suc i) n rs

unfoldable pub numeric_columns : Terminal → List (List Cell) → List Bool
unfolding numeric_from
numeric_columns t rs = numeric_from t 0 (longest rs) rs

-- A cell as its row draws it: cut where it is wider than its column, its tone its first span's.
cut_cell : Terminal → ℕ → Cell → Cell
unfolding text_of
cut_cell t w [] = []
cut_cell t w (s ∷ c) =
    if ltb w (wide t (s ∷ c))
    then record { text = t.cut (text_of (s ∷ c)) w "…"; tone = s.tone } ∷ []
    else s ∷ c

-- `line` before its end is trimmed: a number to the right, anything else to the left, the last not
-- padded. A column that `numeric` does not have is an index out of range, none.
pub table_line : List Bool → List ℕ → List (Line × ℕ) → Option Line
unfolding spaces
table_line ns ws [] = some []
table_line [] ws (c ∷ cs) = none
table_line ns [] (c ∷ cs) = none
table_line (n ∷ ns) (w ∷ ws) ((c, k) ∷ []) = some (if n then bare (spaces (w - k)) ∷ c else c)
table_line (n ∷ ns) (w ∷ ws) ((c, k) ∷ d ∷ cs) =
    Option.map
      (λ l.
        (if n then bare (spaces (w - k)) ∷ c else c ++ bare (spaces (w - k)) ∷ [])
        ++ (bare "   " ∷ l))
      (table_line ns ws (d ∷ cs))

pub row_cells : Terminal → List ℕ → List Cell → List (Line × ℕ)
unfolding cut_cell cell_line
row_cells t ws [] = []
row_cells t [] (c ∷ cs) = []
row_cells t (w ∷ ws) (c ∷ cs) =
    (cell_line t (cut_cell t w c), wide t (cut_cell t w c)) ∷ row_cells t ws cs

header_cells : Terminal → List String → List (Line × ℕ)
header_cells t [] = []
header_cells t (h ∷ hs) = (styled Tint.muted h ∷ [], t.columns h) ∷ header_cells t hs

-- `strings.TrimRight(s, " ")`: the spaces held back are written before the next character.
trim_from : String → String → String
trim_from held String.[] = ""
trim_from held (String.◌∷◌ c s) =
    let more = trim_from (cat held " ") s in
    let shown = cat held (String.◌∷◌ c (trim_from "" s)) in
    if char_code c == 32 then more else shown

unfoldable pub trim_right : String → String
unfolding trim_from
trim_right s = trim_from "" s

unfoldable pub table_rows : Terminal → List Bool → List ℕ → List (List Cell) → Option (List Line)
unfolding table_line row_cells onto
table_rows t ns ws [] = some []
table_rows t ns ws (r ∷ rs) = onto (table_line ns ws (row_cells t ws r)) (table_rows t ns ws rs)

headed_lines : Terminal → List Bool → List ℕ → List String → Option (List Line) → Option (List Line)
unfolding table_line header_cells onto
headed_lines t ns ws [] below = below
headed_lines t ns ws (h ∷ hs) below = onto (table_line ns ws (header_cells t (h ∷ hs))) below

-- `table`'s lines, before the indent is written and their ends trimmed.
pub table_lines : Terminal → Table → ℕ → Option (List Line)
unfolding headed_lines table_rows drawn_widths numeric_columns
table_lines t tb indent =
    let ws = drawn_widths t tb indent in
    let ns = numeric_columns t tb.rows in
    headed_lines t ns ws tb.header (table_rows t ns ws tb.rows)

trimmed : Terminal → ℕ → List Line → List Line
unfolding trim_right drawn spaces
trimmed t indent [] = []
trimmed t indent (l ∷ ls) =
    (bare (spaces indent) ∷ bare (trim_right (drawn t l)) ∷ []) ∷ trimmed t indent ls

-- `table`
unfoldable pub table : Terminal → Table → ℕ → Option (List Line)
unfolding table_lines trimmed
table t tb indent = Option.map (trimmed t indent) (table_lines t tb indent)
