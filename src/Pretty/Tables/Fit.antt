-- ===== src/Pretty/Tables/Fit.antt =====
-- How wide a table is drawn.
use anfra.Prelude.{
  ℕ, zero, suc, ◌+◌, ◌-◌, ◌*◌, ◌≤◌, ◌<◌, String, ◌≡◌, refl, ap, Bool, true, Option, none, some,
  List, [], ◌∷◌, arith, length, All,
}
use anfra.Pretty.Measured.{Measures, Additive}
use Prim.Native.Nat.{max}
use anfra.Pretty.{Terminal, columns_of, Line, unstyled, Table}
use anfra.Pretty.Tables.{
  column_widths, longest, sum, nth, replace, narrowed, can_fit, total, table_line, numeric_columns,
  header_cells, drawn_widths, headed_lines, fits, table_lines,
}
use anfra.Pretty.Tables.Widths.{length-numeric_columns, length-replace, length-drawn_widths}
use anfra.Pretty.Tables.Rows.{Ready, table_line_fits, table_rows_fit}

sum-replace : (ws : List ℕ) (k w : ℕ) → k < length ws → sum (replace ws k w) + nth ws k ≡ sum ws + w
unfolding replace sum nth
sum-replace [] k w h = absurd (omega arith)
sum-replace (v ∷ ws) zero w h = omega arith
sum-replace (v ∷ ws) (suc k) w h = omega (arith, sum-replace ws k w (omega arith))

nth-le-sum : (ws : List ℕ) (k : ℕ) → nth ws k ≤ sum ws
unfolding nth sum
nth-le-sum [] k = omega arith
nth-le-sum (v ∷ ws) zero = omega arith
nth-le-sum (v ∷ ws) (suc k) = omega (arith, nth-le-sum ws k)

-- The column that may be cut is one of the table's.
abbrev Within : Option ℕ → List ℕ → Type 0
Within none ws = Unit {0}
Within (some k) ws = k < length ws

narrowed_total :
    (t : Terminal) (indent : ℕ) (c : Option ℕ) (ws : List ℕ)
    → 0 < t.width
    → Within c ws
    → can_fit t indent c ws ≡ true
    → total indent (narrowed t indent c ws) ≤ t.width
unfolding can_fit narrowed total
narrowed_total t indent none ws p k h = ground arith
narrowed_total t indent (some k) ws p i h = ground (
  arith,
  nth-le-sum ws k,
  length-replace ws k (max (nth ws k - (indent + 3 * length ws + sum ws - 3 - t.width)) 8),
  sum-replace ws k (max (nth ws k - (indent + 3 * length ws + sum ws - 3 - t.width)) 8) i,
)

-- Each heading is no wider than its column as it is drawn.
abbrev pub Headed : Terminal → List ℕ → List String → Type 0
Headed t ws [] = Unit {0}
Headed t [] (h ∷ hs) = ⊥
Headed t (w ∷ ws) (h ∷ hs) = (t.columns h ≤ w) × Headed t ws hs

header_cells-Ready :
    (t : Terminal) (ws : List ℕ) (hs : List String)
    → Headed t ws hs
    → Ready t ws (header_cells t hs) × (length (header_cells t hs) ≡ length hs)
unfolding header_cells columns_of
header_cells-Ready t ws [] h = (tt, refl)
header_cells-Ready t [] (s ∷ hs) h = absurd h
header_cells-Ready t (w ∷ ws) (s ∷ hs) h =
    let (ready, size) = header_cells-Ready t ws hs h.1 in ((omega arith, h.0, ready), ap suc size)

pub drawn_fits :
    (t : Terminal) (tb : Table) (indent : ℕ)
    → 0 < t.width
    → Within tb.cuttable (column_widths t tb.header tb.rows)
    → fits t tb indent ≡ true
    → total indent (drawn_widths t tb indent) ≤ t.width
unfolding drawn_widths fits
drawn_fits t tb indent p k h =
    narrowed_total t indent tb.cuttable (column_widths t tb.header tb.rows) p k h

headed_lines_step :
    (t : Terminal) (ns : List Bool) (ws : List ℕ) (s : String) (hs : List String) (l : Line)
    (below : List Line)
    → table_line ns ws (header_cells t (s ∷ hs)) ≡ some l
    → headed_lines t ns ws (s ∷ hs) (some below) ≡ some (l ∷ below)
unfolding headed_lines
headed_lines_step t ns ws s hs l below e = ground arith

with_header :
    (t : Terminal) (m : Measures t) (ns : List Bool) (ws : List ℕ) (hs : List String)
    (below : List Line)
    → Headed t ws hs
    → length hs ≤ length ns
    → All (λ l. columns_of t l ≤ 3 * length ws + sum ws - 3) below
    → (ls : List Line) × (headed_lines t ns ws hs (some below) ≡ some ls)
      × All (λ l. columns_of t l ≤ 3 * length ws + sum ws - 3) ls
with_header t m ns ws [] below h k a = (below, unfold headed_lines in refl, a)
with_header t m ns ws (s ∷ hs) below h k a =
    let (ready, size) = header_cells-Ready t ws (s ∷ hs) h in
    let (l, is_l, fit) = table_line_fits t m ns ws (header_cells t (s ∷ hs)) ready (omega arith) in
    (l ∷ below, headed_lines_step t ns ws s hs l below is_l, (fit, a))

fits_below :
    (t : Terminal) (indent b : ℕ) (ls : List Line)
    → indent + b ≤ t.width
    → All (λ l. columns_of t l ≤ b) ls
    → All (λ l. indent + columns_of t l ≤ t.width) ls
fits_below t indent b [] h a = tt
fits_below t indent b (l ∷ ls) h (p, a) = (omega arith, fits_below t indent b ls h a)

-- A table that `fits` the terminal, drawn without styles, is drawn: every line, its heading's and its
-- rows', takes no more than the terminal's columns with its indent, before the spaces at its end are
-- trimmed. Each cell's text takes the columns of its parts, as one of a single part does; columns add
-- in spaces and borders. The table has a heading, with no more columns than its longest row, the column that may be
-- cut is one of its columns, and no heading is wider than its column is drawn.
pub table_lines_fit :
    (t : Terminal) (m : Measures t) (tb : Table) (indent : ℕ)
    → unstyled t ≡ true
    → All (All (Additive t)) tb.rows
    → 0 < t.width
    → 0 < length tb.header
    → length tb.header ≤ longest tb.rows
    → Within tb.cuttable (column_widths t tb.header tb.rows)
    → Headed t (drawn_widths t tb indent) tb.header
    → fits t tb indent ≡ true
    → (ls : List Line) × (table_lines t tb indent ≡ some ls)
      × All (λ l. indent + columns_of t l ≤ t.width) ls
table_lines_fit t m tb indent u added p some_header less within headed fit =
    let ws = drawn_widths t tb indent in
    let ns = numeric_columns t tb.rows in
    let many = length-drawn_widths t tb indent in
    let numbers = length-numeric_columns t tb.rows in
    let room = drawn_fits t tb indent p within fit in
    let (below, is_below, fits) =
      table_rows_fit t m ns ws tb.rows u added (omega arith) (omega arith) in
    let (ls, is_ls, all) = with_header t m ns ws tb.header below headed (omega arith) fits in
    (
      ls,
      unfold table_lines in rw is_below is_ls,
      fits_below t indent (3 * length ws + sum ws - 3) ls (unfold total in omega arith) all,
    )
