-- ===== src/Pretty/Grid/Even.antt =====
-- A grid's lines end in one column.

use anfra.Prelude.{
  ℕ, ◌+◌, ◌≤◌, ◌<◌, String, ◌≡◌, refl, ◌⊎◌, true, some, List, [], ◌∷◌, ◌++◌, arith, length, All,
  All-append,
}
use anfra.Pretty.Measured.{Measures, columns-spaces, Additive, one_part-Additive}
use anfra.Pretty.{Terminal, Cell, Line, columns_of, text_of, unstyled, Tone}
use anfra.Pretty.Tables.{column_widths, numeric_columns, longest}
use anfra.Pretty.Tables.Widths.{
  Covers, Narrower, column_widths-Covers, column_widths-Covers_header, length-column_widths,
  length-numeric_columns,
}
use anfra.Pretty.Grid.{
  border_of, border_line, safe_cells, bordered, boxed_widths, grid_total, indented, grid,
}
use anfra.Pretty.Grid.Total.{bordered_step}
use anfra.Pretty.Grid.Lines.{
  AsWide, grid_rows_even, headed_even, columns_of-border_line, border-Drawable,
}

bordered_even :
    (t : Terminal) (m : Measures t) (ws : List ℕ) (rs : List (List Cell)) (labels : List String)
    → unstyled t ≡ true
    → All (All (Additive t)) rs
    → 0 < length ws
    → length ws ≤ longest rs
    → All (Covers t ws) rs
    → Covers t ws (safe_cells t labels)
    → (ls : List Line) × (bordered t ws rs labels ≡ some ls) × AsWide t (1 + boxed_widths ws) ls
bordered_even t m ws rs labels u added p n rows_fit labels_fit =
    let ns = numeric_columns t rs in
    let enough : length ws ≤ length ns = omega (arith, length-numeric_columns t rs) in
    let border = border-Drawable t m t.utf8 in
    let top = border_line t ws (border_of t.utf8).top in
    let bottom = border_line t ws (border_of t.utf8).bottom in
    let (ls, is_ls, even) = grid_rows_even t m ns ws rs u added rows_fit enough in
    let ends = columns_of-border_line t m ws (border_of t.utf8).bottom p border.4 in
    let all =
      All-append (λ l. columns_of t l ≡ 1 + boxed_widths ws) ls (bottom ∷ []) even (ends, tt) in
    let (hs, is_hs, evens) =
      headed_even t m ns ws labels (ls ++ bottom ∷ []) u p labels_fit enough all in
    (
      top ∷ hs,
      bordered_step t ws rs labels ls hs is_ls is_hs,
      (columns_of-border_line t m ws (border_of t.utf8).top p border.2, evens),
    )

indented_even :
    (t : Terminal) (m : Measures t) (indent n : ℕ) (ls : List Line)
    → AsWide t n ls
    → AsWide t (indent + n) (indented indent ls)
unfolding indented columns_of
indented_even t m indent n [] h = tt
indented_even t m indent n (l ∷ ls) (e, h) =
    (rw (columns-spaces t m indent, e) refl, indented_even t m indent n ls h)

-- No label, made safe, is wider than it was measured.
abbrev pub Shrinks : Terminal → String → Type 0
Shrinks t l = t.columns (t.safe l) ≤ t.columns l

safe_cells-Narrower :
    (t : Terminal) (labels : List String)
    → All (Shrinks t) labels
    → Narrower t (safe_cells t labels) labels
unfolding safe_cells text_of
safe_cells-Narrower t [] h = tt
safe_cells-Narrower t (l ∷ ls) (p, h) = (
  omega (arith, one_part-Additive t (record { text = t.safe l; tone = Tone.plain })),
  safe_cells-Narrower t ls h,
)

grid-bordered :
    (t : Terminal) (rs : List (List Cell)) (labels : List String) (indent : ℕ) (ls : List Line)
    → (t.width ≡ 0) ⊎ (grid_total indent (column_widths t labels rs) ≤ t.width)
    → bordered t (column_widths t labels rs) rs labels ≡ some ls
    → grid t rs labels indent ≡ some (indented indent ls)
unfolding grid
grid-bordered t rs labels indent ls room e = rw e (ground arith)

-- A grid that is no wider than the terminal, or is not for one, is drawn without styles: all its
-- lines, borders and rows alike, take the same columns, its indent, its borders and three more for
-- each column than its widest value or label. Each value's text takes the columns of its parts, as one
-- of a single part does; columns add in spaces and borders. Some row has a value, there are no more labels than the
-- longest row has values, and no label is wider once it is made safe.
pub grid_even :
    (t : Terminal) (m : Measures t) (rs : List (List Cell)) (labels : List String) (indent : ℕ)
    → unstyled t ≡ true
    → All (All (Additive t)) rs
    → 0 < longest rs
    → length labels ≤ longest rs
    → All (Shrinks t) labels
    → (t.width ≡ 0) ⊎ (grid_total indent (column_widths t labels rs) ≤ t.width)
    → (ls : List Line) × (grid t rs labels indent ≡ some ls)
      × AsWide t (grid_total indent (column_widths t labels rs)) ls
grid_even t m rs labels indent u added some_value less shrink room =
    let ws = column_widths t labels rs in
    let many = length-column_widths t labels rs in
    let heads =
      column_widths-Covers_header t labels rs (safe_cells t labels)
        (safe_cells-Narrower t labels shrink) in
    let (ls, is_ls, even) =
      bordered_even t m ws rs labels u added (omega arith) (omega arith)
        (column_widths-Covers t labels rs) heads in
    let sum : indent + (1 + boxed_widths ws) ≡ grid_total indent ws =
      unfold grid_total in omega arith in
    (
      indented indent ls,
      grid-bordered t rs labels indent ls room is_ls,
      rw sum at (indented_even t m indent (1 + boxed_widths ws) ls even),
    )
