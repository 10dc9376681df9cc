-- ===== src/Pretty/Grid/Total.antt =====
-- Drawing a grid returns.
use anfra.Prelude.{
  ℕ, ◌≤◌, String, ◌≡◌, refl, Bool, true, false, ◌&&◌, some, List, [], ◌∷◌, ◌++◌, arith, ltb,
  if_cases, length, Returns, map-Returns,
}
use mathlib.Core.Option
use anfra.Pretty.{onto-Returns, Terminal, Cell, Line}
use anfra.Pretty.Tables.{longest, column_widths, numeric_columns}
use anfra.Pretty.Tables.Widths.{length-numeric_columns, length-column_widths}
use anfra.Pretty.Grid.{
  boxes, grid_line, grid_rows, headed, safe_cells, bordered, border_line, border_of, row_blocks,
  indented, grid_total, grid,
}

boxes_total :
    (t : Terminal) (header : Bool) (ns : List Bool) (ws : List ℕ) (cs : List Cell)
    → length ws ≤ length ns
    → Returns (boxes t header ns ws cs)
unfolding boxes
boxes_total t header ns [] cs h = ([], refl)
boxes_total t header [] (w ∷ ws) cs h = absurd (omega arith)
boxes_total t header (n ∷ ns) (w ∷ ws) [] h =
    map-Returns _ _ (boxes_total t header ns ws [] (omega arith))
boxes_total t header (n ∷ ns) (w ∷ ws) (c ∷ cs) h =
    map-Returns _ _ (boxes_total t header ns ws cs (omega arith))

grid_line_total :
    (t : Terminal) (header : Bool) (ns : List Bool) (ws : List ℕ) (cs : List Cell)
    → length ws ≤ length ns
    → Returns (grid_line t header ns ws cs)
unfolding grid_line
grid_line_total t header ns ws cs h = map-Returns _ _ (boxes_total t header ns ws cs h)

grid_rows_total :
    (t : Terminal) (ns : List Bool) (ws : List ℕ) (rs : List (List Cell))
    → length ws ≤ length ns
    → Returns (grid_rows t ns ws rs)
unfolding grid_rows
grid_rows_total t ns ws [] h = ([], refl)
grid_rows_total t ns ws (r ∷ rs) h =
    onto-Returns _ _ (grid_line_total t false ns ws r h) (grid_rows_total t ns ws rs h)

headed_total :
    (t : Terminal) (ns : List Bool) (ws : List ℕ) (labels : List String) (below : List Line)
    → length ws ≤ length ns
    → Returns (headed t ns ws labels below)
unfolding headed
headed_total t ns ws [] below h = (below, refl)
headed_total t ns ws (s ∷ ss) below h =
    map-Returns _ _ (grid_line_total t true ns ws (safe_cells t (s ∷ ss)) h)

pub bordered_step :
    (t : Terminal) (ws : List ℕ) (rs : List (List Cell)) (labels : List String) (ls hs : List Line)
    → grid_rows t (numeric_columns t rs) ws rs ≡ some ls
    → headed t
        (numeric_columns t rs)
        ws
        labels
        (ls ++ border_line t ws (border_of t.utf8).bottom ∷ [])
      ≡ some hs
    → bordered t ws rs labels ≡ some (border_line t ws (border_of t.utf8).top ∷ hs)
unfolding bordered
bordered_step t ws rs labels ls hs e f = ground arith

bordered_total :
    (t : Terminal) (ws : List ℕ) (rs : List (List Cell)) (labels : List String)
    → length ws ≤ longest rs
    → Returns (bordered t ws rs labels)
bordered_total t ws rs labels h =
    let ns = numeric_columns t rs in
    let enough : length ws ≤ length ns = omega (arith, length-numeric_columns t rs) in
    let (ls, is_ls) = grid_rows_total t ns ws rs enough in
    let bottom = border_line t ws (border_of t.utf8).bottom in
    let (hs, is_hs) = headed_total t ns ws labels (ls ++ bottom ∷ []) enough in
    (border_line t ws (border_of t.utf8).top ∷ hs, bordered_step t ws rs labels ls hs is_ls is_hs)

-- A grid with no more labels than its longest row has values is drawn.
pub grid-Returns :
    (t : Terminal) (rs : List (List Cell)) (labels : List String) (indent : ℕ)
    → length labels ≤ longest rs
    → Returns (grid t rs labels indent)
unfolding grid
grid-Returns t rs labels indent h =
    let ws = column_widths t labels rs in
    let few : length ws ≤ longest rs = omega (arith, length-column_widths t labels rs) in
    let blocks = indented indent (row_blocks t rs labels) in
    if_cases Returns (ltb 0 t.width && ltb t.width (grid_total indent ws)) (some blocks)
      (Option.map (indented indent) (bordered t ws rs labels)) (λ _. (blocks, refl))
      (λ _. map-Returns _ _ (bordered_total t ws rs labels few))
