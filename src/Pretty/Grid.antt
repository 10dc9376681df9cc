-- ===== src/Pretty/Grid.antt =====
-- Rows of data as a bordered grid, or as one block a row (`grid` and `rowBlocks` of
-- internal/pretty/pretty.go).
use anfra.Prelude.{
  ℕ, zero, suc, ◌+◌, ◌-◌, ◌/◌, ◌%◌, String, Bool, true, false, not, ◌&&◌, Option, none, some, List,
  [], ◌∷◌, ◌++◌, ltb, if◌then◌else◌, get_elem?, cat, join,
}
use Prim.Native.Nat.{max}
use mathlib.Core.Option
use anfra.Pretty.{
  Terminal, Cell, Line, muted, Tone, bare, onto, styled, spaces, wide, text_of, cell_line,
}
use anfra.Pretty.Tables.{column_widths, numeric_columns}
mod Lines
pub mod Even
pub mod Total

-- The characters of a border: the rule, the bar, and the corners by their places.
pub record Border : Type 0 where
  pub bar : String
  pub top : String × String × String
  pub middle : String × String × String
  pub bottom : String × String × String

pub border_of : Bool → Border
border_of true = record {
  bar = "│";
  top = ("┌", "┬", "┐");
  middle = ("├", "┼", "┤");
  bottom = ("└", "┴", "┘");
}
border_of false = record {
  bar = "|";
  top = ("+", "+", "+");
  middle = ("+", "+", "+");
  bottom = ("+", "+", "+");
}

abbrev pub rule_of : Bool → String
rule_of u = if u then "─" else "-"

-- `strings.Repeat`
repeat : String → ℕ → String
repeat s zero = ""
repeat s (suc n) = cat s (repeat s n)

segments : String → List ℕ → List String
unfolding repeat
segments h [] = []
segments h (w ∷ ws) = repeat h (w + 2) ∷ segments h ws

-- `border`, after the indent
pub border_line : Terminal → List ℕ → String × String × String → Line
unfolding segments join
border_line t ws (left, mid, right) =
    styled muted (cat left (cat (join (segments (rule_of t.utf8) ws) mid) right)) ∷ []

-- A cell between its bars: a heading is faint, a number to the right.
boxed : Terminal → Bool → Bool → ℕ → Cell → Line
unfolding cell_line spaces text_of border_of
boxed t header number w c =
    let shown = if header then styled muted (text_of c) ∷ [] else cell_line t c in
    let gap = bare (spaces (w - wide t c)) in
    let placed = if number && not header then gap ∷ shown else shown ++ gap ∷ [] in
    bare " " ∷ placed ++ (bare " " ∷ styled muted (border_of t.utf8).bar ∷ [])

-- `line` over the columns, after the indent and the first bar; a column that `numeric` does not have
-- is an index out of range, none.
boxes : Terminal → Bool → List Bool → List ℕ → List Cell → Option Line
unfolding boxed
boxes t header ns [] cs = some []
boxes t header [] (w ∷ ws) cs = none
boxes t header (n ∷ ns) (w ∷ ws) [] =
    Option.map (λ l. boxed t header n w [] ++ l) (boxes t header ns ws [])
boxes t header (n ∷ ns) (w ∷ ws) (c ∷ cs) =
    Option.map (λ l. boxed t header n w c ++ l) (boxes t header ns ws cs)

pub grid_line : Terminal → Bool → List Bool → List ℕ → List Cell → Option Line
unfolding boxes border_of
grid_line t header ns ws cs =
    Option.map (λ l. styled muted (border_of t.utf8).bar ∷ l) (boxes t header ns ws cs)

pub grid_rows : Terminal → List Bool → List ℕ → List (List Cell) → Option (List Line)
unfolding grid_line onto
grid_rows t ns ws [] = some []
grid_rows t ns ws (r ∷ rs) = onto (grid_line t false ns ws r) (grid_rows t ns ws rs)

pub safe_cells : Terminal → List String → List Cell
safe_cells t [] = []
safe_cells t (l ∷ ls) = (record { text = t.safe l; tone = Tone.plain } ∷ []) ∷ safe_cells t ls

-- The heading and the rule under it, when there are labels, above the rest.
pub headed : Terminal → List Bool → List ℕ → List String → List Line → Option (List Line)
unfolding grid_line safe_cells border_line border_of
headed t ns ws [] below = some below
headed t ns ws (s ∷ ss) below =
    Option.map (λ l. l ∷ border_line t ws (border_of t.utf8).middle ∷ below)
      (grid_line t true ns ws (safe_cells t (s ∷ ss)))

-- The grid's lines, after the indent, for columns of widths `ws`.
unfoldable pub bordered : Terminal → List ℕ → List (List Cell) → List String → Option (List Line)
unfolding grid_rows headed border_line border_of numeric_columns
bordered t ws rs labels =
    let ns = numeric_columns t rs in
    let bottom = border_line t ws (border_of t.utf8).bottom ∷ [] in
    elim (grid_rows t ns ws rs) [
      | none ↦ none
      | some ls ↦
          Option.map (◌∷◌ (border_line t ws (border_of t.utf8).top))
            (headed t ns ws labels (ls ++ bottom))
    ]

pub boxed_widths : List ℕ → ℕ
boxed_widths [] = 0
boxed_widths (w ∷ ws) = w + 3 + boxed_widths ws

-- The columns of a grid's line, its indent with it.
unfoldable pub grid_total : ℕ → List ℕ → ℕ
unfolding boxed_widths
grid_total indent ws = indent + 1 + boxed_widths ws

-- `strconv.Itoa`, as in `rowBlocks`' labels and its lines' numbers
digit : ℕ → String
digit n =
    elim (get_elem? {A = String} ("0" ∷ "1" ∷ "2" ∷ "3" ∷ "4" ∷ "5" ∷ "6" ∷ "7" ∷ "8" ∷ "9" ∷ [])
      n) [ none ↦ "" | some d ↦ d ]

digits : ℕ → ℕ → String
unfolding digit
digits zero n = ""
digits (suc k) n =
    let last = digit (n % 10) in
    let more = cat (digits k (n / 10)) last in if ltb n 10 then last else more

unfoldable pub itoa : ℕ → String
unfolding digits digit
itoa n = digits (suc n) n

label_at : Terminal → List String → ℕ → String
unfolding itoa
label_at t labels i = elim (get_elem? labels i) [ some l ↦ t.safe l | none ↦ itoa (i + 1) ]

row_label_width : Terminal → List String → ℕ → List Cell → ℕ
unfolding label_at
row_label_width t labels i [] = 0
row_label_width t labels i (c ∷ cs) =
    max (t.columns (label_at t labels i)) (row_label_width t labels (suc i) cs)

label_width : Terminal → List String → List (List Cell) → ℕ
unfolding row_label_width
label_width t labels [] = 0
label_width t labels (r ∷ rs) = max (row_label_width t labels 0 r) (label_width t labels rs)

block_lines : Terminal → List String → ℕ → ℕ → List Cell → List Line
unfolding label_at spaces cell_line
block_lines t labels w i [] = []
block_lines t labels w i (c ∷ cs) =
    (styled muted (label_at t labels i)
      ∷ bare (spaces (w + 3 - t.columns (label_at t labels i)))
      ∷ cell_line t c)
    ∷ block_lines t labels w (suc i) cs

blocks_from : Terminal → List String → ℕ → ℕ → List (List Cell) → List Line
unfolding block_lines itoa
blocks_from t labels w n [] = []
blocks_from t labels w n (r ∷ rs) =
    (styled muted (cat "-[ ROW " (cat (itoa (n + 1)) " ]-")) ∷ []) ∷ block_lines t labels w 0 r
    ++ blocks_from t labels w (suc n) rs

-- `rowBlocks`, after the indent
unfoldable pub row_blocks : Terminal → List (List Cell) → List String → List Line
unfolding blocks_from label_width
row_blocks t rs labels = blocks_from t labels (label_width t labels rs) 0 rs

unfoldable pub indented : ℕ → List Line → List Line
unfolding spaces
indented n [] = []
indented n (l ∷ ls) = (bare (spaces n) ∷ l) ∷ indented n ls

-- `grid`
unfoldable pub grid : Terminal → List (List Cell) → List String → ℕ → Option (List Line)
unfolding column_widths grid_total row_blocks bordered indented
grid t rs labels indent =
    let ws = column_widths t labels rs in
    if ltb 0 t.width && ltb t.width (grid_total indent ws)
    then some (indented indent (row_blocks t rs labels))
    else Option.map (indented indent) (bordered t ws rs labels)
