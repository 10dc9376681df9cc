-- ===== src/Pretty/Draw.antt =====
-- The view drawn, line by line (`doc` and `entries` of internal/pretty/pretty.go).
use anfra.Prelude.{
  ℕ, ◌+◌, ◌-◌, String, Bool, true, false, not, ◌&&◌, ◌||◌, Option, none, some, List, [], ◌∷◌, ◌++◌,
  str_eq, if◌then◌else◌, is_nil, cat,
}
use mathlib.Core.Option
use anfra.Pretty.{
  Terminal, heading, key, Cell, Line, Value, Entries, no_entry, entry, Items, no_item, item, Table,
  Doc, bare, styled, spaces, inline, cell_line, drawn,
}
use anfra.Pretty.Labels.{has_rows, run_label_widths}
use anfra.Pretty.Tables.{fits, table}
use anfra.Pretty.Grid.{grid}
pub mod Total

-- Lines, or none where drawing panics.
abbrev Lines : Type 0
Lines = Option (List Line)

both : Lines → Lines → Lines
both none ls = none
both (some ks) none = none
both (some ks) (some ls) = some (ks ++ ls)

headings : Terminal → ℕ → String → Line
unfolding spaces
headings t indent label = bare (spaces indent) ∷ styled key (cat label ":") ∷ []

-- A value on its label's line, where the run's values align.
beside : Terminal → ℕ → ℕ → String → Cell → Line
unfolding headings spaces cell_line
beside t indent w label c =
    headings t indent label ++ (bare (spaces (w + 2 - t.columns (cat label ":"))) ∷ cell_line t c)

under : Terminal → ℕ → ℕ → List Cell → List Line
unfolding spaces cell_line
under t indent w [] = []
under t indent w (c ∷ cs) =
    (bare (spaces indent) ∷ bare (spaces (w + 2)) ∷ cell_line t c) ∷ under t indent w cs

aligned : Terminal → ℕ → ℕ → String → List Cell → List Line
unfolding beside under
aligned t indent w label [] = []
aligned t indent w label (c ∷ cs) = beside t indent w label c ∷ under t indent w cs

blocked : Terminal → ℕ → List Cell → List Line
unfolding spaces cell_line
blocked t indent [] = []
blocked t indent (c ∷ cs) = (bare (spaces indent) ∷ bare "  " ∷ cell_line t c) ∷ blocked t indent cs

-- The table, when there is one and it fits.
tabled : Terminal → Option Table → ℕ → Option Lines
unfolding fits table
tabled t none indent = none
tabled t (some tb) indent =
    let lines = some (table t tb indent) in if fits t tb indent then lines else none

-- A blank line before an entry at the top that has rows, or follows one that has.
blank_before : Bool → Bool → Bool → Value → List Line
unfolding has_rows
blank_before top first above v = if top && not first && (has_rows v || above) then [] ∷ [] else []

width_here : List ℕ → ℕ
width_here [] = 0
width_here (w ∷ ws) = w

next_widths : List ℕ → List ℕ
next_widths [] = []
next_widths (w ∷ ws) = ws

-- `entries`; `above` is whether the entry before has rows.
mutual
  unfolding run_label_widths headings aligned beside blocked tabled blank_before width_here
      next_widths both grid has_rows spaces

  draw_entries : Terminal → ℕ → Bool → Bool → Bool → Option (List ℕ) → Entries → Lines
  draw_entries t indent top first above none es = none
  draw_entries t indent top first above (some ws) no_entry = some []
  draw_entries t indent top first above (some ws) (entry l v es) =
      both (some (blank_before top first above v)) (
        both (draw_value t indent (width_here ws) l v)
          (draw_entries t indent top false (has_rows v) (some (next_widths ws)) es))

  draw_value : Terminal → ℕ → ℕ → String → Value → Lines
  draw_value t indent w l (Value.text c) = some (beside t indent w l c ∷ [])
  draw_value t indent w l (Value.lines cs) = some (aligned t indent w l cs)
  draw_value t indent w l (Value.block cs) = some (headings t indent l ∷ blocked t indent cs)
  draw_value t indent w l (Value.section es) =
      both (some (headings t indent l ∷ []))
        (draw_entries t (indent + 2) false true false (run_label_widths t es) es)
  draw_value t indent w l (Value.listed tb is) =
      let blocks = draw_items t indent true is in
      both (some (headings t indent l ∷ []))
        (elim (tabled t tb (indent + 2)) [ none ↦ blocks | some lines ↦ lines ])
  draw_value t indent w l (Value.rows rs labels) =
      both (some (headings t indent l ∷ [])) (grid t rs labels (indent + 2))

  draw_items : Terminal → ℕ → Bool → Items → Lines
  draw_items t indent first no_item = some []
  draw_items t indent first (item h es is) =
      both
        (some (
          (if first then [] else [] ∷ [])
          ++ (bare (spaces indent) ∷ bare "  " ∷ inline t h ++ bare ":" ∷ []) ∷ []))
        (both (draw_entries t (indent + 4) false true false (run_label_widths t es) es)
          (draw_items t indent false is))

hint_lines : Terminal → List String → List Line
hint_lines t [] = []
hint_lines t (h ∷ hs) = (bare "  " ∷ inline t h) ∷ hint_lines t hs

has_entries : Entries → Bool
has_entries no_entry = false
has_entries (entry l v es) = true

message_lines : Terminal → Doc → List Line
unfolding has_entries drawn
message_lines t d =
    let said = styled heading (drawn t (inline t d.message)) ∷ [] in
    if str_eq d.message ""
    then []
    else said ∷ (if has_entries d.body || not (is_nil d.hints) then [] ∷ [] else [])

hints_lines : Terminal → Doc → List Line
unfolding has_entries hint_lines
hints_lines t d =
    let hints = (styled key "Hints:" ∷ []) ∷ hint_lines t d.hints in
    if is_nil d.hints then [] else (if has_entries d.body then [] ∷ [] else []) ++ hints

-- `doc`
unfoldable pub doc_lines : Terminal → Doc → Lines
unfolding both message_lines draw_entries run_label_widths hints_lines
doc_lines t d = both (some (message_lines t d)) (
    both (draw_entries t 0 true true false (run_label_widths t d.body) d.body)
      (some (hints_lines t d)))
