-- ===== src/Pretty/Tests.antt =====
-- Tests of the pretty format's drawing, and the theorems at concrete inputs.
use anfra.Prelude.{
  ℕ, zero, suc, ◌+◌, ◌≤◌, String, ◌≡◌, refl, inr, Bool, true, false, not, ◌&&◌, Option, none, some,
  List, [], ◌∷◌, map, arith, str_eq, leb, All, cat, has_prefix,
}
use anfra.Pretty.Measured.{Measures}
use anfra.Pretty.{none_cell, item}
use anfra.Pretty.View.{
  Hint, Node, absent, scalar, objects, lists, node, no_node, Fields, field, no_field, one_object,
  no_object, one_row, no_row,
}
use anfra.Pretty.Layout.{Builder, build_doc}
use anfra.Pretty.Csv.Joined.{all_fields, read-joined_cell}
use Prim.Native.Char.{code}
use text.Mathlib.TextLemmas.{nil-append, cons-append}
use anfra.Pretty.{
  Terminal, Table, Cell, Tone, Value, no_entry, entry, no_item, Doc, Line, columns_of, text_of,
  cell_line, drawn, code_line,
}
use anfra.Pretty.Labels.{run_label_widths, run_widths, run_label_widths_total, key_value}
use anfra.Pretty.Tables.{fits, table_lines, drawn_widths, column_widths}
use anfra.Pretty.Tables.Fit.{table_lines_fit}
use anfra.Pretty.Grid.{grid, grid_total}
use anfra.Pretty.Grid.Even.{grid_even}
use anfra.Pretty.Csv.{joined_cell, first_line}
use anfra.Pretty.Csv.Reading.{read, Mode}

-- A terminal of 26 columns without styles, each character one column.
characters : String → ℕ
characters String.[] = 0
characters (String.◌∷◌ c s) = suc (characters s)

first : String → ℕ → String
first s zero = ""
first String.[] (suc n) = ""
first (String.◌∷◌ c s) (suc n) = String.◌∷◌ c (first s n)

all_digits : String → Bool
all_digits String.[] = true
all_digits (String.◌∷◌ c s) = (leb b'0' (code c) && leb (code c) b'9') && all_digits s

characters-cat : (a b : String) → characters (cat a b) ≡ characters a + characters b
unfolding characters
characters-cat String.[] b = rw (nil-append b) (omega arith)
characters-cat (String.◌∷◌ c a) b = rw (cons-append c a b) (omega (arith, characters-cat a b))

characters-first : (s : String) (n : ℕ) → characters (first s n) ≤ n
unfolding characters first
characters-first s zero = omega arith
characters-first String.[] (suc n) = omega arith
characters-first (String.◌∷◌ c s) (suc n) = omega (arith, characters-first s n)

abbrev narrow : Terminal
narrow = record {
  width = 26;
  render = λ k s. s;
  columns = characters;
  cut = λ s n tail. first s n;
  safe = λ s. s;
  is_number = λ s. not (str_eq s "") && all_digits s;
  utf8 = true;
}

narrow-Measures : Measures narrow
unfolding characters
narrow-Measures = record {
  columns_none = refl;
  columns-cat = λ a b _ _. characters-cat a b;
  columns_space = refl;
  columns-glyph = (
    refl,
    (
      refl,
      (
        refl,
        (refl, (refl, (refl, (refl, (refl, (refl, (refl, (refl, (refl, (refl, (refl, tt))))))))))),
      ),
    ),
  );
  columns-cut = λ s tail n. characters-first s n;
}

abbrev say : String → Cell
say s = record { text = s; tone = Tone.plain } ∷ []

abbrev sources : Table
sources = record {
  header = "NAME" ∷ "NOTE" ∷ "ROWS" ∷ [];
  rows =
      (say "sales" ∷ say "every order since 2020" ∷ say "12" ∷ [])
      ∷ (say "hr" ∷ say "staff" ∷ say "7" ∷ [])
      ∷ [];
  cuttable = some 1;
}

abbrev orders : List (List Cell)
orders = (say "a" ∷ say "10" ∷ []) ∷ (say "bcd" ∷ []) ∷ []

abbrev result : Doc
result = record {
  message = "Two tables.";
  body = entry "Name" (Value.text (say "x")) (
      entry "Org URL" (Value.lines (say "y" ∷ say "z" ∷ [])) (
        entry "Sources" (Value.listed (some sources) no_item)
          (entry "Data" (Value.rows orders ("id" ∷ "n" ∷ [])) no_entry)));
  hints = "Run it." ∷ [];
}

run_label_widths_total_example :
    run_label_widths narrow result.body ≡ some (run_widths narrow 0 result.body)
run_label_widths_total_example = run_label_widths_total narrow result.body

labels_aligned : run_widths narrow 0 result.body ≡ 8 ∷ 8 ∷ 0 ∷ 0 ∷ []
unfolding run_widths characters key_value
labels_aligned = refl

sources_fits : fits narrow sources 2 ≡ true
unfolding fits characters text_of
sources_fits = refl

table_lines_fit_example :
    (ls : List Line) × (table_lines narrow sources 2 ≡ some ls)
    × All (λ l. 2 + columns_of narrow l ≤ 26) ls
unfolding fits characters text_of drawn_widths
table_lines_fit_example =
    table_lines_fit narrow narrow-Measures sources 2 refl
      ((refl, (refl, (refl, tt))), ((refl, (refl, (refl, tt))), tt)) (omega arith) (omega arith)
      (omega arith) (omega arith) (omega arith, (omega arith, (omega arith, tt))) refl

grid_even_example :
    (ls : List Line) × (grid narrow orders ("id" ∷ "n" ∷ []) 2 ≡ some ls)
    × All (λ l. columns_of narrow l ≡ 14) ls
unfolding grid_total column_widths text_of characters
grid_even_example =
    grid_even narrow narrow-Measures orders ("id" ∷ "n" ∷ []) 2 refl
      ((refl, (refl, tt)), ((refl, tt), tt)) (omega arith) (omega arith)
      (omega arith, (omega arith, tt)) (inr (omega arith))

read-joined_cell_example :
    (j : Cell) × (joined_cell "," (some (say "a,b" ∷ say "say \"hi\"" ∷ say "c\nd" ∷ [])) ≡ some j)
    × (all_fields (read Mode.begin b',' (text_of j)) ≡ "a,b" ∷ "say \"hi\"" ∷ "c…" ∷ [])
unfolding first_line text_of
read-joined_cell_example =
    read-joined_cell "," (say "a,b") (say "say \"hi\"" ∷ say "c\nd" ∷ []) refl

-- With styles, a value between backquotes is drawn without them, and its line ends two columns short
-- of the others.
abbrev colored : Terminal
colored = record {
  width = 26;
  render = λ k s. cat "<" s;
  columns = characters;
  cut = λ s n tail. first s n;
  safe = λ s. s;
  is_number = λ s. not (str_eq s "") && all_digits s;
  utf8 = true;
}

abbrev widths_of : Terminal → Option (List Line) → List ℕ
widths_of t none = []
widths_of t (some ls) = map (columns_of t) ls

code_cell_is_short :
    widths_of colored (grid colored ((say "`a`" ∷ []) ∷ (say "bcd" ∷ []) ∷ []) [] 0)
    ≡ 7 ∷ 5 ∷ 7 ∷ 7 ∷ []
unfolding grid characters columns_of text_of cell_line code_line drawn all_digits
code_cell_is_short = refl

abbrev titled_as : String → String → List String → Hint
titled_as name label labels = record {
  name = name;
  label = label;
  omitted = false;
  block = false;
  tree = false;
  truncate = false;
  hidden = false;
  inline = false;
  labels = labels;
  tones = [];
  view = none;
}

abbrev raw : String → Node
raw s = scalar s true false

-- A result with a message, hints, a list of objects and rows of data.
abbrev query_result : Fields
query_result = field (titled_as "message" "Message" []) (raw "Two rows.") (
    field (titled_as "columns" "Columns" [])
      (objects
        (one_object
          (field (titled_as "name" "Name" []) (raw "id")
            (field (titled_as "url" "URL" []) absent no_field))
          no_object)
        "")
      (field (titled_as "rows" "Rows" ("id" ∷ "n" ∷ []))
        (lists (one_row (node (raw "a") (node (raw "10") no_node)) no_row) "") no_field))

abbrev plainly : Builder
plainly = record { terminal = narrow; upper = λ s. s; tree_lines = λ ps. [] }

built : build_doc plainly "Two rows." ("See docs." ∷ []) query_result ≡ record {
  message = "Two rows.";
  body =
      entry "Columns"
        (Value.listed
          (some (record {
            header = "Name" ∷ "URL" ∷ [];
            rows = (say "id" ∷ none_cell ∷ []) ∷ [];
            cuttable = none;
          }))
          (item "id" (entry "URL" (Value.text none_cell) no_entry) no_item))
        (entry "Rows" (Value.rows ((say "a" ∷ say "10" ∷ []) ∷ []) ("id" ∷ "n" ∷ [])) no_entry);
  hints = "See docs." ∷ [];
}
unfolding build_doc has_prefix
built = refl
